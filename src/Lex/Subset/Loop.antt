-- ===== src/Lex/Subset/Loop.antt =====
-- The loop over the DFA states ends: each round visits one, and there are finitely many.
use mathlib.Core.List.{append-nil, append_assoc}
use mathlib.Core.Path.{subst}
use dparser.Prelude.{
  ℕ, zero, suc, ◌+◌, ◌^◌, ◌≤◌, ◌<◌, ◌≡◌, refl, sym, ap, ◌∙◌, ◌⊎◌, inl, inr, List, [], ◌∷◌, ◌++◌,
  Option, none, some, arith, length, get_elem?, get_or, length-append, lt-length, Option-cases,
  nat_eq,
}
use dparser.Libc.{Qsort}
use dparser.Lex.{NfaState}
use dparser.Lex.Subset.{dfa_loop}
use dparser.Lex.Subset.Count.{length-IsSets}
use dparser.Lex.Subset.Edges.{set_eq, IsNfa, IsSets, Edge, Edge-append, Grown, row-Edge}

-- Different sets of NFA states, and for each set with a row, where its edges go.
pub record IsDfa (n : List NfaState) (sets : List (List ℕ)) (rows : List (List (Option ℕ)))
    : Type 0 where
  pub valid : IsSets n sets
  pub edges :
      (k c : ℕ) (x : List ℕ) (chars : List (Option ℕ))
      → get_elem? sets k ≡ some x
      → get_elem? rows k ≡ some chars
      → c < 256
      → Edge n sets x c (get_or chars c none)
  pub visited : length rows ≤ length sets

get_elem?-of_append :
    {A : Type 0} (xs ys : List A) (k : ℕ) (x : A)
    → get_elem? (xs ++ ys) k ≡ some x
    → k < length xs
    → get_elem? xs k ≡ some x
get_elem?-of_append [] ys k x e below = absurd (omega arith)
get_elem?-of_append (y ∷ xs) ys zero x e below = e
get_elem?-of_append (y ∷ xs) ys (suc k) x e below = get_elem?-of_append xs ys k x e (omega arith)

get_elem?-new :
    {A : Type 0} (xs : List A) (y x : A) (k : ℕ)
    → get_elem? (xs ++ y ∷ []) k ≡ some x
    → (get_elem? xs k ≡ some x) × (k < length xs) ⊎ (k ≡ length xs) × (y ≡ x)
get_elem?-new [] y x zero e = inr (refl, cc e)
get_elem?-new [] y x (suc k) e = absurd (cc e)
get_elem?-new (z ∷ xs) y x zero e = inl (e, omega arith)
get_elem?-new (z ∷ xs) y x (suc k) e = elim (get_elem?-new xs y x k e) [
  | inl (old, below) ↦ inl (old, omega arith)
  | inr (last, same) ↦ inr (omega arith, same)
]

-- A visit keeps the edges that there were, and adds a row.
IsDfa-row :
    (n : List NfaState) (sets new : List (List ℕ)) (rows : List (List (Option ℕ))) (x : List ℕ)
    (chars : List (Option ℕ))
    → IsDfa n sets rows
    → get_elem? sets (length rows) ≡ some x
    → IsSets n (sets ++ new)
    → ((i : ℕ) → i < 256 → Edge n (sets ++ new) x i (get_or chars i none))
    → IsDfa n (sets ++ new) (rows ++ chars ∷ [])
IsDfa-row n sets new rows x chars h at valid row_edges = record {
  valid = valid;
  edges = λ k c y cs in_sets in_rows below. elim (get_elem?-new rows chars cs k in_rows) [
    | inl (old, early) ↦ Edge-append n sets new y c _ (
        h.edges k c y cs (get_elem?-of_append sets new k y in_sets (omega (arith, h.visited))) old
          below)
    | inr (last, same) ↦
        let here : get_elem? sets k ≡ some x =
          subst (λ j. get_elem? sets j ≡ some x) (sym last) at in
        let there = get_elem?-of_append sets new k y in_sets (lt-length sets k x here) in
        let this : x ≡ y = cc (here, there) in
        subst (λ z. Edge n (sets ++ new) z c (get_or cs c none)) this
          (subst (λ q. Edge n (sets ++ new) x c (get_or q c none)) same (row_edges c below))
  ];
  visited = omega (
    arith,
    length-append rows (chars ∷ []),
    length-append sets new,
    lt-length sets (length rows) x at,
  );
}

-- The whole automaton: every set has its row.
pub record IsBuilt (n : List NfaState) (sets : List (List ℕ))
    (r : List (List ℕ) × List (List (Option ℕ))) : Type 0 where
  pub dfa : IsDfa n r.0 r.1
  pub full : length r.1 ≡ length r.0
  pub grown : Grown sets r.0

get_elem?-none : {A : Type 0} (xs : List A) (k : ℕ) → get_elem? xs k ≡ none → length xs ≤ k
get_elem?-none [] k e = omega arith
get_elem?-none (x ∷ xs) zero e = absurd (cc e)
get_elem?-none (x ∷ xs) (suc k) e = omega (arith, get_elem?-none xs k e)

pub dfa_loop-IsBuilt :
    (libc : Qsort) (n : List NfaState) (fuel : ℕ) (sets : List (List ℕ))
    (rows : List (List (Option ℕ)))
    → IsNfa n
    → IsDfa n sets rows
    → 2 ^ length n < fuel + length rows
    → (r : List (List ℕ) × List (List (Option ℕ))) × (dfa_loop libc n fuel sets rows ≡ some r)
      × IsBuilt n sets r
unfolding dfa_loop
dfa_loop-IsBuilt libc n zero sets rows h d enough =
    absurd (omega (arith, length-IsSets n sets d.valid, d.visited))
dfa_loop-IsBuilt libc n (suc fuel) sets rows h d enough =
    elim (Option-cases (get_elem? sets (length rows))) [
      | inl end ↦ (
        (sets, rows),
        rw (end, dfa_loop) refl,
        record {
          dfa = d;
          full = omega (arith, get_elem?-none sets (length rows) end, d.visited);
          grown = ([], sym (append-nil sets));
        },
      )
      | inr (x, at) ↦
          let (q, run, valid, (new, e), row_edges) = row-Edge libc n x 256 0 sets h d.valid in
          let d' : IsDfa n q.0 (rows ++ q.1 ∷ []) =
            subst (λ l. IsDfa n l (rows ++ q.1 ∷ [])) (sym e)
              (IsDfa-row n sets new rows x q.1 d at (subst (IsSets n) e valid) (λ i below.
                subst (λ l. Edge n l x i (get_or q.1 i none)) e
                  (subst (λ j. Edge n q.0 x j (get_or q.1 i none)) (omega arith)
                    (row_edges i below)))) in
          let (r, run', b) =
            dfa_loop-IsBuilt libc n fuel q.0 (rows ++ q.1 ∷ []) h d'
              (omega (arith, length-append rows (q.1 ∷ []))) in
          let (more, e') = b.grown in
          (
            r,
            rw (at, dfa_loop) (rw run run'),
            record {
              dfa = b.dfa;
              full = b.full;
              grown = (new ++ more, e' ∙ ap (λ l. l ++ more) e ∙ append_assoc sets new more);
            },
          )
    ]
