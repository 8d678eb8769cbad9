-- ===== src/Lex/Transitions/Table.antt =====
-- The table of the transitions: no two are equal, and each byte of each state has its own.
use mathlib.Core.Path.{subst}
use dparser.Prelude.{
  ℕ, zero, suc, ◌+◌, ◌≡◌, refl, ap, inl, inr, List, [], ◌∷◌, Option, some, arith, get_elem?,
  Option-cases,
}
use dparser.Lr.{Action}
use dparser.Lex.Subset.{ScanState}
use dparser.Lex.Transitions.{
  Transition, find_transition, add_transition, transition_for, row_transitions, build_transitions,
}
use dparser.Lex.Transitions.Search.{
  same_actions_refl, Differs, Stands, found_lem, old_at, last_at, Differs-concat,
}

-- The transitions of before keep their places.
abbrev Kept : List Transition → List Transition → Type 0
Kept ts ts' = (k : ℕ) (y : Transition) → get_elem? ts k ≡ some y → get_elem? ts' k ≡ some y

Stands-Kept :
    (ts ts' : List Transition) (k : ℕ) (x : Transition)
    → Kept ts ts'
    → Stands ts k x
    → Stands ts' k x
Stands-Kept ts ts' k x kept s = record {
  found = s.found;
  at = kept k s.found s.at;
  equal = s.equal;
}

add_transition-Stands :
    (ts : List Transition) (x : Transition)
    → Differs ts
    → Differs (add_transition ts x).0
      × Kept ts (add_transition ts x).0
      × Stands (add_transition ts x).0 (add_transition ts x).1 x
unfolding add_transition
add_transition-Stands ts x d = elim (Option-cases (find_transition ts x)) [
  | inr (k, found) ↦ rw (found, add_transition) (d, λ j y at. at, found_lem ts x k found)
  | inl fresh ↦
      rw (fresh, add_transition)
        (
          Differs-concat ts x d fresh,
          λ j y at. old_at ts x y j at,
          record { found = x; at = last_at ts x; equal = same_actions_refl x.accepts_diff },
        )
]

module _ (action : ℕ → Action) (lives : List (List ℕ)) where
  -- The row of a state: for each byte the transition.
  abbrev pub RowOf : List Transition → ℕ → List ℕ → List (Option ℕ) → List ℕ → Type 0
  RowOf ts s accepts chars row =
      (c : ℕ) (o : Option ℕ)
      → get_elem? chars c ≡ some o
      → (k : ℕ) × (get_elem? row c ≡ some k) × Stands ts k (transition_for action lives s accepts o)

  row_transitions-RowOf :
      (ts : List Transition) (s : ℕ) (accepts : List ℕ) (chars : List (Option ℕ))
      → Differs ts
      → (r : List Transition × List ℕ) × (row_transitions action lives ts s accepts chars ≡ r)
        × Differs r.0
        × Kept ts r.0
        × RowOf r.0 s accepts chars r.1
  unfolding row_transitions
  row_transitions-RowOf ts s accepts [] d =
      ((ts, []), refl, d, λ k y at. at, λ c o e. absurd (cc e))
  row_transitions-RowOf ts s accepts (o ∷ chars) d =
      let (d1, kept1, stands) =
        add_transition-Stands ts (transition_for action lives s accepts o) d in
      let first = add_transition ts (transition_for action lives s accepts o) in
      let (r, run, d2, kept2, rest) = row_transitions-RowOf first.0 s accepts chars d1 in
      (
        (r.0, first.1 ∷ r.1),
        ap (λ (q : List Transition × List ℕ). (q.0, first.1 ∷ q.1)) run,
        d2,
        λ k y at. kept2 k y (kept1 k y at),
        λ c q e. each r.0 r.1 first.1 (Stands-Kept first.0 r.0 first.1 _ kept2 stands) rest c q e,
      )
    where
      each :
          (ts' : List Transition) (row : List ℕ) (k : ℕ)
          → Stands ts' k (transition_for action lives s accepts o)
          → RowOf ts' s accepts chars row
          → RowOf ts' s accepts (o ∷ chars) (k ∷ row)
      each ts' row k stands rest zero q e =
          let this : o ≡ q = cc e in
          (k, refl, subst (λ z. Stands ts' k (transition_for action lives s accepts z)) this stands)
      each ts' row k stands rest (suc c) q e = rest c q e

  abbrev pub RowsOf : List Transition → ℕ → List ScanState → List (List ℕ) → Type 0
  RowsOf ts s states rows =
      (i : ℕ) (ss : ScanState)
      → get_elem? states i ≡ some ss
      → (row : List ℕ) × (get_elem? rows i ≡ some row) × RowOf ts (s + i) ss.accepts ss.chars row

  pub build_transitions-RowsOf :
      (ts : List Transition) (s : ℕ) (states : List ScanState)
      → Differs ts
      → (r : List Transition × List (List ℕ)) × (build_transitions action lives ts s states ≡ r)
        × Differs r.0
        × Kept ts r.0
        × RowsOf r.0 s states r.1
  unfolding build_transitions
  build_transitions-RowsOf ts s [] d = ((ts, []), refl, d, λ k y at. at, λ i ss e. absurd (cc e))
  build_transitions-RowsOf ts s (ss ∷ states) d =
      let (p, run, d1, kept1, row) = row_transitions-RowOf ts s ss.accepts ss.chars d in
      let (r, run', d2, kept2, rest) = build_transitions-RowsOf p.0 (suc s) states d1 in
      (
        (r.0, p.1 ∷ r.1),
        rw (run, build_transitions) (rw run' refl),
        d2,
        λ k y at. kept2 k y (kept1 k y at),
        λ i q e. each p.0 p.1 r.0 r.1 kept2 row rest i q e,
      )
    where
      add_zero : (s : ℕ) → s ≡ s + 0
      add_zero s = omega arith

      add_suc : (s k : ℕ) → suc s + k ≡ s + suc k
      add_suc s k = omega arith

      each :
          (ts1 : List Transition) (row : List ℕ) (ts2 : List Transition) (rows : List (List ℕ))
          → Kept ts1 ts2
          → RowOf ts1 s ss.accepts ss.chars row
          → RowsOf ts2 (suc s) states rows
          → RowsOf ts2 s (ss ∷ states) (row ∷ rows)
      each ts1 row ts2 rows kept now rest zero q e =
          let this : ss ≡ q = cc e in
          (
            row,
            refl,
            subst (λ (z : ScanState). RowOf ts2 (s + 0) z.accepts z.chars row) this
                (subst (λ n. RowOf ts2 n ss.accepts ss.chars row) (add_zero s)
                  (λ c o to.
                    let (k, at, stands) = now c o to in
                    (k, at, Stands-Kept ts1 ts2 k _ kept stands))),
          )
      each ts1 row ts2 rows kept now rest (suc i) q e =
          let (r, at, of) = rest i q e in
          (r, at, subst (λ n. RowOf ts2 n q.accepts q.chars r) (add_suc s i) of)
