-- ===== src/Lex/Subset/Edges.antt =====
-- One visit of a DFA state: where its edges go.
use mathlib.Core.List.{append-nil, append_assoc}
use mathlib.Core.Path.{subst}
use dparser.Prelude.{
  ℕ, zero, suc, ◌+◌, ◌<◌, ◌≡◌, ◌↔◌, refl, sym, ap, ◌∙◌, ◌⊎◌, inl, inr, Bool, true, false, ◌||◌,
  List, [], ◌∷◌, ◌++◌, Option, none, some, arith, length, get_elem?, get_or, is_empty, Bool-cases,
  Option-cases, Eq, has, distinct, has-append, distinct-concat, nat_eq,
}
use dparser.Libc.{Qsort}
use dparser.Lex.{NfaState, nfa_at, targets}
use dparser.Lex.Closure.{add_targets, eq_dfa_state}
use dparser.Lex.Closure.Reach.{Reaches, start, along, IsClosed, IsSubset, add_targets-Adds}
use dparser.Lex.Closure.Canonical.{rising, eq_dfa_state_iff, nfa_closure-Reaches}
use dparser.Lex.Subset.{moves, find_dfa, edge, row}

instance abbrev pub set_eq : Eq (List ℕ)
set_eq = record { beq = eq_dfa_state; beq_iff = eq_dfa_state_iff }

-- All edges go to states of the automaton.
pub record IsNfa (n : List NfaState) : Type 0 where
  pub silent : IsClosed n
  pub reading : (s c t : ℕ) → has (targets (nfa_at n s).chars c) t ≡ true → t < length n

-- Some state of the list goes to the other one by the byte.
abbrev pub can_move : List NfaState → ℕ → List ℕ → ℕ → Bool
can_move n c [] t = false
can_move n c (s ∷ states) t = has (targets (nfa_at n s).chars c) t || can_move n c states t

pub has-moves :
    (n : List NfaState) (c : ℕ) (states y : List ℕ)
    → distinct y ≡ true
    → (distinct (moves n c states y) ≡ true)
      × ((t : ℕ) → has (moves n c states y) t ≡ (has y t || can_move n c states t))
unfolding moves
has-moves n c [] y d = (d, λ t. ground arith)
has-moves n c (s ∷ states) y d =
    let a = add_targets-Adds y (targets (nfa_at n s).chars c) d in
    let (d', rest) = has-moves n c states (add_targets y (targets (nfa_at n s).chars c)) a.once in
    (d', λ t. ground (arith, rest t, a.members t))

moves_inside :
    (n : List NfaState) (c : ℕ) (states : List ℕ) (t : ℕ)
    → IsNfa n
    → can_move n c states t ≡ true
    → t < length n
moves_inside n c [] t h move = absurd (cc move)
moves_inside n c (s ∷ states) t h move = elim (Bool-cases (has (targets (nfa_at n s).chars c) t)) [
  | inl here ↦ h.reading s c t here
  | inr other ↦ moves_inside n c states t h (ground arith)
]

moves-IsSubset :
    (n : List NfaState) (c : ℕ) (states : List ℕ) → IsNfa n → IsSubset n (moves n c states [])
moves-IsSubset n c states h =
    let (d, members) = has-moves n c states [] refl in
    record { once = d; inside = λ t held. moves_inside n c states t h (sym (members t) ∙ held) }

-- Where the entry of a row for a byte goes, from the NFA states `x`.
pub data Edge (n : List NfaState) (sets : List (List ℕ)) (x : List ℕ) (c : ℕ)
    : Option ℕ → Type 0 where
  nowhere : ((t : ℕ) → can_move n c x t ≡ false) → Edge n sets x c none
  to :
      {j : ℕ} {z : List ℕ}
      → get_elem? sets j ≡ some z
      → ((t : ℕ) → (has z t ≡ true) ↔ Reaches n (moves n c x []) t)
      → Edge n sets x c (some j)

get_elem?-append :
    {A : Type 0} (xs ys : List A) (j : ℕ) (z : A)
    → get_elem? xs j ≡ some z
    → get_elem? (xs ++ ys) j ≡ some z
get_elem?-append [] ys j z e = absurd (cc e)
get_elem?-append (x ∷ xs) ys zero z e = e
get_elem?-append (x ∷ xs) ys (suc j) z e = get_elem?-append xs ys j z e

pub Edge-append :
    (n : List NfaState) (sets new : List (List ℕ)) (x : List ℕ) (c : ℕ) (o : Option ℕ)
    → Edge n sets x c o
    → Edge n (sets ++ new) x c o
Edge-append n sets new x c none (nowhere h) = nowhere h
Edge-append n sets new x c (some j) (to {z = z} at h) = to (get_elem?-append sets new j z at) h

-- Different sets of NFA states.
pub record IsSets (n : List NfaState) (sets : List (List ℕ)) : Type 0 where
  pub once : distinct sets ≡ true
  pub ordered : (z : List ℕ) → has sets z ≡ true → rising z ≡ true
  pub inside : (z : List ℕ) (s : ℕ) → has sets z ≡ true → has z s ≡ true → s < length n

find_dfa_sound :
    (sets : List (List ℕ)) (y : List ℕ) (j : ℕ)
    → find_dfa sets y ≡ some j
    → get_elem? sets j ≡ some y
unfolding find_dfa
find_dfa_sound [] y j e = absurd (cc e)
find_dfa_sound (x ∷ sets) y j e = elim (Bool-cases (eq_dfa_state y x)) [
  | inl same ↦
      let found : ◌≡◌ {A = Option ℕ} (some 0) (some j) = rw (same, find_dfa) at e in
      let first : 0 ≡ j = cc found in
      let this : y ≡ x = (eq_dfa_state_iff y x).0 same in rw (← first) (ap some (sym this))
  | inr apart ↦ elim (Option-cases (find_dfa sets y)) [
    | inl missing ↦ absurd (cc (rw (apart, missing, find_dfa) at e))
    | inr (k, found) ↦
        let here : some (suc k) ≡ some j = rw (apart, found, find_dfa) at e in
        let this : suc k ≡ j = cc here in rw (← this) (find_dfa_sound sets y k found)
  ]
]

find_dfa_complete :
    (sets : List (List ℕ)) (y : List ℕ) → find_dfa sets y ≡ none → has sets y ≡ false
unfolding find_dfa
find_dfa_complete [] y e = refl
find_dfa_complete (x ∷ sets) y e = elim (Bool-cases (eq_dfa_state y x)) [
  | inl same ↦ absurd (cc (rw (same, find_dfa) at e))
  | inr apart ↦ elim (Option-cases (find_dfa sets y)) [
    | inl missing ↦
        ground (arith, find_dfa_complete sets y, eq_dfa_state_iff x y, eq_dfa_state_iff y x)
    | inr (k, found) ↦ absurd (cc (rw (apart, found, find_dfa) at e))
  ]
]

-- A set that the DFA does not have is added to it.
IsSets-append :
    (n : List NfaState) (sets : List (List ℕ)) (z : List ℕ)
    → IsSets n sets
    → has sets z ≡ false
    → rising z ≡ true
    → ((s : ℕ) → has z s ≡ true → s < length n)
    → IsSets n (sets ++ z ∷ [])
IsSets-append n sets z h fresh up inside = record {
  once = distinct-concat sets z h.once fresh;
  ordered = λ y held. elim (Bool-cases (has sets y)) [
    | inl old ↦ h.ordered y old
    | inr new ↦ subst (λ q. rising q ≡ true) (last y held new) up
  ];
  inside = λ y s held member. elim (Bool-cases (has sets y)) [
    | inl old ↦ h.inside y s old member
    | inr new ↦ inside s (ap (λ q. has q s) (last y held new) ∙ member)
  ];
}
  where
    last : (y : List ℕ) → has (sets ++ z ∷ []) y ≡ true → has sets y ≡ false → z ≡ y
    last y held new = (eq_dfa_state_iff z y).0 (ground (arith, has-append sets (z ∷ []) y))

get_elem?-last : {A : Type 0} (xs : List A) (z : A) → get_elem? (xs ++ z ∷ []) (length xs) ≡ some z
get_elem?-last [] z = refl
get_elem?-last (x ∷ xs) z = get_elem?-last xs z

-- The sets after a visit are those before it and new ones.
abbrev pub Grown : List (List ℕ) → List (List ℕ) → Type 0
Grown sets sets' = (new : List (List ℕ)) × (sets' ≡ sets ++ new)

pub reached_inside :
    (n : List NfaState) (kernel : List ℕ) (t : ℕ)
    → IsNfa n
    → IsSubset n kernel
    → Reaches n kernel t
    → t < length n
reached_inside n kernel t h sub (start held) = sub.inside t held
reached_inside n kernel t h sub (along {s} r step) = h.silent s t step

edge-Edge :
    (libc : Qsort) (n : List NfaState) (x : List ℕ) (c : ℕ) (sets : List (List ℕ))
    → IsNfa n
    → IsSets n sets
    → (r : List (List ℕ) × Option ℕ) × (edge libc n x c sets ≡ some r)
      × IsSets n r.0
      × Grown sets r.0
      × Edge n r.0 x c r.1
unfolding edge
edge-Edge libc n x c sets h valid = elim (List-cases (moves n c x [])) [
  | inl nothing ↦ (
    (sets, none),
    rw (nothing, edge) refl,
    valid,
    ([], sym (append-nil sets)),
    nowhere (λ t. sym ((has-moves n c x [] refl).1 t) ∙ ap (λ q. has q t) nothing),
  )
  | inr (t, rest, some_move) ↦
      let sub = moves-IsSubset n c x h in
      let (z, run, up, exact) = nfa_closure-Reaches libc n (moves n c x []) h.silent sub in
      let busy : is_empty (moves n c x []) ≡ false = ap is_empty some_move in
      elim (Option-cases (find_dfa sets z)) [
        | inr (j, found) ↦ (
          (sets, some j),
          rw (busy, run, found, edge) refl,
          valid,
          ([], sym (append-nil sets)),
          to (find_dfa_sound sets z j found) exact,
        )
        | inl missing ↦ (
          (sets ++ z ∷ [], some (length sets)),
          rw (busy, run, missing, edge) refl,
          IsSets-append n sets z valid (find_dfa_complete sets z missing) up
              (λ s held. reached_inside n (moves n c x []) s h sub ((exact s).0 held)),
          (z ∷ [], refl),
          to (get_elem?-last sets z) exact,
        )
      ]
]
  where
    List-cases : (xs : List ℕ) → (xs ≡ []) ⊎ ((t : ℕ) × (rest : List ℕ) × (xs ≡ t ∷ rest))
    List-cases [] = inl refl
    List-cases (t ∷ rest) = inr (t, rest, refl)

-- A visit goes through the bytes: each entry of its row goes where the byte leads.
pub row-Edge :
    (libc : Qsort) (n : List NfaState) (x : List ℕ) (rest c : ℕ) (sets : List (List ℕ))
    → IsNfa n
    → IsSets n sets
    → (r : List (List ℕ) × List (Option ℕ)) × (row libc n x rest c sets ≡ some r)
      × IsSets n r.0
      × Grown sets r.0
      × ((i : ℕ) → i < rest → Edge n r.0 x (c + i) (get_or r.1 i none))
unfolding row
row-Edge libc n x zero c sets h valid =
    ((sets, []), refl, valid, ([], sym (append-nil sets)), λ i below. absurd (omega arith))
row-Edge libc n x (suc rest) c sets h valid =
    let (r, run, valid', (new, grown), first) = edge-Edge libc n x c sets h valid in
    let (q, run', valid'', (more, grown'), others) = row-Edge libc n x rest (suc c) r.0 h valid' in
    (
      (q.0, r.1 ∷ q.1),
      rw (run, row) (rw run' refl),
      valid'',
      (new ++ more, grown' ∙ ap (λ l. l ++ more) grown ∙ append_assoc sets new more),
      edges r.1 q.0 q.1
          (subst (λ l. Edge n l x c r.1) (sym grown') (Edge-append n r.0 more x c r.1 first))
          others,
    )
  where
    edges :
        (o : Option ℕ) (all : List (List ℕ)) (chars : List (Option ℕ))
        → Edge n all x c o
        → ((i : ℕ) → i < rest → Edge n all x (suc c + i) (get_or chars i none))
        → (i : ℕ) → i < suc rest
        → Edge n all x (c + i) (get_or (o ∷ chars) i none)
    edges o all chars first others zero below = subst (λ k. Edge n all x k o) (omega arith) first
    edges o all chars first others (suc i) below =
        subst (λ k. Edge n all x k (get_or chars i none)) (omega arith) (others i (omega arith))
