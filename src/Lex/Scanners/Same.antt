-- ===== src/Lex/Scanners/Same.antt =====
-- Which states have the scanner of another state.
use dparser.Prelude.{
  ℕ, zero, suc, ◌≤◌, ◌<◌, ◌≡◌, refl, sym, ap, ◌∙◌, ◌⊎◌, inl, inr, true, false, List, [], ◌∷◌, ◌++◌,
  map, Option, none, some, arith, length, get_elem?, lt-length, Bool-cases,
}
use mathlib.Core.List.{append_assoc, append-nil}
use mathlib.Core.Path.{subst}
use dparser.Lex.Scanners.{Shifts, same_scanner, shares, find_same, detect_same}

abbrev Apart : List (Shifts × Option ℕ) → Shifts → ℕ → Type 0
Apart states s i =
    (k : ℕ) (y : Shifts) → get_elem? states k ≡ some (y, none) → k < i → same_scanner y s ≡ false

-- `same_shifts` of state `i`, which is `s`: the first state before it that has its own scanner and shifts the same
-- terminals in the same way, if there is one.
pub data IsSame (states : List (Shifts × Option ℕ)) (i : ℕ) (s : Shifts) : Option ℕ → Type 0 where
  own : Apart states s i → IsSame states i s none
  copy :
      {j : ℕ} {x : Shifts}
      → get_elem? states j ≡ some (x, none)
      → j < i
      → same_scanner x s ≡ true
      → Apart states s j
      → IsSame states i s (some j)

later :
    (p : Shifts × Option ℕ) (states : List (Shifts × Option ℕ)) (s : Shifts) (i : ℕ) (o : Option ℕ)
    → shares p.1 p.0 s ≡ false
    → IsSame states i s o
    → IsSame (p ∷ states) (suc i) s (elim o [ none ↦ none | some j ↦ some (suc j) ])
later p states s i none no_match (own h) = own (λ k y at below. first k y at below)
  where
    first : Apart (p ∷ states) s (suc i)
    first zero y at below =
        let this : p ≡ (y, none) = cc at in
        ap (λ (q : Shifts × Option ℕ). shares q.1 q.0 s) (sym this) ∙ no_match
    first (suc k) y at below = h k y at (omega arith)
later p states s i (some j) no_match (copy at below same h) =
    copy at (omega arith) same (λ k y at' below'. first k y at' below')
  where
    first : Apart (p ∷ states) s (suc j)
    first zero y at' below' =
        let this : p ≡ (y, none) = cc at' in
        ap (λ (q : Shifts × Option ℕ). shares q.1 q.0 s) (sym this) ∙ no_match
    first (suc k) y at' below' = h k y at' (omega arith)

find_same-IsSame :
    (before : List (Shifts × Option ℕ)) (s : Shifts)
    → IsSame before (length before) s (find_same before s)
unfolding find_same
find_same-IsSame [] s = own (λ k y at below. absurd (cc at))
find_same-IsSame ((x, same) ∷ before) s = elim (Bool-cases (shares same x s)) [
  | inr no_match ↦
      rw (no_match, find_same)
        (later (x, same) before s (length before) (find_same before s) no_match
          (find_same-IsSame before s))
  | inl here ↦
      let (open_to, this) = own_scanner same here in
      rw (here, find_same)
        (copy (ap (λ o. some (x, o)) open_to) (omega arith) this
          (λ k y at below. absurd (omega arith)))
]
  where
    own_scanner : (o : Option ℕ) → shares o x s ≡ true → (o ≡ none) × (same_scanner x s ≡ true)
    own_scanner none h = (refl, h)
    own_scanner (some j) h = absurd (cc h)

old_at :
    (xs more : List (Shifts × Option ℕ)) (k : ℕ) (p : Shifts × Option ℕ)
    → get_elem? xs k ≡ some p
    → get_elem? (xs ++ more) k ≡ some p
old_at [] more k p e = absurd (cc e)
old_at (x ∷ xs) more zero p e = e
old_at (x ∷ xs) more (suc k) p e = old_at xs more k p e

at_before :
    (xs more : List (Shifts × Option ℕ)) (k : ℕ) (p : Shifts × Option ℕ)
    → get_elem? (xs ++ more) k ≡ some p
    → k < length xs
    → get_elem? xs k ≡ some p
at_before [] more k p e below = absurd (omega arith)
at_before (x ∷ xs) more zero p e below = e
at_before (x ∷ xs) more (suc k) p e below = at_before xs more k p e (omega arith)

IsSame-append :
    (xs more : List (Shifts × Option ℕ)) (i : ℕ) (s : Shifts) (o : Option ℕ)
    → i ≤ length xs
    → IsSame xs i s o
    → IsSame (xs ++ more) i s o
IsSame-append xs more i s none inside (own h) =
    own (λ k y at below. h k y (at_before xs more k _ at (omega arith)) below)
IsSame-append xs more i s (some j) inside (copy {x = x} at below same h) =
    copy (old_at xs more j (x, none) at) below same
      (λ k y at' below'. h k y (at_before xs more k _ at' (omega arith)) below')

abbrev pub AllSame : List (Shifts × Option ℕ) → Type 0
AllSame states =
    (i : ℕ) (s : Shifts) (o : Option ℕ) → get_elem? states i ≡ some (s, o) → IsSame states i s o

at_last :
    (xs : List (Shifts × Option ℕ)) (x p : Shifts × Option ℕ) (k : ℕ)
    → get_elem? (xs ++ x ∷ []) k ≡ some p
    → (get_elem? xs k ≡ some p) ⊎ ((x ≡ p) × (k ≡ length xs))
at_last [] x p zero e = inr (cc e, refl)
at_last [] x p (suc k) e = absurd (cc e)
at_last (y ∷ xs) x p zero e = inl e
at_last (y ∷ xs) x p (suc k) e = elim (at_last xs x p k e) [
  | inl old ↦ inl old
  | inr (this, last) ↦ inr (this, ap suc last)
]

AllSame-next :
    (before : List (Shifts × Option ℕ)) (s : Shifts)
    → AllSame before
    → AllSame (before ++ (s, find_same before s) ∷ [])
AllSame-next before s all i t o at = elim (at_last before (s, find_same before s) (t, o) i at) [
  | inl old ↦
      let inside = lt-length before i (t, o) old in
      IsSame-append before ((s, find_same before s) ∷ []) i t o (omega arith) (all i t o old)
  | inr (this, last) ↦
      let new =
        IsSame-append before ((s, find_same before s) ∷ []) (length before) s (find_same before s)
          (omega arith) (find_same-IsSame before s) in
      let new' =
        subst
          (λ (p : Shifts × Option ℕ).
            IsSame (before ++ (s, find_same before s) ∷ []) (length before) p.0 p.1)
          this new in
      subst (λ n. IsSame (before ++ (s, find_same before s) ∷ []) n t o) (sym last) new'
]

abbrev pub shifts_of : List (Shifts × Option ℕ) → List Shifts
shifts_of states = map (λ (p : Shifts × Option ℕ). p.0) states

shifts_of-concat :
    (xs : List (Shifts × Option ℕ)) (p : Shifts × Option ℕ)
    → shifts_of (xs ++ p ∷ []) ≡ shifts_of xs ++ p.0 ∷ []
shifts_of-concat [] p = refl
shifts_of-concat (x ∷ xs) p = ap (λ l. x.0 ∷ l) (shifts_of-concat xs p)

detect_same-AllSame :
    (before : List (Shifts × Option ℕ)) (states : List Shifts)
    → AllSame before
    → AllSame (detect_same before states)
      × (shifts_of (detect_same before states) ≡ shifts_of before ++ states)
unfolding detect_same
detect_same-AllSame before [] all = (all, sym (append-nil (shifts_of before)))
detect_same-AllSame before (s ∷ states) all =
    let next = before ++ (s, find_same before s) ∷ [] in
    let (all', e) = detect_same-AllSame next states (AllSame-next before s all) in
    (
      all',
      e
          ∙ ap (λ l. l ++ states) (shifts_of-concat before (s, find_same before s))
          ∙ append_assoc (shifts_of before) (s ∷ []) states,
    )

-- The first loop of `build_scanners` keeps the states and their order; `same_shifts` of a state is the first state
-- before it that has its own scanner, as many actions with the same terminals and the same kind of scan, and it is
-- NULL only if there is none.
pub detect_same_lem :
    (states : List Shifts)
    → AllSame (detect_same [] states) × (shifts_of (detect_same [] states) ≡ states)
detect_same_lem states = detect_same-AllSame [] states (λ i s o at. absurd (cc at))
