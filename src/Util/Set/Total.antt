-- ===== src/Util/Set/Total.antt =====
-- `set_add` ends: it returns, or it runs off the table of primes.
use dparser.Prelude.{
  ℕ, zero, suc, ◌+◌, ◌≤◌, ◌<◌, ◌≡◌, ◌≢◌, refl, ◌⊎◌, inl, inr, Bool, true, false, ◌||◌, ◌&&◌, List,
  [], ◌∷◌, some, arith, ltb, ◌==◌, if◌then◌else◌, length, get_elem?, Bool-cases, Option-cases,
}
use dparser.Util.Set.{
  Table, Outcome, ok, exhausted, out_of_fuel, ◌>>=◌, full, d_prime2, lookup, enlarge, union_with,
  set_add_fuel, set_add,
}
use dparser.Util.Set.Adding.{Probe-cases}

all_large : List ℕ → Bool
all_large [] = true
all_large (p ∷ ps) = ltb 0 p && all_large ps

get_elem?-large :
    (ps : List ℕ) (i p : ℕ)
    → all_large ps ≡ true
    → get_elem? ps i ≡ some p
    → (i < length ps) × (0 < p)
unfolding all_large
get_elem?-large [] i p h e = absurd (cc e)
get_elem?-large (q ∷ ps) zero p h e = ground arith
get_elem?-large (q ∷ ps) (suc i) p h e = ground (arith, get_elem?-large ps i p)

pub prime_lem : (i p : ℕ) → get_elem? d_prime2 i ≡ some p → (i < 29) × (0 < p)
unfolding d_prime2
prime_lem i p e = get_elem?-large d_prime2 i p (unfold all_large in refl) e

-- A table that was allocated, with a size in `d_prime2`.
pub record IsSized (s : Table) : Type 0 where
  pub allocated : 0 < s.n
  pub index : s.i < 29

enlarge-IsSized :
    (s fresh : Table)
    → enlarge s ≡ some fresh
    → IsSized fresh × (fresh.i ≡ (if s.n == 0 then 2 else s.i + 1))
unfolding enlarge
enlarge-IsSized s fresh e =
    let size : get_elem? d_prime2 fresh.i ≡ some fresh.n = ground arith in
    let (small, pos) = prime_lem fresh.i fresh.n size in
    (record { allocated = pos; index = small }, ground arith)

-- The outcome is not `out_of_fuel`, and a table that is returned has at least the size index `i`.
abbrev Ends : ℕ → Outcome (Table × Bool) → Type 0
Ends i (ok r) = IsSized r.0 × (i ≤ r.0.i)
Ends i exhausted = Unit
Ends i out_of_fuel = ⊥

Ends-weaken : (i j : ℕ) (m : Outcome (Table × Bool)) → i ≤ j → Ends j m → Ends i m
Ends-weaken i j (ok r) le h = (h.0, omega (arith, h.1))
Ends-weaken i j exhausted le h = h
Ends-weaken i j out_of_fuel le h = h

Ends->>= :
    (i : ℕ) (m : Outcome (Table × Bool)) (f : Table × Bool → Outcome (Table × Bool))
    → Ends i m
    → ((r : Table × Bool) → IsSized r.0 → i ≤ r.0.i → Ends i (f r))
    → Ends i (m >>= f)
Ends->>= i (ok r) f h rest = rest r h.0 h.1
Ends->>= i exhausted f h rest = h
Ends->>= i out_of_fuel f h rest = h

abbrev EndsFrom : ℕ → (Table → ℕ → Outcome (Table × Bool)) → Type 0
EndsFrom fuel add =
    (i : ℕ) (s : Table) (t : ℕ) → IsSized s → i ≤ s.i → 30 ≤ fuel + s.i → Ends i (add s t)

union_with-Ends :
    (add : Table → ℕ → Outcome (Table × Bool)) (fuel i : ℕ) (s : Table) (ts : List ℕ) (c : Bool)
    → EndsFrom fuel add
    → IsSized s
    → i ≤ s.i
    → 30 ≤ fuel + i
    → Ends i (union_with add s ts c)
unfolding union_with
union_with-Ends add fuel i s [] c adds h le enough = (h, le)
union_with-Ends add fuel i s (t ∷ ts) c adds h le enough = elim (Bool-cases (t == 0)) [
  | inl null ↦ rw null (union_with-Ends add fuel i s ts c adds h le enough)
  | inr real ↦ rw real (
      Ends->>= i (add s t) _ (adds i s t h le (omega arith))
        (λ r sized le'. union_with-Ends add fuel i r.0 ts (r.1 || c) adds sized le' enough))
]

grown-Ends :
    (fuel i : ℕ) (s fresh : Table) (t : ℕ)
    → EndsFrom fuel (set_add_fuel fuel)
    → IsSized fresh
    → i ≤ fresh.i
    → 30 ≤ fuel + fresh.i
    → Ends i (union_with (set_add_fuel fuel) fresh s.v false >>= λ r. set_add_fuel fuel r.0 t)
grown-Ends fuel i s fresh t adds sized le enough =
    let weaken : Ends fresh.i
        (union_with (set_add_fuel fuel) fresh s.v false >>= λ r. set_add_fuel fuel r.0 t) =
      Ends->>= fresh.i (union_with (set_add_fuel fuel) fresh s.v false) _
        (union_with-Ends (set_add_fuel fuel) fuel fresh.i fresh s.v false adds sized (omega arith)
          enough)
        (λ r ok_size bigger. adds fresh.i r.0 t ok_size bigger (omega arith)) in
    Ends-weaken i fresh.i _ le weaken

set_add_fuel-Ends : (fuel : ℕ) → EndsFrom fuel (set_add_fuel fuel)
unfolding set_add_fuel
set_add_fuel-Ends zero i s t h le enough = absurd (omega (arith, h.index))
set_add_fuel-Ends (suc fuel) i s t h le enough = elim (Probe-cases (lookup s t)) [
  | inl (j, at) ↦ rw (at, set_add_fuel) (record { allocated = h.allocated; index = h.index }, le)
  | inr (inl at) ↦ rw (at, set_add_fuel) (h, le)
  | inr (inr at) ↦ elim (Option-cases (enlarge s)) [
    | inl last ↦ rw (at, last, set_add_fuel) tt
    | inr (fresh, bigger) ↦
        let (sized, next) = enlarge-IsSized s fresh bigger in
        let pos = h.allocated in
        let step : fresh.i ≡ s.i + 1 = ground arith in
        rw (at, bigger, set_add_fuel)
          (grown-Ends fuel i s fresh t (set_add_fuel-Ends fuel) sized (omega arith) (omega arith))
  ]
]

lookup_cleared : (s : Table) (t : ℕ) → s.n ≡ 0 → lookup s t ≡ full
unfolding lookup
lookup_cleared s t none_yet = ground arith

-- The outcome at a table that is not yet allocated.
fresh-Ends :
    (fuel : ℕ) (s : Table) (t : ℕ) → 29 ≤ fuel → s.n ≡ 0 → Ends 2 (set_add_fuel (suc fuel) s t)
unfolding set_add_fuel
fresh-Ends fuel s t enough none_yet = elim (Option-cases (enlarge s)) [
  | inl last ↦ rw (lookup_cleared s t none_yet, last, set_add_fuel) tt
  | inr (fresh, bigger) ↦
      let (sized, next) = enlarge-IsSized s fresh bigger in
      let first : fresh.i ≡ 2 = ground arith in
      rw (lookup_cleared s t none_yet, bigger, set_add_fuel)
        (grown-Ends fuel 2 s fresh t (set_add_fuel-Ends fuel) sized (omega arith) (omega arith))
]

outcome_cases :
    (m : Outcome (Table × Bool))
    → m ≢ out_of_fuel
    → (m ≡ exhausted) ⊎ ((r : Table × Bool) × (m ≡ ok r))
outcome_cases (ok r) h = inr (r, refl)
outcome_cases exhausted h = inl refl
outcome_cases out_of_fuel h = absurd (h refl)

-- On a cleared table, and on one whose size is a prime of the table, `set_add` does not go on for ever: it reads
-- behind the end of `d_prime2`, or it returns.
pub set_add_ends :
    (s : Table) (t : ℕ)
    → (s.n ≡ 0) ⊎ IsSized s
    → (set_add s t ≡ exhausted) ⊎ ((r : Table × Bool) × (set_add s t ≡ ok r))
unfolding set_add
set_add_ends s t (inl none_yet) =
    outcome_cases (set_add s t) (λ e. rw e at (fresh-Ends 29 s t (omega arith) none_yet))
set_add_ends s t (inr h) =
    outcome_cases (set_add s t)
      (λ e. rw e at (set_add_fuel-Ends 30 s.i s t h (omega arith) (omega arith)))
