-- ===== src/Util/Set/Adding.antt =====
-- What `set_add` and `set_union` do to the pointers that a table holds, growth included.
use dparser.Prelude.{
  ℕ, zero, suc, ◌≡◌, ◌≢◌, refl, ◌⊎◌, inl, inr, Bool, true, false, not, ◌||◌, List, [], ◌∷◌, some,
  arith, ◌==◌, length, set, replicate, Bool-cases, Option-cases, length-set, length-replicate,
}
use dparser.Util.Set.{
  Table, Outcome, ok, exhausted, out_of_fuel, ◌>>=◌, Probe, free, found, full, probe, home, lookup,
  set_find, enlarge, union_with, set_add_fuel, set_add,
}
use dparser.Util.Set.Probing.{
  holds, holds-set, probe-free, holds_of_found, found_of_free, found-set,
}

-- The table has the size that it says, and each pointer in it is found by probing.
pub record IsValid (s : Table) : Type 0 where
  pub sized : length s.v ≡ s.n
  pub placed : (t : ℕ) → t ≢ 0 → holds s.v t ≡ true → lookup s t ≡ found

pub Probe-cases : (p : Probe) → ((j : ℕ) × (p ≡ free j)) ⊎ (p ≡ found) ⊎ (p ≡ full)
Probe-cases (free j) = inl (j, refl)
Probe-cases found = inr (inl refl)
Probe-cases full = inr (inr refl)

pub holds_of_lookup : (s : Table) (t : ℕ) → t ≢ 0 → lookup s t ≡ found → holds s.v t ≡ true
unfolding lookup
holds_of_lookup s t p e = ground (arith, holds_of_found s.v s.n t 5 (home t s.n))

-- On a valid table `set_find` decides membership.
pub set_find-holds : (s : Table) (t : ℕ) → IsValid s → t ≢ 0 → set_find s t ≡ holds s.v t
unfolding set_find
set_find-holds s t h p =
    ground (arith, h.placed t p, holds_of_lookup s t p, Bool-cases (holds s.v t))

-- The table `s'` is valid and holds what `s` holds and what `extra` says.
pub record Extends (extra : ℕ → Bool) (s s' : Table) : Type 0 where
  pub valid : IsValid s'
  pub members : (u : ℕ) → u ≢ 0 → holds s'.v u ≡ (extra u || holds s.v u)

place-Extends :
    (s : Table) (t j : ℕ)
    → IsValid s
    → t ≢ 0
    → lookup s t ≡ free j
    → Extends (λ u. t == u) s (record s { v = set s.v j t })
unfolding lookup
place-Extends s t j h p e =
    let (filled, at_home) = open_slot in
    let (in_range, is_free) = probe-free s.v s.n t 5 (home t s.n) j at_home in
    let members = λ (u : ℕ) (q : u ≢ 0). holds-set s.v j t u (omega (arith, h.sized)) is_free q in
    record {
      valid = record {
        sized = rw length-set h.sized;
        placed = λ u q held. ground (
          arith,
          members u q,
          h.placed u q,
          h.sized,
          found-set s.v s.n u t 5 (home u s.n) j,
          found_of_free s.v s.n t 5 (home t s.n) j,
        );
      };
      members = members;
    }
  where
    open_slot : ((s.n == 0) ≡ false) × (probe 5 s.v s.n t (home t s.n) ≡ free j)
    open_slot = ground arith

holds-replicate : (n u : ℕ) → u ≢ 0 → holds (replicate n 0) u ≡ false
holds-replicate zero u p = refl
holds-replicate (suc n) u p = ground (arith, holds-replicate n u p)

enlarge-Extends :
    (s fresh : Table)
    → enlarge s ≡ some fresh
    → IsValid fresh × ((u : ℕ) → u ≢ 0 → holds fresh.v u ≡ false)
unfolding enlarge
enlarge-Extends s fresh e =
    let zeros : fresh.v ≡ replicate fresh.n 0 = ground arith in
    let none_held : (u : ℕ) → u ≢ 0 → holds fresh.v u ≡ false =
      λ u p. rw zeros (holds-replicate fresh.n u p) in
    (
      record {
        sized = rw zeros (length-replicate fresh.n 0);
        placed = λ u p held. cc (held, none_held u p);
      },
      none_held,
    )

-- The condition on the `set_add` that `set_union` calls.
abbrev pub AddsOne : (Table → ℕ → Outcome (Table × Bool)) → Type 0
AddsOne add =
    (s : Table) (t : ℕ) (s' : Table) (b : Bool)
    → IsValid s
    → t ≢ 0
    → add s t ≡ ok (s', b)
    → Extends (λ u. t == u) s s' × (b ≡ not (holds s.v t))

-- What ran before a step that returned.
returns_before :
    (first : Outcome (Table × Bool)) (next : Table × Bool → Outcome (Table × Bool))
    (last : Table × Bool)
    → (first >>= next) ≡ ok last
    → (r : Table × Bool) × (first ≡ ok r) × (next r ≡ ok last)
returns_before (ok r) next last run = (r, refl, run)
returns_before exhausted next last run = absurd (cc run)
returns_before out_of_fuel next last run = absurd (cc run)

pub union_with-Extends :
    (add : Table → ℕ → Outcome (Table × Bool)) (s : Table) (ts : List ℕ) (c : Bool) (s' : Table)
    (b : Bool)
    → AddsOne add
    → IsValid s
    → union_with add s ts c ≡ ok (s', b)
    → Extends (holds ts) s s'
unfolding union_with
union_with-Extends add s [] c s' b adds h e =
    let same : s ≡ s' = cc in rw (← same) (record { valid = h; members = λ u p. refl })
union_with-Extends add s (t ∷ ts) c s' b adds h e = elim (Bool-cases (t == 0)) [
  | inl null ↦
      let rest = union_with-Extends add s ts c s' b adds h (rw (null, union_with) at e) in
      record { valid = rest.valid; members = λ u p. ground (arith, rest.members u p) }
  | inr real ↦
      let (r, first, later) = returns_before (add s t) _ (s', b) (rw (real, union_with) at e) in
      let one = adds s t r.0 r.1 h (ground arith) first in
      let rest = union_with-Extends add r.0 ts (r.1 || c) s' b adds one.0.valid later in
      record {
        valid = rest.valid;
        members = λ u p. ground (arith, rest.members u p, one.0.members u p);
      }
]

enlarge-cases :
    (fuel : ℕ) (s : Table) (t : ℕ) (r : Table × Bool)
    → lookup s t ≡ full
    → set_add_fuel (suc fuel) s t ≡ ok r
    → (fresh : Table) × (enlarge s ≡ some fresh)
      × ((union_with (set_add_fuel fuel) fresh s.v false >>= λ q. set_add_fuel fuel q.0 t) ≡ ok r)
unfolding set_add_fuel
enlarge-cases fuel s t r l e = elim (Option-cases (enlarge s)) [
  | inl last ↦ absurd (cc (rw (l, last, set_add_fuel) at e))
  | inr (fresh, q) ↦ (fresh, q, rw (l, q, set_add_fuel) at e)
]

-- Without regard to the fuel: if `set_add` returns, it has added exactly the pointer.
set_add_fuel-AddsOne : (fuel : ℕ) → AddsOne (set_add_fuel fuel)
unfolding set_add_fuel
set_add_fuel-AddsOne zero s t s' b h p e = absurd (cc)
set_add_fuel-AddsOne (suc fuel) s t s' b h p e = elim (Probe-cases (lookup s t)) [
  | inl (j, at) ↦
      let ext = place-Extends s t j h p at in
      let new : holds s.v t ≡ false = ground (arith, h.placed t p, Bool-cases (holds s.v t)) in
      let result : ◌≡◌ {A = Outcome (Table × Bool)} (ok (record s { v = set s.v j t }, true))
          (ok (s', b)) =
        rw (at, set_add_fuel) at e in
      let table : record s { v = set s.v j t } ≡ s' = cc in (rw (← table) ext, rw new (cc))
  | inr (inl at) ↦
      let result : ◌≡◌ {A = Outcome (Table × Bool)} (ok (s, false)) (ok (s', b)) =
        rw (at, set_add_fuel) at e in
      let table : s ≡ s' = cc in
      let old = holds_of_lookup s t p at in
      (rw (← table) (record { valid = h; members = λ u q. ground arith }), rw old (cc))
  | inr (inr at) ↦
      let (fresh, bigger, run) = enlarge-cases fuel s t (s', b) at e in
      let (clean, none_held) = enlarge-Extends s fresh bigger in
      let (r, moved, last) =
        returns_before (union_with (set_add_fuel fuel) fresh s.v false) _ (s', b) run in
      let copied =
        union_with-Extends (set_add_fuel fuel) fresh s.v false r.0 r.1 (set_add_fuel-AddsOne fuel)
          clean (ground arith) in
      let (added, flag) = set_add_fuel-AddsOne fuel r.0 t s' b copied.valid p last in
      (
        record {
          valid = added.valid;
          members = λ u q. ground (arith, added.members u q, copied.members u q, none_held u q);
        },
        ground (arith, flag, copied.members t p, none_held t p),
      )
]

-- Whenever `set_add` returns for a valid table and a pointer other than NULL, the table is valid,
-- `set_find` answers for each pointer as before, and yes for the one added, and the result says
-- whether that one was new.
pub set_add-Adds :
    (s : Table) (t u : ℕ) (s' : Table) (b : Bool)
    → IsValid s
    → t ≢ 0
    → u ≢ 0
    → set_add s t ≡ ok (s', b)
    → IsValid s' × (set_find s' u ≡ (t == u || set_find s u)) × (b ≡ not (set_find s t))
unfolding set_add
set_add-Adds s t u s' b h p q e =
    let (ext, flag) = set_add_fuel-AddsOne 30 s t s' b h p e in
    (
      ext.valid,
      rw (set_find-holds s' u ext.valid q, set_find-holds s u h q) (ext.members u q),
      rw (set_find-holds s t h p) flag,
    )
