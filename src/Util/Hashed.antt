-- ===== src/Util/Hashed.antt =====
-- util.c (`set_add_fn`, `set_union_fn`, `hash_fns_t` of util.h): a set by a hash function and a comparison, in
-- a table of prime size with at most five probes, as in Util/Set.
-- A pointer is what it points to, which does not change while it is in the table, and an empty slot is `none`.
-- A growth behind the last prime is `exhausted`. The recursion takes fuel, one for each prime and one more.
pub mod Probing
pub mod Laws
pub mod Adding
pub mod Same
use dparser.Prelude.{
  ℕ, zero, suc, ◌+◌, ◌%◌, ◌^◌, Bool, List, [], ◌∷◌, Option, none, some, ltb, ◌==◌, if◌then◌else◌,
  set, get_or, get_elem?, replicate,
}
use dparser.Util.Set.{
  Outcome, ok, exhausted, out_of_fuel, ◌>>=◌, d_prime2, set_max_sequential, initial_set_size_index,
}

-- `hash_fns_t`; `same` is where `cmp_fn` answers 0.
pub record HashFns (A : Type 0) : Type 0 where
  pub hash_fn : A → ℕ
  pub same : A → A → Bool

pub record FnTable (A : Type 0) : Type 0 where
  pub n : ℕ
  pub i : ℕ
  pub v : List (Option A)

abbrev pub cleared : {A : Type 0} → FnTable A
cleared = record { n = 0; i = 0; v = [] }

-- How the probing loop ends: at a free slot, at an equal element, or after five slots.
pub data FnProbe (A : Type 0) : Type 0 where
  free : ℕ → FnProbe A
  found : A → FnProbe A
  full : FnProbe A

module _ {A : Type 0} (fns : HashFns A) where
  -- What the loop does at a slot; `rest` is the rest of the loop.
  unfoldable pub at_slot : Option A → A → ℕ → FnProbe A → FnProbe A
  at_slot none t i rest = free i
  at_slot (some y) t i rest = if fns.same y t then found y else rest

  -- The loop from slot `i`, with `rounds` of its rounds left.
  unfoldable pub probe_fn : ℕ → List (Option A) → ℕ → A → ℕ → FnProbe A
  probe_fn zero v n t i = full
  probe_fn (suc rounds) v n t i =
      let rest = probe_fn rounds v n t ((i + 1) % n) in
      if ltb i n then at_slot (get_or v i none) t i rest else full

  unfoldable pub lookup_fn : FnTable A → A → FnProbe A
  lookup_fn s t =
      if s.n == 0
      then full
      else probe_fn set_max_sequential s.v s.n t (fns.hash_fn t % 2 ^ 32 % s.n)

-- A fresh table of the next size.
unfoldable pub enlarge_fn : {A : Type 0} → FnTable A → Option (FnTable A)
enlarge_fn s =
    let i = if s.n == 0 then initial_set_size_index else s.i + 1 in
    elim (get_elem? d_prime2 i) [
      | none ↦ none
      | some n ↦ some (record { n = n; i = i; v = replicate n none })
    ]

-- The loop of `set_union_fn` over the slots of the other table, with the `set_add_fn` that it calls.
unfoldable pub set_union_fn :
    {A : Type 0}
    → (FnTable A → A → Outcome (FnTable A × A))
    → FnTable A
    → List (Option A)
    → Outcome (FnTable A)
set_union_fn add s [] = ok s
set_union_fn add s (none ∷ ts) = set_union_fn add s ts
set_union_fn add s (some t ∷ ts) = add s t >>= λ r. set_union_fn add r.0 ts

module _ {A : Type 0} (fns : HashFns A) where
  unfoldable pub set_add_fn_fuel : ℕ → FnTable A → A → Outcome (FnTable A × A)
  set_add_fn_fuel zero s t = out_of_fuel
  set_add_fn_fuel (suc fuel) s t = elim (lookup_fn fns s t) [
    | free j ↦ ok (record s { v = set s.v j (some t) }, t)
    | found y ↦ ok (s, y)
    | full ↦ elim (enlarge_fn s) [
      | none ↦ exhausted
      | some fresh ↦
          set_union_fn (set_add_fn_fuel fuel) fresh s.v >>= λ s'. set_add_fn_fuel fuel s' t
    ]
  ]

  unfoldable pub set_add_fn : FnTable A → A → Outcome (FnTable A × A)
  set_add_fn s t = set_add_fn_fuel 30 s t
