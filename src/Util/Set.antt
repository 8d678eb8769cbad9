-- ===== src/Util/Set.antt =====
-- util.c (`set_find`, `set_add`, `set_union`, the table `d_prime2`): a set of
-- pointers, in a table of prime size with at most five probes.
-- A pointer is its address, and 0 is NULL. A table that has reached the last prime and has to grow
-- reads behind the end of `d_prime2`: the outcome `exhausted`. The recursion of `set_add` through
-- `set_union` takes fuel; `out_of_fuel` never happens, since each level takes a larger prime.
pub mod Probing
pub mod Adding
pub mod Total
use dparser.Prelude.{
  ℕ, zero, suc, ◌+◌, ◌%◌, ◌^◌, Bool, true, false, ◌||◌, List, [], ◌∷◌, Option, none, some, ltb,
  ◌==◌, if◌then◌else◌, length, set, get_or, get_elem?, replicate,
}

-- The prime numbers next to the powers of 2.
unfoldable pub d_prime2 : List ℕ
d_prime2 =
    1 ∷ 3 ∷ 7 ∷ 13 ∷ 31 ∷ 61 ∷ 127 ∷ 251 ∷ 509 ∷ 1021 ∷ 2039 ∷ 4093 ∷ 8191 ∷ 16381 ∷ 32749 ∷ 65521
    ∷ 131071 ∷ 262139 ∷ 524287 ∷ 1048573 ∷ 2097143 ∷ 4194301 ∷ 8388593 ∷ 16777213 ∷ 33554393
    ∷ 67108859 ∷ 134217689 ∷ 268435399 ∷ 536870909 ∷ []

-- The fields `n`, `i` and `v` of an AbstractVec that is used as a set.
pub record Table : Type 0 where
  pub n : ℕ
  pub i : ℕ
  pub v : List ℕ

pub data Outcome {ℓ} (A : Type ℓ) : Type ℓ where
  ok : A → Outcome A
  exhausted : Outcome A
  out_of_fuel : Outcome A

infixl 5 ◌>>=◌
abbrev pub ◌>>=◌ {ℓ κ} : {A : Type ℓ} {B : Type κ} → Outcome A → (A → Outcome B) → Outcome B
ok a >>= f = f a
exhausted >>= f = exhausted
out_of_fuel >>= f = out_of_fuel

-- How the probing loop ends: at a free slot, at the pointer itself, or after five slots.
pub data Probe : Type 0 where
  free : ℕ → Probe
  found : Probe
  full : Probe

-- SET_MAX_SEQUENTIAL and INITIAL_SET_SIZE_INDEX
abbrev pub set_max_sequential : ℕ
set_max_sequential = 5

abbrev pub initial_set_size_index : ℕ
initial_set_size_index = 2

-- The loop from slot `i`, with `rounds` of its rounds left.
unfoldable pub probe : ℕ → List ℕ → ℕ → ℕ → ℕ → Probe
probe zero v n t i = full
probe (suc rounds) v n t i =
    let rest = probe rounds v n t ((i + 1) % n) in
    if ltb i n
    then (if get_or v i 0 == 0 then free i else if get_or v i 0 == t then found else rest)
    else full

-- `uint h = (uintptr_t)t; h = h % n;`
unfoldable pub home : ℕ → ℕ → ℕ
home t n = t % 2 ^ 32 % n

unfoldable pub lookup : Table → ℕ → Probe
lookup s t = if s.n == 0 then full else probe set_max_sequential s.v s.n t (home t s.n)

unfoldable pub set_find : Table → ℕ → Bool
set_find s t = elim (lookup s t) [ free _ ↦ false | found ↦ true | full ↦ false ]

-- A fresh table of the next size.
unfoldable pub enlarge : Table → Option Table
enlarge s =
    let i = if s.n == 0 then initial_set_size_index else s.i + 1 in
    elim (get_elem? d_prime2 i) [
      | none ↦ none
      | some n ↦ some (record { n = n; i = i; v = replicate n 0 })
    ]

-- The loop of `set_union` over the slots of the other table, with the `set_add` that it calls.
unfoldable pub union_with :
    (Table → ℕ → Outcome (Table × Bool)) → Table → List ℕ → Bool → Outcome (Table × Bool)
union_with add s [] changed = ok (s, changed)
union_with add s (t ∷ ts) changed =
    if t == 0
    then union_with add s ts changed
    else add s t >>= λ r. union_with add r.0 ts (r.1 || changed)

unfoldable pub set_add_fuel : ℕ → Table → ℕ → Outcome (Table × Bool)
set_add_fuel zero s t = out_of_fuel
set_add_fuel (suc fuel) s t = elim (lookup s t) [
  | free j ↦ ok (record s { v = set s.v j t }, true)
  | found ↦ ok (s, false)
  | full ↦ elim (enlarge s) [
    | none ↦ exhausted
    | some fresh ↦ union_with (set_add_fuel fuel) fresh s.v false >>= λ r. set_add_fuel fuel r.0 t
  ]
]

-- The number of primes bounds the depth of the recursion.
unfoldable pub set_add : Table → ℕ → Outcome (Table × Bool)
set_add s t = set_add_fuel 30 s t

unfoldable pub set_union : Table → Table → Outcome (Table × Bool)
set_union s other = union_with set_add s other.v false

-- `memset` to 0.
abbrev pub empty : Table
empty = record { n = 0; i = 0; v = [] }
