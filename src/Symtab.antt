-- ===== src/Symtab.antt =====
-- dsymtab.c: symbols in scopes, with versions of a symbol along each speculative parse.
-- The store holds the scopes and the symbols that were allocated, and a pointer is a position in it.
-- The list that a `next` field makes (`ll`, `updates`, a bucket) is a list of symbols. Names are bytes
-- without the pointer to the end; the field `user` and the freeing of memory are left out.
pub mod Scopes
pub mod Symbols
pub mod Commit
pub mod Buckets
pub mod Links
pub mod Versions
pub mod Lookup
use Prim.Native.Nat.{bit_xor}
use dparser.Prelude.{
  ℕ, zero, suc, ◌+◌, ◌-◌, ◌*◌, ◌/◌, ◌%◌, ◌^◌, ◌<◌, Bool, true, false, not, ◌&&◌, ◌||◌, List, [],
  ◌∷◌, ◌++◌, Option, none, some, ltb, leb, ◌==◌, if◌then◌else◌, length, set, get_elem?, get_or,
  replicate,
}
use dparser.Libc.Text.{same_string}

-- util.c: `char` is signed, and `uint` has 32 bits.
unfoldable pub hash_step : ℕ → ℕ → ℕ
hash_step h c =
    let h' = (h * 16 + (if ltb c 128 then c else c + (2 ^ 32 - 256))) % 2 ^ 32 in
    let g = h' / 2 ^ 28 * 2 ^ 28 in if g == 0 then h' else bit_xor (bit_xor h' (g / 2 ^ 24)) g

unfoldable pub strhashl_from : ℕ → List ℕ → ℕ
strhashl_from h [] = h
strhashl_from h (c ∷ s) = strhashl_from (hash_step h c) s

unfoldable pub strhashl : List ℕ → ℕ
strhashl s = strhashl_from 0 s

pub record Sym : Type 0 where
  pub name : List ℕ
  pub hash : ℕ
  pub scope : Option ℕ
  pub update_of : Option ℕ

pub record SymHash : Type 0 where
  pub index : ℕ
  pub grow : ℕ
  pub syms : List (List ℕ)

-- The pool, which lists the scopes of a tree, is NULL for all but the outermost scope.
pub record Scope : Type 0 where
  pub kind : ℕ
  pub owned_by_user : Bool
  pub depth : ℕ
  pub ll : List ℕ
  pub hash : Option SymHash
  pub updates : List ℕ
  pub search : Option ℕ
  pub dynamic : Option ℕ
  pub up : Option ℕ
  pub up_updates : Option ℕ
  pub down : Option ℕ
  pub down_next : Option ℕ
  pub pool : Option (List ℕ)

pub record Store : Type 0 where
  pub scopes : List Scope
  pub syms : List Sym

abbrev pub scope_at : Store → ℕ → Option Scope
scope_at m i = get_elem? m.scopes i

abbrev pub no_sym : Sym
no_sym = record { name = []; hash = 0; scope = none; update_of = none }

abbrev pub sym_at : Store → ℕ → Sym
sym_at m i = get_or m.syms i no_sym

abbrev pub set_scope : Store → ℕ → Scope → Store
set_scope m i c = record m { scopes = set m.scopes i c }

-- After `memset`
abbrev pub blank : Scope
blank = record {
  kind = 0;
  owned_by_user = false;
  depth = 0;
  ll = [];
  hash = none;
  updates = [];
  search = none;
  dynamic = none;
  up = none;
  up_updates = none;
  down = none;
  down_next = none;
  pool = none;
}

-- INITIAL_SYMHASH_SIZE
abbrev pub initial_symhash_size : ℕ
initial_symhash_size = 3137

unfoldable pub new_symhash : SymHash
new_symhash = record {
  index = 0;
  grow = initial_symhash_size * 2 + 1;
  syms = replicate initial_symhash_size [];
}

-- `x->next = v[h]; v[h] = x;`
unfoldable pub push : List (List ℕ) → ℕ → ℕ → List (List ℕ)
push buckets h x = set buckets h (x ∷ get_or buckets h [])

-- The symbols of all buckets, in the order in which `tv` gets them.
unfoldable pub drain : List (List ℕ) → List ℕ
drain [] = []
drain (b ∷ buckets) = b ++ drain buckets

unfoldable pub push_all : (ℕ → ℕ) → List (List ℕ) → List ℕ → List (List ℕ)
push_all hash_of buckets [] = buckets
push_all hash_of buckets (x ∷ xs) =
    push_all hash_of (push buckets (hash_of x % length buckets) x) xs

unfoldable pub symhash_add : (ℕ → ℕ) → SymHash → ℕ → SymHash
symhash_add hash_of sh s =
    let v = push sh.syms (hash_of s % length sh.syms) s in
    if ltb sh.grow (sh.index + 1)
    then record {
      index = sh.index + 1;
      grow = sh.grow * 2 + 1;
      syms = push_all hash_of (replicate sh.grow []) (drain v);
    }
    else record sh { index = sh.index + 1; syms = v }

abbrev pub hash_in : Store → ℕ → ℕ
hash_in m s = (sym_at m s).hash
