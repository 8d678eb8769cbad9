-- ===== src/Tests/Symbols.antt =====
-- A symbol table with one symbol, its updates and a commit.
use dparser.Prelude.{
  has, nat_eq, sym, ap, ◌%◌, ℕ, zero, suc, ◌<◌, ◌≡◌, refl, true, ◌||◌, [], ◌∷◌, some, none, ◌==◌,
  arith, length, get_or,
}
use dparser.Symtab.{Store, Scope, Sym, SymHash, sym_at, symhash_add, blank, push, drain, scope_at}
use dparser.Symtab.Symbols.{base_of, update_sym, find_from, new_sym}
use dparser.Symtab.Buckets.{
  IsHashed, in_table, reversed_for, symhash_add-IsHashed, symhash_add_reverses,
}
use dparser.Symtab.Versions.{IsValid, all_below}
use dparser.Symtab.Versions.Update.{Versioned, update_sym-Versioned}
use dparser.Symtab.Lookup.{find_from-new_sym}

-- Two buckets, of which the second one holds the symbols 5 and 3; the hash of a symbol is its number.
abbrev table : SymHash
table = record { index = 2; grow = 5; syms = [] ∷ (5 ∷ 3 ∷ []) ∷ [] }

abbrev same_number : ℕ → ℕ
same_number n = n

table-IsHashed : IsHashed same_number table
table-IsHashed = record { room = omega arith; grows = omega arith; placed = place }
  where
    place : (j y : ℕ) → has (get_or ([] ∷ (5 ∷ 3 ∷ []) ∷ []) j []) y ≡ true → (j == y % 2) ≡ true
    place zero y held = absurd (cc held)
    place (suc zero) y held = ground (arith, held)
    place (suc (suc j)) y held = absurd (cc held)

symhash_add-IsHashed_example :
    IsHashed same_number (symhash_add same_number table 7)
    × (in_table same_number (symhash_add same_number table 7) 3
        ≡ (7 == 3 || in_table same_number table 3))
symhash_add-IsHashed_example = symhash_add-IsHashed same_number table 7 3 table-IsHashed

abbrev full_table : SymHash
full_table = record table { index = 5 }

symhash_add_reverses_example :
    get_or (symhash_add same_number full_table 7).syms 3 []
    ≡ reversed_for same_number 5 3 (drain (push full_table.syms 1 7))
symhash_add_reverses_example =
    symhash_add_reverses same_number full_table 7 3 (omega arith) (omega arith)

-- The outermost scope with the symbol "x", without its table.
abbrev x : Sym
x = record { name = 120 ∷ []; hash = 120; scope = some 0; update_of = none }

abbrev store : Store
store = record { scopes = record blank { ll = 0 ∷ [] } ∷ []; syms = x ∷ [] }

store-IsValid : IsValid store
store-IsValid = record { before = before; updates = updates; rooted = rooted }
  where
    before : (i j : ℕ) (c : Scope) → scope_at store i ≡ some c → c.up_updates ≡ some j → j < i
    before zero j c at next = ground (arith, at, next)
    before (suc i) j c at next = absurd (cc at)

    updates : (i : ℕ) (c : Scope) → scope_at store i ≡ some c → all_below 1 c.updates ≡ true
    updates zero c at =
        let this : record blank { ll = 0 ∷ [] } ≡ c = cc at in
        ap (λ (d : Scope). all_below 1 d.updates) (sym this)
    updates (suc i) c at = absurd (cc at)

    rooted :
        (s : ℕ)
        → s < 1
        → (base_of store s < 1) × ((sym_at store (base_of store s)).update_of ≡ none)
    rooted zero below = (omega arith, refl)
    rooted (suc s) below = absurd (omega arith)

update_sym-Versioned_example :
    (r : Store × (ℕ × ℕ)) × (update_sym store 0 0 ≡ some r) × Versioned store 0 r.0 r.1.0 r.1.1
update_sym-Versioned_example =
    update_sym-Versioned store 0 0 store-IsValid (omega arith) (omega arith)

find_from-new_sym_example :
    (m' : Store) × (new_sym store (some 0) (120 ∷ []) ≡ some (m', 1))
    × (find_from (length m'.scopes) m' 0 (120 ∷ []) ≡ some (some 1))
find_from-new_sym_example =
    find_from-new_sym store 0 (120 ∷ []) (record blank { ll = 0 ∷ [] }) refl (λ sh e. absurd (cc e))
