-- ===== src/Symtab/Lookup.antt =====
-- What a search finds after a symbol was added, and what it does not find after a commit.
use dparser.Prelude.{
  ℕ, zero, suc, ◌+◌, ◌%◌, ◌<◌, ◌≡◌, refl, ap, true, false, List, [], ◌∷◌, ◌++◌, Option, none, some,
  arith, ltb, ==_iff, length, set, get_or, get_elem?-set_self, length-set,
}
use dparser.Libc.Text.{same_text, same_string}
use dparser.Symtab.{
  Store, Scope, Sym, SymHash, scope_at, set_scope, hash_in, strhashl, push, symhash_add,
}
use dparser.Symtab.Symbols.{new_sym, matches, find_in_list, list_for, find_from}
use dparser.Symtab.Links.{get_or-last, get_elem?-within}

same_text_refl : (s : List ℕ) → same_text s s ≡ true
unfolding same_text
same_text_refl [] = refl
same_text_refl (a ∷ s) = ground (arith, same_text_refl s, ==_iff a a)

same_string_refl : (s : List ℕ) → same_string s s ≡ true
unfolding same_string
same_string_refl s = ground (arith, same_text_refl s, ==_iff (length s) (length s))

get_or-set_self :
    (v : List (List ℕ)) (i : ℕ) (b : List ℕ) → i < length v → get_or (set v i b) i [] ≡ b
get_or-set_self [] i b h = absurd (omega arith)
get_or-set_self (x ∷ v) zero b h = refl
get_or-set_self (x ∷ v) (suc i) b h = get_or-set_self v i b (omega arith)

-- A search that begins at a scope in whose list the symbol comes first.
find_first :
    (f : ℕ) (m : Store) (st s : ℕ) (name ll : List ℕ) (c : Scope)
    → 0 < f
    → scope_at m st ≡ some c
    → list_for c name ≡ s ∷ ll
    → matches m name s ≡ true
    → find_from f m st name ≡ some (some s)
unfolding find_from find_in_list
find_first zero m st s name ll c p at first hit = absurd (omega arith)
find_first (suc f) m st s name ll c p at first hit =
    let found : find_in_list m name (list_for c name) ≡ some s =
      rw (first, find_in_list) (rw hit refl) in
    rw (at, found, find_from) refl

-- The symbol that is made has the name.
module _ (m : Store) (st : ℕ) (name : List ℕ) where
  abbrev new : Sym
  new = record { name = name; hash = strhashl name; scope = some st; update_of = none }

  abbrev extended : Store
  extended = record m { syms = m.syms ++ new ∷ [] }

  matches_new : (i : ℕ) (d : Scope) → matches (set_scope extended i d) name (length m.syms) ≡ true
  unfolding matches
  matches_new i d =
      rw (get_or-last m.syms new)
        (ground (arith, same_string_refl name, ==_iff (strhashl name) (strhashl name)))

  -- The scope `c` with the symbol, by the table that it has.
  abbrev placed : Scope → Option SymHash → Scope
  placed c none = record c { ll = length m.syms ∷ c.ll }
  placed c (some sh) = record c { hash = some (symhash_add (hash_in extended) sh (length m.syms)) }

  new_sym-placed :
      (c : Scope)
      → scope_at m st ≡ some c
      → new_sym m (some st) name ≡ some (set_scope extended st (placed c c.hash), length m.syms)
  unfolding new_sym
  new_sym-placed c at = rw (at, new_sym) (by_table c c.hash)
    where
      by_table :
          (c : Scope) (h : Option SymHash)
          → ◌≡◌ {A = Option (Store × ℕ)}
              (elim h [
                | some sh ↦ some (
                  set_scope extended st (record c {
                    hash = some (symhash_add (hash_in extended) sh (length m.syms));
                  }),
                  length m.syms,
                )
                | none ↦
                    some (
                      set_scope extended st (record c { ll = length m.syms ∷ c.ll }),
                      length m.syms,
                    )
              ])
              (some (set_scope extended st (placed c h), length m.syms))
      by_table c none = refl
      by_table c (some sh) = refl

-- A table that does not grow by the symbol.
list_of_table :
    (hash_of : ℕ → ℕ) (sh : SymHash) (s h : ℕ)
    → 0 < length sh.syms
    → sh.index < sh.grow
    → hash_of s ≡ h
    → get_or (symhash_add hash_of sh s).syms (h % length (symhash_add hash_of sh s).syms) []
      ≡ s ∷ get_or sh.syms (h % length sh.syms) []
unfolding symhash_add push
list_of_table hash_of sh s h size stays hash =
    let no_growth : ltb sh.grow (sh.index + 1) ≡ false = ground arith in
    let k = hash_of s % length sh.syms in
    let b = s ∷ get_or sh.syms k [] in
    rw (no_growth, ← hash, length-set sh.syms k b) (get_or-set_self sh.syms k b (omega arith))

-- After `new_D_Sym` for a scope of the store, whose table, if it has one, does not grow by it, a search
-- from that scope for the name finds the new symbol, whatever symbols of that name there are.
pub find_from-new_sym :
    (m : Store) (st : ℕ) (name : List ℕ) (c : Scope)
    → scope_at m st ≡ some c
    → ((sh : SymHash) → c.hash ≡ some sh → (0 < length sh.syms) × (sh.index < sh.grow))
    → (m' : Store) × (new_sym m (some st) name ≡ some (m', length m.syms))
      × (find_from (length m'.scopes) m' st name ≡ some (some (length m.syms)))
unfolding list_for
find_from-new_sym m st name c at room =
    let d = placed m st name c c.hash in
    let inside = get_elem?-within m.scopes c st at in
    let (rest, first) = first_of_list c.hash room in
    (
      set_scope (extended m st name) st d,
      new_sym-placed m st name c at,
      find_first (length (set m.scopes st d)) (set_scope (extended m st name) st d) st
          (length m.syms) name rest d (omega (arith, length-set m.scopes st d, inside))
          (get_elem?-set_self m.scopes st d inside) first (matches_new m st name st d),
    )
  where
    first_of_list :
        (h : Option SymHash)
        → ((sh : SymHash) → h ≡ some sh → (0 < length sh.syms) × (sh.index < sh.grow))
        → (rest : List ℕ) × (list_for (placed m st name (record c { hash = h }) h) name
            ≡ length m.syms ∷ rest)
    first_of_list none room = (c.ll, refl)
    first_of_list (some sh) room =
        let (size, stays) = room sh refl in
        (
          _,
          list_of_table (hash_in (extended m st name)) sh (length m.syms) (strhashl name) size stays
              (ap (λ (y : Sym). y.hash) (get_or-last m.syms (new m st name))),
        )
