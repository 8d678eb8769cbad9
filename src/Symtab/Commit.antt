-- ===== src/Symtab/Commit.antt =====
-- dsymtab.c (`commit_ll`, `commit_update`, `commit_D_Scope`, `next_D_Sym_in_Scope`): the end of a
-- speculation, and the walk over the symbols of a scope.
use dparser.Prelude.{
  ℕ, zero, suc, ◌+◌, ◌%◌, List, [], ◌∷◌, Option, none, some, ◌==◌, if◌then◌else◌, length, set,
  get_or,
}
use dparser.Symtab.{Store, Scope, SymHash, scope_at, set_scope, sym_at, hash_in, symhash_add, drain}
use dparser.Symtab.Scopes.{same_scope}
use dparser.Symtab.Symbols.{current_sym}

unfoldable pub symhash_add_all : (ℕ → ℕ) → SymHash → List ℕ → SymHash
symhash_add_all hash_of sh [] = sh
symhash_add_all hash_of sh (s ∷ ll) = symhash_add_all hash_of (symhash_add hash_of sh s) ll

-- The list of scope `st` moves to the table of scope `top`.
unfoldable pub move_ll : Store → ℕ → ℕ → Option Store
move_ll m st top = elim (scope_at m st) [
  | none ↦ none
  | some c ↦ elim (scope_at m top) [
    | none ↦ none
    | some t ↦ elim t.hash [
      | none ↦ none
      | some sh ↦ some (
          set_scope
            (set_scope m top (record t { hash = some (symhash_add_all (hash_in m) sh c.ll) })) st
            (record c { ll = [] }))
    ]
  ]
]

unfoldable pub commit_ll : ℕ → Store → ℕ → ℕ → Option Store
commit_ll zero m st top = none
commit_ll (suc fuel) m st top = elim (scope_at m st) [
  | none ↦ none
  | some c ↦ elim c.search [
    | none ↦ some m
    | some n ↦ elim (commit_ll fuel m n top) [ none ↦ none | some m' ↦ move_ll m' st top ]
  ]
]

-- The loop over the symbols of the table.
unfoldable pub commit_update : Store → ℕ → List ℕ → Option Store
commit_update m st [] = some m
commit_update m st (s ∷ syms) = elim (current_sym m (some st) s) [
  | none ↦ none
  | some u ↦
      commit_update (record m { syms = set m.syms s (record (sym_at m s) { update_of = some u }) })
        st syms
]

-- `while (x->search) x = x->search;`
unfoldable pub outermost : ℕ → Store → ℕ → Option ℕ
outermost zero m x = none
outermost (suc fuel) m x = elim (scope_at m x) [
  | none ↦ none
  | some c ↦ elim c.search [ none ↦ some x | some n ↦ outermost fuel m n ]
]

abbrev pub table_of : Store → ℕ → List ℕ
table_of m x = elim (scope_at m x) [
  | none ↦ []
  | some c ↦ elim c.hash [ none ↦ [] | some sh ↦ drain sh.syms ]
]

-- The store and the scope that is returned.
unfoldable pub commit_scope : Store → ℕ → Option (Store × ℕ)
commit_scope m st = elim (scope_at m st) [
  | none ↦ none
  | some c ↦ elim c.up [
    | some _ ↦ some (m, st)
    | none ↦ elim (outermost (length m.scopes) m st) [
      | none ↦ none
      | some x ↦ elim (commit_ll (length m.scopes) m st x) [
        | none ↦ none
        | some m' ↦ elim (commit_update m' st (table_of m' x)) [
          | none ↦ none
          | some m'' ↦ some (m'', x)
        ]
      ]
    ]
  ]
]

-- `sym->next`, in the list that holds the symbol.
unfoldable pub behind : ℕ → List ℕ → Option ℕ
behind s [] = none
behind s (x ∷ ll) = if x == s then (elim ll [ [] ↦ none | y ∷ _ ↦ some y ]) else behind s ll

abbrev pub first_of : List ℕ → Option ℕ
first_of [] = none
first_of (x ∷ _) = some x

-- The symbol after `last` in its list, where `last` is in scope `c`.
unfoldable pub next_in_list : Store → Scope → ℕ → Option ℕ
next_in_list m c last = elim c.hash [
  | none ↦ behind last c.ll
  | some sh ↦ behind last (get_or sh.syms (hash_in m last % length sh.syms) [])
]

-- Where the loop over the scopes looks in scope `c`: `last` is the symbol of the last call in the
-- first round, if it was not NULL.
unfoldable pub next_list : Store → Scope → Option ℕ → List ℕ
next_list m c last = elim c.hash [
  | none ↦ elim last [ none ↦ c.ll | some _ ↦ [] ]
  | some sh ↦ elim last [
    | none ↦ get_or sh.syms 0 []
    | some s ↦
        (let i = (hash_in m s + 1) % length sh.syms in if i == 0 then [] else get_or sh.syms i [])
  ]
]

-- The next symbol, NULL at the end, and the scope.
unfoldable pub next_loop : ℕ → Store → ℕ → Option ℕ → Option (Option ℕ × ℕ)
next_loop zero m st last = none
next_loop (suc fuel) m st last = elim (scope_at m st) [
  | none ↦ none
  | some c ↦ elim (first_of (next_list m c last)) [
    | some s ↦ some (some s, st)
    | none ↦ elim c.search [
      | none ↦ some (none, st)
      | some n ↦ elim (scope_at m n) [
        | none ↦ none
        | some next ↦ if same_scope next.up c.up then next_loop fuel m n none else some (none, st)
      ]
    ]
  ]
]

unfoldable pub next_sym_in_scope : Store → ℕ → Option ℕ → Option (Option ℕ × ℕ)
next_sym_in_scope m scope sym =
    let walk = next_loop (length m.scopes) m scope sym in
    elim sym [
      | none ↦ walk
      | some s ↦ elim (scope_at m scope) [
        | none ↦ none
        | some c ↦ elim (next_in_list m c s) [ some n ↦ some (some n, scope) | none ↦ walk ]
      ]
    ]
