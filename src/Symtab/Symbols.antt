-- ===== src/Symtab/Symbols.antt =====
-- dsymtab.c (`new_D_Sym`, `current_D_Sym`, the `find` functions, `next_D_Sym_in_Scope`,
-- `update_additional_D_Sym`, `update_D_Sym`, `commit_D_Scope`): symbols and their versions.
-- Loops along the links of scopes run on fuel; the outer `none` is a pointer out of the store or the
-- end of the fuel, the inner one is NULL.
use dparser.Prelude.{
  ℕ, zero, suc, ◌%◌, Bool, ◌&&◌, List, [], ◌∷◌, ◌++◌, Option, none, some, ◌==◌, if◌then◌else◌,
  length, get_or,
}
use dparser.Libc.Text.{same_string}
use dparser.Symtab.{Store, Scope, scope_at, set_scope, sym_at, hash_in, strhashl, symhash_add}
use dparser.Symtab.Scopes.{enter_scope, global_of, same_scope}

-- The store and the new symbol, for a scope that is in the store or NULL.
unfoldable pub new_sym : Store → Option ℕ → List ℕ → Option (Store × ℕ)
new_sym m st name =
    let s = length m.syms in
    let m' = record m {
      syms =
          m.syms ++ record { name = name; hash = strhashl name; scope = st; update_of = none } ∷ [];
    } in
    elim st [
      | none ↦ some (m', s)
      | some i ↦ elim (scope_at m i) [
        | none ↦ none
        | some c ↦ elim c.hash [
          | some sh ↦
              some (set_scope m' i (record c { hash = some (symhash_add (hash_in m') sh s) }), s)
          | none ↦ some (set_scope m' i (record c { ll = s ∷ c.ll }), s)
        ]
      ]
    ]

abbrev pub base_of : Store → ℕ → ℕ
base_of m s = elim (sym_at m s).update_of [ none ↦ s | some u ↦ u ]

-- The first update of the symbol in a list of updates.
unfoldable pub update_in : Store → ℕ → List ℕ → Option ℕ
update_in m s [] = none
update_in m s (u ∷ updates) =
    if same_scope (sym_at m u).update_of (some s) then some u else update_in m s updates

unfoldable pub current_from : ℕ → Store → Option ℕ → ℕ → Option ℕ
current_from fuel m none s = some s
current_from zero m (some i) s = none
current_from (suc fuel) m (some i) s = elim (scope_at m i) [
  | none ↦ none
  | some c ↦ elim (update_in m s c.updates) [
    | some u ↦ some u
    | none ↦ current_from fuel m c.up_updates s
  ]
]

unfoldable pub current_sym : Store → Option ℕ → ℕ → Option ℕ
current_sym m st s = current_from (length m.scopes) m st (base_of m s)

-- The test of the loops over a list of symbols.
unfoldable pub matches : Store → List ℕ → ℕ → Bool
matches m name s = (sym_at m s).hash == strhashl name && same_string (sym_at m s).name name

unfoldable pub find_in_list : Store → List ℕ → List ℕ → Option ℕ
find_in_list m name [] = none
find_in_list m name (s ∷ ll) = if matches m name s then some s else find_in_list m name ll

-- The list of a scope in which a name is looked up.
unfoldable pub list_for : Scope → List ℕ → List ℕ
list_for c name = elim c.hash [
  | none ↦ c.ll
  | some sh ↦ get_or sh.syms (strhashl name % length sh.syms) []
]

unfoldable pub find_in_scope : ℕ → Store → ℕ → List ℕ → Option (Option ℕ)
find_in_scope zero m st name = none
find_in_scope (suc fuel) m st name = elim (scope_at m st) [
  | none ↦ none
  | some c ↦
      let further : Option (Option ℕ) = elim c.search [
        | none ↦ some none
        | some n ↦ elim (scope_at m n) [
          | none ↦ none
          | some next ↦ if same_scope next.up c.up then find_in_scope fuel m n name else some none
        ]
      ] in
      elim (find_in_list m name (list_for c name)) [
        | some s ↦ some (some s)
        | none ↦ elim c.dynamic [
          | none ↦ further
          | some d ↦ elim (find_in_scope fuel m d name) [
            | none ↦ none
            | some (some s) ↦ some (some s)
            | some none ↦ further
          ]
        ]
      ]
]

unfoldable pub find_from : ℕ → Store → ℕ → List ℕ → Option (Option ℕ)
find_from zero m cur name = none
find_from (suc fuel) m cur name = elim (scope_at m cur) [
  | none ↦ none
  | some c ↦
      let further : Option (Option ℕ) = elim c.search [
        | none ↦ some none
        | some n ↦ find_from fuel m n name
      ] in
      elim (find_in_list m name (list_for c name)) [
        | some s ↦ some (some s)
        | none ↦ elim c.dynamic [
          | none ↦ further
          | some d ↦ elim (find_in_scope (length m.scopes) m d name) [
            | none ↦ none
            | some (some s) ↦ some (some s)
            | some none ↦ further
          ]
        ]
      ]
]

-- The current version of what a search found.
abbrev pub current_of : Store → ℕ → Option (Option ℕ) → Option (Option ℕ)
current_of m st none = none
current_of m st (some none) = some none
current_of m st (some (some s)) = elim (current_sym m (some st) s) [
  | none ↦ none
  | some u ↦ some (some u)
]

unfoldable pub find_sym : Store → ℕ → List ℕ → Option (Option ℕ)
find_sym m st name = current_of m st (find_from (length m.scopes) m st name)

unfoldable pub find_global_sym : Store → ℕ → List ℕ → Option (Option ℕ)
find_global_sym m st name = elim (global_of (length m.scopes) m st) [
  | none ↦ none
  | some g ↦ current_of m st (find_from (length m.scopes) m g name)
]

unfoldable pub find_sym_in_scope : Store → ℕ → ℕ → List ℕ → Option (Option ℕ)
find_sym_in_scope m st cur name = current_of m st (find_in_scope (length m.scopes) m cur name)

-- The store and the new version, in scope `st`, of a symbol that is not NULL.
unfoldable pub update_additional : Store → ℕ → ℕ → Option (Store × ℕ)
update_additional m st s = elim (current_sym m (some st) s) [
  | none ↦ none
  | some v ↦ elim (scope_at m st) [
    | none ↦ none
    | some c ↦
        let u = length m.syms in
        let m' = record m {
          syms = m.syms ++ record (sym_at m v) { update_of = some (base_of m v) } ∷ [];
        } in
        some (set_scope m' st (record c { updates = u ∷ c.updates }), u)
  ]
]

-- The store, the new version and the new scope.
unfoldable pub update_sym : Store → ℕ → ℕ → Option (Store × (ℕ × ℕ))
update_sym m s pst = elim (enter_scope m pst pst) [
  | none ↦ none
  | some (m', st) ↦ elim (update_additional m' st s) [
    | none ↦ none
    | some (m'', u) ↦ some (m'', (u, st))
  ]
]
