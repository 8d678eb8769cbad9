-- ===== src/Symtab/Scopes.antt =====
-- dsymtab.c (`get_scope_pool`, `register_scope`, `new_D_Scope`, `equiv_D_Scope`, `enter_D_Scope`,
-- `global_D_Scope`, `scope_D_Scope`): the scopes and the links between them.
-- An operation that follows a pointer out of the store has the outcome `none`.
use dparser.Prelude.{
  ℕ, zero, suc, ◌+◌, Bool, true, false, not, ◌&&◌, ◌||◌, List, [], ◌∷◌, ◌++◌, Option, none, some,
  ltb, leb, ◌==◌, if◌then◌else◌, length, set, is_empty,
}
use dparser.Symtab.{Store, Scope, scope_at, set_scope, sym_at, blank, new_symhash}

-- The pool of a scope by the links `up`, then `search`, in at most `fuel` steps.
unfoldable pub topmost : ℕ → Store → ℕ → Option ℕ
topmost zero m st = none
topmost (suc fuel) m st = elim (scope_at m st) [
  | none ↦ none
  | some c ↦ elim c.up [ none ↦ some st | some u ↦ topmost fuel m u ]
]

unfoldable pub pool_owner : ℕ → Store → ℕ → Option ℕ
pool_owner zero m st = none
pool_owner (suc fuel) m st = elim (scope_at m st) [
  | none ↦ none
  | some c ↦ elim c.pool [
    | some _ ↦ some st
    | none ↦ elim c.search [ none ↦ none | some n ↦ pool_owner fuel m n ]
  ]
]

-- The scope that has the pool is found, as pointers go to older scopes, in a step for each scope.
unfoldable pub get_scope_pool : Store → ℕ → Option ℕ
get_scope_pool m st =
    let n = length m.scopes in
    elim (topmost (suc n) m st) [ none ↦ none | some t ↦ pool_owner (suc n) m t ]

unfoldable pub register_scope : Store → ℕ → Store
register_scope m st = elim (get_scope_pool m st) [
  | none ↦ m
  | some p ↦ elim (scope_at m p) [
    | none ↦ m
    | some c ↦ elim c.pool [
      | none ↦ m
      | some scopes ↦ set_scope m p (record c { pool = some (scopes ++ st ∷ []) })
    ]
  ]
]

-- A scope is added at the end of the store, in front of the scopes below `above`.
unfoldable pub attach : Store → Option ℕ → Scope → Store
attach m above c =
    let st = length m.scopes in
    elim above [
      | none ↦ record m { scopes = m.scopes ++ c ∷ [] }
      | some a ↦ elim (scope_at m a) [
        | none ↦ record m { scopes = m.scopes ++ c ∷ [] }
        | some p ↦ record m {
          scopes =
              set m.scopes a (record p { down = some st }) ++ record c { down_next = p.down } ∷ [];
        }
      ]
    ]

-- The store and the new scope, for a parent that is in the store or NULL.
unfoldable pub new_scope : Store → Option ℕ → Option (Store × ℕ)
new_scope m parent =
    let st = length m.scopes in
    elim parent [
      | none ↦ some (
        register_scope (attach m none (record blank { hash = some new_symhash; pool = some [] }))
            st,
        st,
      )
      | some p ↦ elim (scope_at m p) [
        | none ↦ none
        | some c ↦ some (
          register_scope
              (attach m (some p) (record blank {
                depth = c.depth + 1;
                kind = c.kind;
                search = some p;
                up = some p;
                up_updates = some p;
              }))
              st,
          st,
        )
      ]
    ]

unfoldable pub enter_scope : Store → ℕ → ℕ → Option (Store × ℕ)
enter_scope m current scope =
    let st = length m.scopes in
    elim (scope_at m scope) [
      | none ↦ none
      | some c ↦ some (
        register_scope
            (attach m (some current) (record blank {
              depth = c.depth;
              up = c.up;
              kind = c.kind;
              search = some scope;
              up_updates = some current;
            }))
            st,
        st,
      )
    ]

-- `while (g->up) g = g->search;`
unfoldable pub global_of : ℕ → Store → ℕ → Option ℕ
global_of zero m g = none
global_of (suc fuel) m g = elim (scope_at m g) [
  | none ↦ none
  | some c ↦ elim c.up [
    | none ↦ some g
    | some _ ↦ elim c.search [ none ↦ none | some n ↦ global_of fuel m n ]
  ]
]

unfoldable pub global_scope : Store → ℕ → Option (Store × ℕ)
global_scope m current = elim (global_of (suc (length m.scopes)) m current) [
  | none ↦ none
  | some g ↦ enter_scope m current g
]

unfoldable pub dynamic_scope : Store → ℕ → Option ℕ → Option (Store × ℕ)
dynamic_scope m current scope =
    let st = length m.scopes in
    elim (scope_at m current) [
      | none ↦ none
      | some c ↦ some (
        register_scope
            (attach m (some current) (record blank {
              depth = c.depth;
              up = c.up;
              kind = c.kind;
              search = some current;
              dynamic = scope;
              up_updates = some current;
            }))
            st,
        st,
      )
    ]

abbrev pub same_scope : Option ℕ → Option ℕ → Bool
same_scope none none = true
same_scope none (some b) = false
same_scope (some a) none = false
same_scope (some a) (some b) = a == b

abbrev pub depth_of : Store → Option ℕ → ℕ
depth_of m none = 0
depth_of m (some i) = elim (scope_at m i) [ none ↦ 0 | some c ↦ c.depth ]

-- Some update is of a symbol from a scope at that depth or above.
unfoldable pub updates_outer : Store → ℕ → List ℕ → Bool
updates_outer m depth [] = false
updates_outer m depth (s ∷ updates) =
    leb (depth_of m (sym_at m s).scope) depth || updates_outer m depth updates

abbrev pub is_null {ℓ} : {A : Type ℓ} → Option A → Bool
is_null none = true
is_null (some _) = false

-- The loop of `equiv_D_Scope` from `s`, where `last` is the equivalent scope so far.
unfoldable pub equiv_loop : ℕ → Store → Scope → ℕ → ℕ → Option ℕ
equiv_loop zero m current s last = none
equiv_loop (suc fuel) m current s last = elim (scope_at m s) [
  | none ↦ none
  | some c ↦
      if ltb c.depth current.depth
      then some last
      else if c.depth == depth_of m (some last) && not (same_scope current.up c.up)
      then some last
      else (let last' = if c.depth == depth_of m (some last) then s else last in
          if not (is_empty c.ll)
            || not (is_null c.hash)
            || not (is_null c.dynamic)
            || updates_outer m current.depth c.updates
          then some last'
          else elim c.up_updates [ none ↦ some last' | some u ↦ equiv_loop fuel m current u last' ])
]

unfoldable pub equiv_scope : Store → ℕ → Option ℕ
equiv_scope m current = elim (scope_at m current) [
  | none ↦ none
  | some c ↦ equiv_loop (suc (length m.scopes)) m c current current
]
