-- ===== src/Lr/Automaton.antt =====
-- lr.c (`build_new_states`, `build_LR_sets`, the hints of `build_LR_tables`): the LR(0) automaton of a grammar, on
-- the list of its states; with the hash table of the states it stands in Lr/Hashed.
pub mod Universe
pub mod Count
pub mod Added
pub mod Keeps
pub mod Visit
pub mod Rows
pub mod Loop
pub mod Sorted
pub mod Start
pub mod Language
use dparser.Prelude.{
  ℕ, zero, suc, ◌+◌, ◌*◌, Bool, true, false, List, [], ◌∷◌, ◌++◌, map, Option, none, some,
  if◌then◌else◌, length, get_elem?, is_empty,
}
use dparser.Libc.{Qsort}
use dparser.Gram.{Grammar, Production, Item, rule_of}
use dparser.Lr.{State, new_state, insert_item, first_item, all_rules, build_closure}
use dparser.Lr.Gotos.{build_gotos, build_states_for_each_production, sort_gotos}
use dparser.Lr.Actions.{Numbering, build_actions}
use dparser.Lr.Hints.{build_right_epsilon_hints, build_error_recovery}

-- The elements that `build_states_for_each_production` begins a state with.
abbrev pub own_elems : List Production → List Item
own_elems [] = []
own_elems (p ∷ ps) =
    let rest = own_elems ps in
    elim (if p.internal then none else p.elem) [ none ↦ rest | some i ↦ i ∷ rest ]

-- `n` items of a rule from the first one on
abbrev pub items_of_rule : ℕ → ℕ → List Item
items_of_rule r zero = []
items_of_rule r (suc n) = record { rule = r; index = n } ∷ items_of_rule r n

abbrev pub items_of_rules : Grammar → List ℕ → List Item
items_of_rules g [] = []
items_of_rules g (r ∷ rs) =
    items_of_rule r (suc (length (rule_of g r).elems)) ++ items_of_rules g rs

-- All items that states can hold which begin with the items of `kernel`.
abbrev pub all_items : Grammar → List Item → List Item
all_items g kernel =
    kernel ++ items_of_rules g (map (λ (i : Item). i.rule) kernel ++ all_rules g.productions)

-- How many lists of at most `k` of `m` elements there are.
abbrev pub list_count : ℕ → ℕ → ℕ
list_count m zero = 1
list_count m (suc k) = 1 + m * list_count m k

-- A round for each list of items, and one to stop.
abbrev pub state_fuel : Grammar → List Item → ℕ
state_fuel g kernel = let m = length (all_items g kernel) in suc (list_count m m)

-- The first rule of the first production, where it has an element.
abbrev pub first_rule : Grammar → Option ℕ
first_rule g = elim g.productions [
  | [] ↦ none
  | p ∷ _ ↦ elim p.rules [
    | [] ↦ none
    | r ∷ _ ↦ if is_empty (rule_of g r).elems then none else some r
  ]
]

module _ (libc : Qsort) (g : Grammar) where
  -- `for (i = 0; i < g->states.n; i++)`, where the body may add states.
  unfoldable pub build_new_states : ℕ → ℕ → List State → Option (List State)
  build_new_states zero i states = none
  build_new_states (suc fuel) i states = elim (get_elem? states i) [
    | none ↦ some states
    | some s ↦ elim (build_gotos libc g states i [] s.items) [
      | none ↦ none
      | some states' ↦ build_new_states fuel (suc i) states'
    ]
  ]

  -- The states, and the field `state` of each production. Without a first element of a first rule it is `none`.
  unfoldable pub build_lr_sets : Option (List State × List (Option ℕ))
  build_lr_sets = elim (first_rule g) [
    | none ↦ none
    | some r ↦ elim (build_closure libc g [] (insert_item new_state (first_item r)).0) [
      | none ↦ none
      | some first ↦ elim (build_states_for_each_production libc g first.0 g.productions) [
        | none ↦ none
        | some own ↦
            elim (build_new_states (state_fuel g (first_item r ∷ own_elems g.productions)) 0
              own.0) [ none ↦ none | some states ↦ some (sort_gotos libc g states, own.1) ]
      ]
    ]
  ]

  -- The last two loops, over the states from `k` on; `all` are the states with their gotos.
  unfoldable pub build_hints : List State → ℕ → List State → List State
  build_hints all k [] = []
  build_hints all k (s ∷ states) =
      build_error_recovery libc g (build_right_epsilon_hints libc g all k s)
      ∷ build_hints all (suc k) states
