-- ===== src/Lr/Gotos.antt =====
-- lr.c (`add_goto`, `build_state_for`, `build_new_states`, `build_states_for_each_production`,
-- `elem_symbol`, `gotocmp`, `sort_Gotos`): the gotos of the LR(0) states.
-- The functions that make states are the specification on the list of states; with the hash table `states_hash`
-- they stand in Lr/Hashed. A state is its index in the list of states. `build_gotos` is the body of the loop of `build_new_states` over
-- the states, which it extends.
pub mod Target
use Prim.Native.Nat.{compare, Ordering}
use dparser.Prelude.{
  ℕ, ◌+◌, Bool, true, false, ◌&&◌, ◌||◌, List, [], ◌∷◌, ◌++◌, Option, none, some, if◌then◌else◌,
  length, set, get_elem?,
}
use dparser.Libc.{Qsort}
use dparser.Gram.{Symbol, Grammar, Production, Item, nterm, term, symbol_at, symbol_eq}
use dparser.Lr.{Goto, State, new_state, insert_item, next_elem, build_closure}

-- The element before which the item stands is `x`.
unfoldable pub stands_before : Grammar → Symbol → Item → Bool
stands_before g x i = elim (symbol_at g i) [ none ↦ false | some y ↦ symbol_eq y x ]

abbrev pub state_or_new : Option State → State
state_or_new none = new_state
state_or_new (some ss) = ss

-- The loop of `build_state_for`, where `ss` is NULL until an item is found.
unfoldable pub advance_items : Grammar → Symbol → List Item → Option State → Option State
advance_items g x [] ss = ss
advance_items g x (i ∷ items) ss =
    advance_items g x items
      (if stands_before g x i then some (insert_item (state_or_new ss) (next_elem g i)).0 else ss)

unfoldable pub add_goto : State → ℕ → Symbol → State
add_goto s to x = record s { gotos = s.gotos ++ record { elem = x; state = to } ∷ [] }

unfoldable pub elem_symbol : Grammar → Symbol → ℕ
elem_symbol g (nterm p) = p
elem_symbol g (term t) = length g.productions + t

unfoldable pub gotocmp : Goto → Goto → Ordering
gotocmp a b = compare a.state b.state

-- An earlier item of the state stands before the same element.
unfoldable pub met : Grammar → Symbol → List Item → Bool
met g x [] = false
met g x (i ∷ items) = stands_before g x i || met g x items

module _ (libc : Qsort) (g : Grammar) where
  -- The states after the goto of state `k` by `x`, which is `s`.
  unfoldable pub build_state_for : List State → ℕ → State → Symbol → Option (List State)
  build_state_for states k s x = elim (advance_items g x s.items none) [
    | none ↦ some states
    | some ss ↦ elim (build_closure libc g states ss) [
      | none ↦ none
      | some r ↦ some (set r.0 k (add_goto s r.1.index x))
    ]
  ]

  -- The items of state `k` that are left, behind those in `seen`.
  unfoldable pub build_gotos : List State → ℕ → List Item → List Item → Option (List State)
  build_gotos states k seen [] = some states
  build_gotos states k seen (i ∷ items) = elim (symbol_at g i) [
    | none ↦ build_gotos states k (seen ++ i ∷ []) items
    | some x ↦
        if met g x seen
        then build_gotos states k (seen ++ i ∷ []) items
        else elim (get_elem? states k) [
          | none ↦ none
          | some s ↦ elim (build_state_for states k s x) [
            | none ↦ none
            | some states' ↦ build_gotos states' k (seen ++ i ∷ []) items
          ]
        ]
  ]

  -- `g->productions.v[i]->state` for the productions from `ps` on, by index.
  unfoldable pub build_states_for_each_production :
      List State → List Production → Option (List State × List (Option ℕ))
  build_states_for_each_production states [] = some (states, [])
  build_states_for_each_production states (p ∷ ps) = elim (if p.internal then none else p.elem) [
    | none ↦ elim (build_states_for_each_production states ps) [
      | none ↦ none
      | some r ↦ some (r.0, none ∷ r.1)
    ]
    | some i ↦ elim (build_closure libc g states (insert_item new_state i).0) [
      | none ↦ none
      | some t ↦ elim (build_states_for_each_production t.0 ps) [
        | none ↦ none
        | some r ↦ some (r.0, some t.1.index ∷ r.1)
      ]
    ]
  ]

  unfoldable pub sort_gotos : List State → List State
  sort_gotos [] = []
  sort_gotos (s ∷ states) = record s { gotos = libc.qsort Goto gotocmp s.gotos } ∷ sort_gotos states
