-- ===== src/Lr/Hashed.antt =====
-- lr.c (`state_hash_fn`, `state_cmp_fn`, `maybe_add_state`, and all that calls it up to `build_LR_tables`): the
-- states with the hash table `states_hash`.
-- An element of the table is a state by its position in `g->states` and its items, which stay as they are once it
-- is there; the field `hash` is the sum that `build_closure` has made of them. Where `set_add_fn` runs off the
-- table of primes, each of these functions is `exhausted`. The functions of Lr, Lr/Gotos and Lr/Automaton of the
-- same names are what they do where it does not, on the list of states alone.
pub mod Search
pub mod Sets
pub mod Correct
use dparser.Prelude.{
  ℕ, zero, suc, Bool, List, [], ◌∷◌, ◌++◌, Option, none, some, ◌==◌, if◌then◌else◌, length, set,
  get_elem?, get_or,
}
use dparser.Libc.{Qsort}
use dparser.Gram.{Symbol, Grammar, Production, Item, symbol_at}
use dparser.Util.Set.{Outcome, ok, exhausted, out_of_fuel, ◌>>=◌}
use dparser.Util.Hashed.{HashFns, FnTable, cleared, set_add_fn}
use dparser.Lr.{
  State, new_state, sum_hashes, items_eq, insert_item, first_item, closure_loop, closure_fuel,
  finish_closure,
}
use dparser.Lr.Gotos.{advance_items, add_goto, met, sort_gotos}
use dparser.Lr.Actions.{Numbering, build_actions}
use dparser.Lr.Automaton.{own_elems, state_fuel, first_rule, build_hints}

pub record Listed : Type 0 where
  pub position : ℕ
  pub items : List Item

unfoldable pub state_hash_fn : Listed → ℕ
state_hash_fn s = sum_hashes s.items

unfoldable pub state_cmp_fn : Listed → Listed → Bool
state_cmp_fn a b = items_eq a.items b.items

abbrev pub state_hash_fns : HashFns Listed
state_hash_fns = record { hash_fn = state_hash_fn; same = state_cmp_fn }

abbrev pub StatesHash : Type 0
StatesHash = FnTable Listed

-- The states and the state that stands for `s`, with the hash table.
unfoldable pub maybe_add_state :
    List State → StatesHash → State → Outcome ((List State × State) × StatesHash)
maybe_add_state states hash s =
    set_add_fn state_hash_fns hash (record { position = length states; items = s.items }) >>= λ r.
    if r.1.position == length states
    then (let s' = record s { index = length states } in ok ((states ++ s' ∷ [], s'), r.0))
    else ok ((states, get_or states r.1.position s), r.0)

module _ (libc : Qsort) (g : Grammar) where
  unfoldable pub build_closure :
      List State → StatesHash → State → Outcome ((List State × State) × StatesHash)
  build_closure states hash s = elim (closure_loop g (closure_fuel g s) 0 s) [
    | none ↦ out_of_fuel
    | some closed ↦ maybe_add_state states hash (finish_closure libc g closed)
  ]

  -- The states after the goto of state `k` by `x`, which is `s`.
  unfoldable pub build_state_for :
      List State → StatesHash → ℕ → State → Symbol → Outcome (List State × StatesHash)
  build_state_for states hash k s x = elim (advance_items g x s.items none) [
    | none ↦ ok (states, hash)
    | some ss ↦
        build_closure states hash ss >>= λ r. ok (set r.0.0 k (add_goto s r.0.1.index x), r.1)
  ]

  -- The body of the loop of `build_new_states`, over the items of state `k` that are left behind `seen`.
  unfoldable pub build_gotos :
      List State → StatesHash → ℕ → List Item → List Item → Outcome (List State × StatesHash)
  build_gotos states hash k seen [] = ok (states, hash)
  build_gotos states hash k seen (i ∷ items) = elim (symbol_at g i) [
    | none ↦ build_gotos states hash k (seen ++ i ∷ []) items
    | some x ↦
        if met g x seen
        then build_gotos states hash k (seen ++ i ∷ []) items
        else elim (get_elem? states k) [
          | none ↦ out_of_fuel
          | some s ↦ build_state_for states hash k s x >>= λ r.
              build_gotos r.0 r.1 k (seen ++ i ∷ []) items
        ]
  ]

  -- `g->productions.v[i]->state` for the productions from `ps` on, by index.
  unfoldable pub build_states_for_each_production :
      List State
      → StatesHash
      → List Production
      → Outcome ((List State × List (Option ℕ)) × StatesHash)
  build_states_for_each_production states hash [] = ok ((states, []), hash)
  build_states_for_each_production states hash (p ∷ ps) =
      elim (if p.internal then none else p.elem) [
        | none ↦
            build_states_for_each_production states hash ps >>= λ r. ok ((r.0.0, none ∷ r.0.1), r.1)
        | some i ↦ build_closure states hash (insert_item new_state i).0 >>= λ t.
            build_states_for_each_production t.0.0 t.1 ps >>= λ r.
            ok ((r.0.0, some t.0.1.index ∷ r.0.1), r.1)
      ]

  -- `for (i = 0; i < g->states.n; i++)`, where the body may add states.
  unfoldable pub build_new_states :
      ℕ → ℕ → List State → StatesHash → Outcome (List State × StatesHash)
  build_new_states zero i states hash = out_of_fuel
  build_new_states (suc fuel) i states hash = elim (get_elem? states i) [
    | none ↦ ok (states, hash)
    | some s ↦ build_gotos states hash i [] s.items >>= λ r. build_new_states fuel (suc i) r.0 r.1
  ]

  -- The states, and the field `state` of each production, for a grammar whose first rule is `r`.
  unfoldable pub build_lr_sets : ℕ → Outcome ((List State × List (Option ℕ)) × StatesHash)
  build_lr_sets r = build_closure [] cleared (insert_item new_state (first_item r)).0 >>= λ first.
      build_states_for_each_production first.0.0 first.1 g.productions >>= λ own.
      build_new_states (state_fuel g (first_item r ∷ own_elems g.productions)) 0 own.0.0 own.1
      >>= λ new. ok ((sort_gotos libc g new.0, own.0.1), new.1)

  -- Without a first element of a first rule there is no result.
  unfoldable pub build_lr_tables : Option (Outcome (Numbering × List State × List (Option ℕ)))
  build_lr_tables = elim (first_rule g) [
    | none ↦ none
    | some r ↦ some (
        build_lr_sets r >>= λ sets.
        (let acted = build_actions libc g (record { actions = []; action_count = 0 }) sets.0.0 in
          ok (acted.0, build_hints libc g acted.1 0 acted.1, sets.0.1)))
  ]
