-- ===== src/Tests/Returns.antt =====
-- The hash table of the states does not run off on the automaton of a small grammar.
use dparser.Prelude.{◌≡◌, refl, Bool, true, false}
use dparser.Libc.Insertion.{insertion}
use dparser.Util.Set.{Outcome, ok, exhausted, out_of_fuel, d_prime2}
use dparser.Util.Hashed.{
  at_slot, probe_fn, lookup_fn, enlarge_fn, set_union_fn, set_add_fn_fuel, set_add_fn,
}
use dparser.Gram.{symbol_at}
use dparser.Lr.{
  insert_item, insert_rules, next_elem, expand, closure_loop, finish_closure, itemcmp, item_hash,
  sum_hashes, items_eq,
}
use dparser.Lr.Gotos.{stands_before, advance_items, add_goto, met, sort_gotos, gotocmp}
use dparser.Lr.Hashed.{
  state_hash_fn, state_cmp_fn, maybe_add_state, build_closure, build_state_for, build_gotos,
  build_states_for_each_production, build_new_states, build_lr_sets,
}
use dparser.Tests.States.{nested}

abbrev returned : {A : Type 0} → Outcome A → Bool
returned (ok a) = true
returned exhausted = false
returned out_of_fuel = false

build_lr_sets_returns : returned (build_lr_sets insertion nested 0) ≡ true
unfolding build_lr_sets build_new_states build_states_for_each_production build_gotos
    build_state_for build_closure maybe_add_state state_hash_fn state_cmp_fn set_add_fn
    set_add_fn_fuel set_union_fn enlarge_fn lookup_fn probe_fn at_slot d_prime2 insert_item
    insert_rules next_elem expand closure_loop finish_closure itemcmp item_hash sum_hashes items_eq
    stands_before advance_items add_goto met sort_gotos gotocmp symbol_at
    dparser.Libc.Insertion.insertion_sort dparser.Libc.Insertion.insert
build_lr_sets_returns = refl
