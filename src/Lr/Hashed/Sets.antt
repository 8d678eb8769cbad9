-- ===== src/Lr/Hashed/Sets.antt =====
-- Unless the hash table of the states runs off the table of primes, the functions that use it do what they do on
-- the list of states alone.
use mathlib.Core.Path.{subst}
use dparser.Prelude.{
  ℕ, zero, suc, ◌≡◌, refl, sym, ◌∙◌, inl, inr, List, [], ◌∷◌, ◌++◌, Option, none, some,
  if◌then◌else◌, set, get_elem?, Bool-cases, Option-cases,
}
use dparser.Libc.{Qsort}
use dparser.Gram.{Symbol, Grammar, Production, Item, symbol_at}
use dparser.Util.Hashed.{cleared}
use dparser.Lr.{
  State, new_state, insert_item, first_item, closure_loop, closure_fuel, finish_closure,
}
use dparser.Lr.Gotos.{advance_items, add_goto, met, sort_gotos}
use dparser.Lr.Closure.Build.{maybe_add_state-Stands}
use dparser.Lr.Gotos.Target.{gained-IsTable, state_before, state_after, get_elem?-append}
use dparser.Lr.Automaton.{own_elems, state_fuel, first_rule}
use dparser.Lr.Hashed.{
  StatesHash, maybe_add_state, build_closure, build_state_for, build_gotos,
  build_states_for_each_production, build_new_states, build_lr_sets,
}
use dparser.Util.Hashed.Same.{Same, Same->>=, Same-and}
use dparser.Lr.Hashed.Search.{Mirrors, cleared-Mirrors, maybe_add_state-Same}

-- The table also stands for the states after one of them has got a goto.
Mirrors-gained :
    (states : List State) (hash : StatesHash) (k : ℕ) (s : State) (to : ℕ) (x : Symbol)
    → get_elem? states k ≡ some s
    → Mirrors states hash
    → Mirrors (set states k (add_goto s to x)) hash
Mirrors-gained states hash k s to x here m = record {
  table = gained-IsTable states k s to x here m.table;
  valid = m.valid;
  back = λ y sits.
      let (t, at, items) = m.back y sits in
      let (t', at', same) = state_after states k s to x here y.position t at in
      (t', at', same ∙ items);
  forth = λ j t' at'.
      let (t, at, items, _) = state_before states k s to x here j t' at' in
      let (y, sits, same) = m.forth j t at in (y, sits, same ∙ sym items);
}

-- After a search: the table stands for the states, which are those of before and perhaps one more.
abbrev pub Searched : List State → List State × State → StatesHash → Type 0
Searched states r hash = Mirrors r.0 hash × ((new : List State) × (r.0 ≡ states ++ new))

module _ (libc : Qsort) (g : Grammar) where
  pub build_closure-Same :
      (states : List State) (hash : StatesHash) (s : State)
      → Mirrors states hash
      → Same
          (Searched states)
          (dparser.Lr.build_closure libc g states s)
          (build_closure libc g states hash s)
  unfolding build_closure dparser.Lr.build_closure
  build_closure-Same states hash s m = elim (Option-cases (closure_loop g (closure_fuel g s) 0 s)) [
    | inl starved ↦ rw (starved, build_closure, dparser.Lr.build_closure) tt
    | inr (closed, e) ↦
        let done = finish_closure libc g closed in
        rw (e, build_closure, dparser.Lr.build_closure)
          (Same-and (λ q h. Mirrors q.0 h) (λ q. (new : List State) × (q.0 ≡ states ++ new))
            (dparser.Lr.maybe_add_state states done) (maybe_add_state states hash done)
            ((maybe_add_state-Stands states done m.table).appended)
            (maybe_add_state-Same states hash done m))
  ]

  pub build_state_for-Same :
      (states : List State) (hash : StatesHash) (k : ℕ) (s : State) (x : Symbol)
      → Mirrors states hash
      → get_elem? states k ≡ some s
      → Same Mirrors
          (dparser.Lr.Gotos.build_state_for libc g states k s x)
          (build_state_for libc g states hash k s x)
  unfolding build_state_for dparser.Lr.Gotos.build_state_for
  build_state_for-Same states hash k s x m here =
      elim (Option-cases (advance_items g x s.items none)) [
        | inl nothing ↦ rw (nothing, build_state_for, dparser.Lr.Gotos.build_state_for) (refl, m)
        | inr (ss, e) ↦
            rw (e, build_state_for, dparser.Lr.Gotos.build_state_for)
              (Same->>= (Searched states) Mirrors (dparser.Lr.build_closure libc g states ss)
                (build_closure libc g states hash ss)
                (λ r. some (set r.0 k (add_goto s r.1.index x))) _
                (build_closure-Same states hash ss m)
                (λ r h found. (
                  refl,
                  Mirrors-gained r.0 h k s r.1.index x
                      (subst (λ q. get_elem? q k ≡ some s) (sym found.1.1)
                        (get_elem?-append states found.1.0 k s here))
                      found.0,
                )))
      ]

  pub build_gotos-Same :
      (states : List State) (hash : StatesHash) (k : ℕ) (seen items : List Item)
      → Mirrors states hash
      → Same Mirrors
          (dparser.Lr.Gotos.build_gotos libc g states k seen items)
          (build_gotos libc g states hash k seen items)
  unfolding build_gotos dparser.Lr.Gotos.build_gotos
  build_gotos-Same states hash k seen [] m = (refl, m)
  build_gotos-Same states hash k seen (i ∷ items) m = elim (Option-cases (symbol_at g i)) [
    | inl end ↦
        rw (end, build_gotos, dparser.Lr.Gotos.build_gotos)
          (build_gotos-Same states hash k (seen ++ i ∷ []) items m)
    | inr (x, at) ↦ elim (Bool-cases (met g x seen)) [
      | inl again ↦
          rw (at, again, build_gotos, dparser.Lr.Gotos.build_gotos)
            (build_gotos-Same states hash k (seen ++ i ∷ []) items m)
      | inr first ↦ elim (Option-cases (get_elem? states k)) [
        | inl outside ↦ rw (at, first, outside, build_gotos, dparser.Lr.Gotos.build_gotos) tt
        | inr (s, here) ↦
            rw (at, first, here, build_gotos, dparser.Lr.Gotos.build_gotos)
              (Same->>= Mirrors Mirrors (dparser.Lr.Gotos.build_state_for libc g states k s x)
                (build_state_for libc g states hash k s x)
                (λ q. dparser.Lr.Gotos.build_gotos libc g q k (seen ++ i ∷ []) items) _
                (build_state_for-Same states hash k s x m here)
                (λ q h mirrors. build_gotos-Same q h k (seen ++ i ∷ []) items mirrors))
      ]
    ]
  ]

  build_new_states-Same :
      (fuel i : ℕ) (states : List State) (hash : StatesHash)
      → Mirrors states hash
      → Same Mirrors
          (dparser.Lr.Automaton.build_new_states libc g fuel i states)
          (build_new_states libc g fuel i states hash)
  unfolding build_new_states dparser.Lr.Automaton.build_new_states
  build_new_states-Same zero i states hash m = tt
  build_new_states-Same (suc fuel) i states hash m = elim (Option-cases (get_elem? states i)) [
    | inl end ↦ rw (end, build_new_states, dparser.Lr.Automaton.build_new_states) (refl, m)
    | inr (s, at) ↦
        rw (at, build_new_states, dparser.Lr.Automaton.build_new_states)
          (Same->>= Mirrors Mirrors (dparser.Lr.Gotos.build_gotos libc g states i [] s.items)
            (build_gotos libc g states hash i [] s.items)
            (λ q. dparser.Lr.Automaton.build_new_states libc g fuel (suc i) q) _
            (build_gotos-Same states hash i [] s.items m)
            (λ q h mirrors. build_new_states-Same fuel (suc i) q h mirrors))
  ]

  -- The states and what stands beside them.
  abbrev Beside : List State × List (Option ℕ) → StatesHash → Type 0
  Beside r hash = Mirrors r.0 hash

  build_states-Same :
      (states : List State) (hash : StatesHash) (ps : List Production)
      → Mirrors states hash
      → Same Beside
          (dparser.Lr.Gotos.build_states_for_each_production libc g states ps)
          (build_states_for_each_production libc g states hash ps)
  unfolding build_states_for_each_production dparser.Lr.Gotos.build_states_for_each_production
  build_states-Same states hash [] m = (refl, m)
  build_states-Same states hash (p ∷ ps) m =
      elim (Option-cases (if p.internal then none else p.elem)) [
        | inl other ↦
            rw
              (
                other, build_states_for_each_production,
                dparser.Lr.Gotos.build_states_for_each_production,
              )
              (Same->>= Beside Beside
                (dparser.Lr.Gotos.build_states_for_each_production libc g states ps)
                (build_states_for_each_production libc g states hash ps)
                (λ r. some (r.0, none ∷ r.1)) _ (build_states-Same states hash ps m)
                (λ r h mirrors. (refl, mirrors)))
        | inr (i, own) ↦
            rw
              (
                own, build_states_for_each_production,
                dparser.Lr.Gotos.build_states_for_each_production,
              )
              (Same->>= (Searched states) Beside
                (dparser.Lr.build_closure libc g states (insert_item new_state i).0)
                (build_closure libc g states hash (insert_item new_state i).0) _ _
                (build_closure-Same states hash (insert_item new_state i).0 m)
                (λ t h found.
                  Same->>= Beside Beside
                    (dparser.Lr.Gotos.build_states_for_each_production libc g t.0 ps)
                    (build_states_for_each_production libc g t.0 h ps)
                    (λ r. some (r.0, some t.1.index ∷ r.1)) _ (build_states-Same t.0 h ps found.0)
                    (λ r h' mirrors. (refl, mirrors))))
      ]

  -- `build_LR_sets` gives what it gives on the list of states alone, unless the hash table runs off.
  pub build_lr_sets-Same :
      (r : ℕ)
      → first_rule g ≡ some r
      → Same (λ _ _. Unit {0}) (dparser.Lr.Automaton.build_lr_sets libc g) (build_lr_sets libc g r)
  unfolding build_lr_sets dparser.Lr.Automaton.build_lr_sets
  build_lr_sets-Same r e =
      let kernel = first_item r ∷ own_elems g.productions in
      rw (e, dparser.Lr.Automaton.build_lr_sets)
        (Same->>= (Searched []) (λ _ _. Unit {0})
          (dparser.Lr.build_closure libc g [] (insert_item new_state (first_item r)).0)
          (build_closure libc g [] cleared (insert_item new_state (first_item r)).0) _ _
          (build_closure-Same [] cleared (insert_item new_state (first_item r)).0 cleared-Mirrors)
          (λ first h found.
            Same->>= Beside (λ _ _. Unit {0})
              (dparser.Lr.Gotos.build_states_for_each_production libc g first.0 g.productions)
              (build_states_for_each_production libc g first.0 h g.productions) _ _
              (build_states-Same first.0 h g.productions found.0)
              (λ own h' mirrors.
                Same->>= Mirrors (λ _ _. Unit {0})
                  (dparser.Lr.Automaton.build_new_states libc g (state_fuel g kernel) 0 own.0)
                  (build_new_states libc g (state_fuel g kernel) 0 own.0 h') _ _
                  (build_new_states-Same (state_fuel g kernel) 0 own.0 h' mirrors)
                  (λ new h'' _. (refl, tt)))))
