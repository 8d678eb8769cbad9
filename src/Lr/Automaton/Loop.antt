-- ===== src/Lr/Automaton/Loop.antt =====
-- `build_new_states` ends, and every state has its gotos.
use mathlib.Core.Path.{subst}
use dparser.Prelude.{
  ℕ, zero, suc, ◌+◌, ◌≤◌, ◌<◌, ◌≡◌, refl, sym, ap, ◌∙◌, inl, inr, false, List, [], ◌∷◌, some, arith,
  ◌==◌, ==_iff, length, get_elem?, Bool-cases, Option-cases, nat_eq,
}
use dparser.Libc.{Qsort, count_if}
use dparser.Gram.{Symbol, Grammar, Item, item_Eq}
use dparser.Lr.{State}
use dparser.Lr.Gotos.{met}
use dparser.Lr.Gotos.Target.{get_elem?-within}
use dparser.Lr.Actions.{goto_state}
use dparser.Lr.Automaton.Keeps.{Edge, nowhere, Keeps, Edge-Keeps, get_elem?-outside}
use dparser.Lr.Automaton.Visit.{by, Row, Sound, all}
use dparser.Lr.Automaton.{list_count, build_new_states}
use dparser.Lr.Automaton.Count.{length-states}
use dparser.Lr.Automaton.Rows.{build_gotos-Row}

-- The gotos of a state are right, and at most one for an element.
pub record Visited (g : Grammar) (states : List State) (s : State) : Type 0 where
  pub edges : (x : Symbol) → Edge g states s.items x (goto_state s.gotos x)
  pub unique : (x : Symbol) → count_if (by x) s.gotos ≤ 1

Visited-Keeps :
    (g : Grammar) (k : ℕ) (states states' : List State) (u u' : State)
    → Keeps k states states'
    → u'.items ≡ u.items
    → u'.gotos ≡ u.gotos
    → Visited g states u
    → Visited g states' u'
Visited-Keeps g k states states' u u' keeps items gotos v = record {
  edges = λ x.
      subst (λ l. Edge g states' l x (goto_state u'.gotos x)) (sym items)
        (subst (λ q. Edge g states' u.items x (goto_state q x)) (sym gotos)
          (Edge-Keeps g k states states' u.items x (goto_state u.gotos x) keeps (v.edges x)));
  unique = λ x. subst (λ q. count_if (by x) q ≤ 1) (sym gotos) (v.unique x);
}

Visited-Row :
    (g : Grammar) (states : List State) (k : ℕ) (items : List Item)
    → (row : Row g states k items items) → Visited g states row.source
Visited-Row g states k items row = record {
  edges = λ x. elim (Bool-cases (met g x items)) [
    | inl stands ↦
        let (t, found, edge) = row.edges x stands in
        subst (λ o. Edge g states row.source.items x o) (sym found)
          (subst (λ l. Edge g states l x (some t)) (sym row.same) edge)
    | inr no_item ↦
        subst (λ o. Edge g states row.source.items x o) (sym (row.others x no_item))
          (nowhere (ap (met g x) row.same ∙ no_item))
  ];
  unique = row.unique;
}

-- The loop before state `i`: the states before it are done, and the others have no gotos.
pub record Progress (g : Grammar) (i : ℕ) (states : List State) : Type 0 where
  pub done : (j : ℕ) (u : State) → get_elem? states j ≡ some u → j < i → Visited g states u
  pub todo : (j : ℕ) (u : State) → get_elem? states j ≡ some u → i ≤ j → u.gotos ≡ []
  pub begun : i ≤ length states

-- The states of before, with their items.
pub record Grows (states states' : List State) : Type 0 where
  pub same :
      (j : ℕ) (u : State)
      → get_elem? states j ≡ some u
      → (u' : State) × (get_elem? states' j ≡ some u') × (u'.items ≡ u.items)

first_Row :
    (g : Grammar) (states : List State) (k : ℕ) (s : State)
    → get_elem? states k ≡ some s
    → s.gotos ≡ []
    → Row g states k s.items []
unfolding met goto_state
first_Row g states k s here none_yet = record {
  source = s;
  here = here;
  same = refl;
  edges = λ x h. absurd (cc h);
  others = λ x h. rw none_yet refl;
  unique = λ x. rw none_yet (omega arith);
}

step-Progress :
    (g : Grammar) (k : ℕ) (states states' : List State) (s : State)
    → get_elem? states k ≡ some s
    → Progress g k states
    → Keeps k states states'
    → Row g states' k s.items s.items
    → Progress g (suc k) states'
step-Progress g k states states' s here p keeps row = record {
  done = λ j u' at below. elim (Bool-cases (k == j)) [
    | inl self ↦
        let e : k ≡ j = (==_iff k j).0 self in
        let this : row.source ≡ u' =
          cc (subst (λ n. get_elem? states' n ≡ some row.source) e row.here, at) in
        subst (Visited g states') this (Visited-Row g states' k s.items row)
    | inr other ↦
        let before : j < k = below_of k j other below in
        let (u, at_u) = get_elem?-some states j (omega (arith, before, p.begun)) in
        let (v, at_v, items, gotos) = keeps.old j u at_u in
        let this : v ≡ u' = cc (at_v, at) in
        subst (Visited g states') this
          (Visited-Keeps g k states states' u v keeps items (gotos other) (p.done j u at_u before))
  ];
  todo = λ j u' at late. elim (Option-cases (get_elem? states j)) [
    | inl outside ↦ keeps.fresh j u' at (get_elem?-outside states j outside)
    | inr (u, at_u) ↦
        let (v, at_v, items, gotos) = keeps.old j u at_u in
        let this : v ≡ u' = cc (at_v, at) in
        ap (λ (q : State). q.gotos) (sym this)
        ∙ gotos (apart k j late)
        ∙ p.todo j u at_u (omega arith)
  ];
  begun = omega (arith, get_elem?-within states' k row.source row.here);
}
  where
    below_of : (k j : ℕ) → (k == j) ≡ false → j < suc k → j < k
    below_of k j h b = ground arith

    apart : (k j : ℕ) → suc k ≤ j → (k == j) ≡ false
    apart k j h = ground arith

    get_elem?-some :
        (xs : List State) (j : ℕ) → j < length xs → (u : State) × (get_elem? xs j ≡ some u)
    get_elem?-some [] j h = absurd (omega arith)
    get_elem?-some (x ∷ xs) zero h = (x, refl)
    get_elem?-some (x ∷ xs) (suc j) h = get_elem?-some xs j (omega arith)

module _ (libc : Qsort) (g : Grammar) (kernel : List Item) where
  pub build_new_states-Progress :
      (fuel i : ℕ) (states : List State)
      → Sound (all libc g kernel) states
      → Progress g i states
      → list_count (length (all libc g kernel)) (length (all libc g kernel)) < fuel + i
      → (states' : List State) × (build_new_states libc g fuel i states ≡ some states')
        × Sound (all libc g kernel) states'
        × Progress g (length states') states'
        × Grows states states'
  unfolding build_new_states
  build_new_states-Progress zero i states sound p enough =
      absurd
        (omega (arith, length-states (all libc g kernel) states sound.table sound.fit, p.begun))
  build_new_states-Progress (suc fuel) i states sound p enough =
      elim (Option-cases (get_elem? states i)) [
        | inl end ↦
            let full : i ≡ length states = omega (arith, p.begun, get_elem?-outside states i end) in
            (
              states,
              rw (end, build_new_states) refl,
              sound,
              subst (λ n. Progress g n states) full p,
              record { same = λ j u at. (u, at, refl) },
            )
        | inr (s, at) ↦
            let (states1, run, sound1, keeps, row) =
              build_gotos-Row libc g kernel i s.items s.items [] states refl sound
                (first_Row g states i s at (p.todo i s at (omega arith))) in
            let (states2, run', sound2, p2, grows) =
              build_new_states-Progress fuel (suc i) states1 sound1
                (step-Progress g i states states1 s at p keeps row) (omega arith) in
            (
              states2,
              rw (at, build_new_states) (rw run run'),
              sound2,
              p2,
              record {
                same = λ j u at_u.
                    let (v, at_v, items, _) = keeps.old j u at_u in
                    let (w, at_w, items') = grows.same j v at_v in (w, at_w, items' ∙ items);
              },
            )
      ]
