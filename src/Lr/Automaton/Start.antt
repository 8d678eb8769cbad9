-- ===== src/Lr/Automaton/Start.antt =====
-- The states before `build_new_states`: those of the first production and of each production.
use mathlib.Core.Path.{subst}
use dparser.Prelude.{
  ℕ, zero, suc, ◌≡◌, ◌↔◌, refl, sym, ap, ◌∙◌, inl, inr, true, false, ◌||◌, List, [], ◌∷◌, ◌++◌,
  Option, none, some, arith, get_elem?, if◌then◌else◌, Option-cases, has, has-append,
}
use dparser.Libc.{Qsort}
use dparser.Gram.{Symbol, Grammar, Production, Item, item_eq, item_eq_iff, item_Eq}
use dparser.Lr.{State, new_state, insert_item, first_item, build_closure}
use dparser.Lr.Closure.{Leads, IsValid, insert_item-IsValid, has-insert_item}
use dparser.Lr.Closure.Build.{At}
use dparser.Lr.Gotos.{build_states_for_each_production, sort_gotos}
use dparser.Lr.Gotos.Target.{Leads-same, get_elem?-append, get_elem?-within}
use dparser.Lr.Automaton.{own_elems, state_fuel, first_rule, build_lr_sets}
use dparser.Lr.Automaton.Added.{build_closure-Added, insert_item-gotos, get_elem?-new}
use dparser.Lr.Automaton.Visit.{Sound, all}
use dparser.Lr.Automaton.Loop.{Grows, build_new_states-Progress}
use dparser.Lr.Automaton.Sorted.{sort_gotos-AllEdges, at_sorted}
use dparser.Lr.Automaton.Language.{Ends, state_after, state_after-Ends}

-- No state has a goto.
abbrev Bare : List State → Type 0
Bare states = (k : ℕ) (u : State) → get_elem? states k ≡ some u → u.gotos ≡ []

-- A call of `build_closure` for one item.
record Begun (g : Grammar) (all_of : List Item) (states : List State) (i : Item)
    (r : List State × State) : Type 0 where
  sound : Sound all_of r.0
  bare : Bare r.0
  grows : Grows states r.0
  listed : At r.0 r.1
  exact : (j : Item) → (has r.1.items j ≡ true) ↔ Leads g (i ∷ []) j
  only : states ≡ [] → r.1.index ≡ 0

new_state-IsValid : IsValid new_state
new_state-IsValid = record { once = refl; same = λ i. refl }

module _ (libc : Qsort) (g : Grammar) (kernel : List Item) where
  begin_with :
      (states : List State) (i : Item)
      → Sound (all libc g kernel) states
      → Bare states
      → has (all libc g kernel) i ≡ true
      → (r : List State × State) × (build_closure libc g states (insert_item new_state i).0
          ≡ some r)
        × Begun g (all libc g kernel) states i r
  begin_with states i sound bare inside =
      let seed = (insert_item new_state i).0 in
      let members = λ (j : Item).
        let h : has seed.items j ≡ (item_eq i j || false) =
          has-insert_item new_state i j new_state-IsValid in
        h in
      let (r, run, added) =
        build_closure-Added libc g kernel states seed sound.table sound.fit
          (insert_item-IsValid new_state i new_state-IsValid) (insert_item-gotos new_state i)
          (λ j held.
            subst (λ k. has (all libc g kernel) k ≡ true)
              ((item_eq_iff i j).0 (ground (arith, held, members j))) inside) in
      (
        r,
        run,
        record {
          sound = record { table = added.table; fit = added.fit };
          bare = λ k u at. elim added.grown [
            | inl same ↦ bare k u (subst (λ q. get_elem? q k ≡ some u) same at)
            | inr (grown, gotos) ↦
                elim (get_elem?-new states r.1 u k (subst (λ q. get_elem? q k ≡ some u) grown at)) [
                  | inl old ↦ bare k u old
                  | inr this ↦ ap (λ (q : State). q.gotos) (sym this) ∙ gotos
                ]
          ];
          grows = record {
            same = λ k u at. (
              u,
              elim added.grown [
                | inl same ↦ rw same at
                | inr (grown, _) ↦ rw grown (get_elem?-append states (r.1 ∷ []) k u at)
              ],
              refl,
            );
          };
          listed = added.listed;
          exact = λ j. (
            λ held. Leads-same g _ _ members ((added.exact j).0 held),
            λ l. (added.exact j).1 (Leads-same g _ _ (λ k. sym (members k)) l),
          );
          only = λ none_yet. elim added.grown [
            | inl same ↦
                absurd (nothing_in r.1 (subst (λ q. At q r.1) (same ∙ none_yet) added.listed))
            | inr (grown, _) ↦
                only_one r.1
                  (subst (λ q. At q r.1) (grown ∙ ap (λ q. q ++ r.1 ∷ []) none_yet) added.listed)
          ];
        },
      )
    where
      nothing_in : (s : State) → At [] s → ⊥
      nothing_in s e = cc e

      past_end : (s : State) (k : ℕ) → get_elem? (s ∷ []) k ≡ some s → k ≡ 0
      past_end s zero e = refl
      past_end s (suc k) e = absurd (cc e)

      only_one : (s : State) → At (s ∷ []) s → s.index ≡ 0
      only_one s e = past_end s s.index e

  Grows-trans : (a b c : List State) → Grows a b → Grows b c → Grows a c
  Grows-trans a b c ab bc = record {
    same = λ j u at.
        let (v, at_v, e) = ab.same j u at in
        let (w, at_w, e') = bc.same j v at_v in (w, at_w, e' ∙ e);
  }

  build_states-Sound :
      (states : List State) (ps : List Production)
      → Sound (all libc g kernel) states
      → Bare states
      → ((i : Item) → has (own_elems ps) i ≡ true → has (all libc g kernel) i ≡ true)
      → (r : List State × List (Option ℕ)) × (build_states_for_each_production libc g states ps
          ≡ some r)
        × Sound (all libc g kernel) r.0
        × Bare r.0
        × Grows states r.0
  unfolding build_states_for_each_production
  build_states-Sound states [] sound bare inside =
      ((states, []), refl, sound, bare, record { same = λ j u at. (u, at, refl) })
  build_states-Sound states (p ∷ ps) sound bare inside =
      elim (Option-cases (if p.internal then none else p.elem)) [
        | inl other ↦
            let (r, run, sound', bare', grows) =
              build_states-Sound states ps sound bare
                (λ i held. inside i (rw (other, has, own_elems) held)) in
            (
              (r.0, none ∷ r.1),
              rw (other, build_states_for_each_production) (rw run refl),
              sound',
              bare',
              grows,
            )
        | inr (i, own) ↦
            let (t, run, b) =
              begin_with states i sound bare
                (inside i (rw (own, has, own_elems) (ground (arith, item_eq_iff i i)))) in
            let (r, run', sound', bare', grows) =
              build_states-Sound t.0 ps b.sound b.bare
                (λ j held. inside j (rw (own, has, own_elems) (ground (arith, held)))) in
            (
              (r.0, some t.1.index ∷ r.1),
              rw (own, build_states_for_each_production) (rw run (rw run' refl)),
              sound',
              bare',
              Grows-trans states t.0 r.0 b.grows grows,
            )
      ]

-- `build_LR_sets` ends, and behind any symbols its automaton is in the state of exactly the items that these
-- symbols reach from the first rule, or in no state where they reach none.
pub build_lr_sets-Ends :
    (libc : Qsort) (g : Grammar) (r : ℕ)
    → first_rule g ≡ some r
    → (states : List State) × (own : List (Option ℕ)) × (build_lr_sets libc g ≡ some (states, own))
      × ((w : List Symbol) → Ends g (first_item r) states w (state_after states w))
unfolding build_lr_sets
build_lr_sets-Ends libc g r first_rule_of =
    let kernel = first_item r ∷ own_elems g.productions in
    let in_kernel = λ (i : Item) (held : has kernel i ≡ true).
      let h : has (all libc g kernel) i ≡ true = has-append kernel _ i ∙ ground (arith, held) in
      h in
    let (one, run, b) =
      begin_with libc g kernel [] (first_item r)
        (record {
          table = record { numbered = λ k s e. absurd (cc e); unique = λ j k s t e. absurd (cc e) };
          fit = λ k s e. absurd (cc e);
        })
        (λ k u e. absurd (cc e))
        (in_kernel (first_item r) (ground (arith, item_eq_iff (first_item r) (first_item r)))) in
    let (own, run_own, sound, bare, grows) =
      build_states-Sound libc g kernel one.0 g.productions b.sound b.bare
        (λ i held. in_kernel i (ground (arith, held))) in
    let (states, run_new, sound', p, grows') =
      build_new_states-Progress libc g kernel (state_fuel g kernel) 0 own.0 sound
        (record {
          done = λ j u at h. absurd (omega arith);
          todo = λ j u at h. bare j u at;
          begun = omega arith;
        })
        (omega arith) in
    let listed : get_elem? one.0 0 ≡ some one.1 =
      subst (λ k. get_elem? one.0 k ≡ some one.1) (b.only refl) b.listed in
    let (s1, at1, e1) = grows.same 0 one.1 listed in
    let (s2, at2, e2) = grows'.same 0 s1 at1 in
    let edges =
      sort_gotos-AllEdges libc g states
        (λ k s at. p.done k s at (get_elem?-within states k s at)) in
    (
      sort_gotos libc g states,
      own.1,
      rw (first_rule_of, build_lr_sets) (rw run (rw run_own (rw run_new refl))),
      state_after-Ends g (first_item r) libc (sort_gotos libc g states) _ edges
          (at_sorted libc g states 0 s2 at2)
          (λ i. (
            λ held. (b.exact i).0 (subst (λ l. has l i ≡ true) (e2 ∙ e1) held),
            λ l. subst (λ q. has q i ≡ true) (sym (e2 ∙ e1)) ((b.exact i).1 l),
          )),
    )
