-- ===== src/Lr/Automaton/Visit.antt =====
-- One round of `build_new_states`: a state gets its gotos.
use mathlib.Core.Path.{subst}
use dparser.Prelude.{
  ℕ, ◌+◌, ◌≤◌, ◌≡◌, refl, sym, ap, ◌∙◌, inl, inr, Bool, true, false, List, [], ◌∷◌, ◌++◌, Option,
  none, some, arith, set, get_elem?, get_elem?-set_self, if◌then◌else◌, Bool-cases, Option-cases,
  has, nat_eq,
}
use dparser.Libc.{Qsort, count_if}
use dparser.Gram.{Symbol, Grammar, Item, symbol_eq, item_Eq}
use dparser.Lr.{Goto, State, insert_item, next_elem}
use dparser.Lr.Closure.{IsValid}
use dparser.Lr.Closure.Build.{IsTable}
use dparser.Lr.Gotos.{stands_before, state_or_new, advance_items, add_goto, met, build_state_for}
use dparser.Lr.Gotos.Target.{
  items_of, advance_items-Advances, Leads-same, get_elem?-append, get_elem?-within, gained-IsTable,
}
use dparser.Lr.Actions.{goto_state}
use dparser.Lr.Automaton.{all_items}
use dparser.Lr.Automaton.Universe.{advanced-all_items}
use dparser.Lr.Automaton.Count.{Fits, AllFit}
use dparser.Lr.Automaton.Added.{Added, build_closure-Added, insert_item-gotos}
use dparser.Lr.Automaton.Keeps.{
  Edge, leads, Keeps, Edge-Keeps, set_new, set-Keeps, grown-Keeps, Keeps-trans,
}

abbrev pub by : Symbol → Goto → Bool
by x q = symbol_eq q.elem x

pub goto_state-append-none :
    (gotos : List Goto) (q : Goto) (y : Symbol)
    → goto_state gotos y ≡ none
    → goto_state (gotos ++ q ∷ []) y ≡ (if by y q then some q.state else none)
unfolding goto_state
goto_state-append-none [] q y e = refl
goto_state-append-none (p ∷ gotos) q y e = elim (Bool-cases (by y p)) [
  | inl here ↦ absurd (cc (rw (here, goto_state) at e))
  | inr other ↦
      rw (other, goto_state) (goto_state-append-none gotos q y (rw (other, goto_state) at e))
]

pub goto_state-append-some :
    (gotos : List Goto) (q : Goto) (y : Symbol) (t : ℕ)
    → goto_state gotos y ≡ some t
    → goto_state (gotos ++ q ∷ []) y ≡ some t
unfolding goto_state
goto_state-append-some [] q y t e = absurd (cc e)
goto_state-append-some (p ∷ gotos) q y t e = elim (Bool-cases (by y p)) [
  | inl here ↦ rw (here, goto_state) (rw (here, goto_state) at e)
  | inr other ↦
      rw (other, goto_state) (goto_state-append-some gotos q y t (rw (other, goto_state) at e))
]

pub count-append :
    (gotos : List Goto) (q : Goto) (y : Symbol)
    → count_if (by y) (gotos ++ q ∷ []) ≡ count_if (by y) gotos + (if by y q then 1 else 0)
count-append [] q y = ground arith
count-append (p ∷ gotos) q y = ground (arith, count-append gotos q y)

pub count_of_none :
    (gotos : List Goto) (y : Symbol) → goto_state gotos y ≡ none → count_if (by y) gotos ≡ 0
unfolding goto_state
count_of_none [] y e = refl
count_of_none (p ∷ gotos) y e = elim (Bool-cases (by y p)) [
  | inl here ↦ absurd (cc (rw (here, goto_state) at e))
  | inr other ↦ rw other (count_of_none gotos y (rw (other, goto_state) at e))
]

advance_items-gotos :
    (g : Grammar) (x : Symbol) (items : List Item) (ss : Option State)
    → (state_or_new ss).gotos ≡ []
    → (state_or_new (advance_items g x items ss)).gotos ≡ []
unfolding advance_items
advance_items-gotos g x [] ss h = h
advance_items-gotos g x (i ∷ items) ss h = elim (Bool-cases (stands_before g x i)) [
  | inl here ↦
      rw (here, advance_items)
        (advance_items-gotos g x items (some (insert_item (state_or_new ss) (next_elem g i)).0)
          (insert_item-gotos (state_or_new ss) (next_elem g i) ∙ h))
  | inr other ↦ rw (other, advance_items) (advance_items-gotos g x items ss h)
]

-- State `k`, with the gotos by the elements that stand behind the point in `seen`.
pub record Row (g : Grammar) (states : List State) (k : ℕ) (items seen : List Item) : Type 0 where
  pub source : State
  pub here : get_elem? states k ≡ some source
  pub same : source.items ≡ items
  pub edges :
      (x : Symbol)
      → met g x seen ≡ true
      → (t : ℕ) × (goto_state source.gotos x ≡ some t) × Edge g states items x (some t)
  pub others : (x : Symbol) → met g x seen ≡ false → goto_state source.gotos x ≡ none
  pub unique : (x : Symbol) → count_if (by x) source.gotos ≤ 1

-- The table, with states that hold items of `all`.
pub record Sound (all : List Item) (states : List State) : Type 0 where
  pub table : IsTable states
  pub fit : AllFit all states

module _ (libc : Qsort) (g : Grammar) (kernel : List Item) where
  abbrev pub all : List Item
  all = all_items g kernel

  kept_at :
      (states : List State) (ss : State) (r : List State × State) (k : ℕ) (s : State)
      → Added g all states ss.items r
      → get_elem? states k ≡ some s
      → get_elem? r.0 k ≡ some s
  kept_at states ss r k s added here = elim added.grown [
    | inl same ↦ rw same here
    | inr (grown, _) ↦ rw grown (get_elem?-append states (r.1 ∷ []) k s here)
  ]

  gains :
      (states : List State) (k : ℕ) (s : State) (t : ℕ) (x : Symbol)
      → Sound all states
      → get_elem? states k ≡ some s
      → Sound all (set states k (add_goto s t x))
  unfolding add_goto
  gains states k s t x sound here = record {
    table = gained-IsTable states k s t x here sound.table;
    fit = λ j u at. elim (set_new states k j s (add_goto s t x) u here at) [
      | inl (_, this) ↦
          let f = sound.fit k s here in
          subst (Fits all) this (record { once = f.once; inside = f.inside })
      | inr (_, old) ↦ sound.fit j u old
    ];
  }

  -- A goto of state `k` by an element before which one of its items stands.
  pub build_state_for-Edge :
      (states : List State) (k : ℕ) (s : State) (x : Symbol)
      → Sound all states
      → get_elem? states k ≡ some s
      → met g x s.items ≡ true
      → (states' : List State) × (build_state_for libc g states k s x ≡ some states')
        × Sound all states'
        × Keeps k states states'
        × (to : ℕ) × (get_elem? states' k ≡ some (add_goto s to x))
        × Edge g states' s.items x (some to)
  unfolding build_state_for add_goto
  build_state_for-Edge states k s x sound here stands =
      let h = advance_items-Advances g x s.items none (record { once = refl; same = λ i. refl }) in
      elim (Option-cases (advance_items g x s.items none)) [
        | inl nothing ↦ absurd (cc ((h.found nothing).0, stands))
        | inr (ss, found) ↦
            let valid : IsValid ss = subst (λ o. IsValid (state_or_new o)) found h.valid in
            let members =
              λ (i : Item). sym (ap (λ o. has (items_of o) i) found) ∙ h.members i ∙ ground arith in
            let gotos : ss.gotos ≡ [] =
              subst (λ o. (state_or_new o).gotos ≡ []) found
                (advance_items-gotos g x s.items none refl) in
            let (r, run, added) =
              build_closure-Added libc g kernel states ss sound.table sound.fit valid gotos
                (λ i held.
                  advanced-all_items g kernel x s.items i (sound.fit k s here).inside
                    (sym (members i) ∙ held)) in
            let keeps = grown-Keeps g all k states ss.items r added in
            let here' = kept_at states ss r k s added here in
            let v = add_goto s r.1.index x in
            let keeps' = set-Keeps r.0 k s v here' refl in
            let edge : Edge g r.0 s.items x (some r.1.index) = leads added.listed (λ i. (
              λ held. Leads-same g _ _ members ((added.exact i).0 held),
              λ l. (added.exact i).1 (Leads-same g _ _ (λ j. sym (members j)) l),
            )) in
            (
              set r.0 k v,
              rw (found, build_state_for) (rw run refl),
              gains r.0 k s r.1.index x (record { table = added.table; fit = added.fit }) here',
              Keeps-trans k s states r.0 (set r.0 k v) here keeps keeps',
              r.1.index,
              get_elem?-set_self r.0 k v (get_elem?-within r.0 k s here'),
              Edge-Keeps g k r.0 (set r.0 k v) s.items x (some r.1.index) keeps' edge,
            )
      ]
