-- ===== src/Lr/Gotos/Target.antt =====
-- The state to which a goto leads.
use mathlib.Core.Path.{subst}
use dparser.Prelude.{
  ℕ, zero, suc, ◌<◌, ◌≡◌, ◌↔◌, refl, sym, ap, ◌∙◌, ◌⊎◌, inl, inr, true, false, ◌||◌, List, [], ◌∷◌,
  ◌++◌, Option, none, some, ◌==◌, ==_iff, if◌then◌else◌, arith, length, set, get_elem?,
  get_elem?-set_self, get_elem?-set_ne, Bool-cases, Option-cases, has,
}
use dparser.Libc.{Qsort}
use dparser.Gram.{Symbol, Grammar, Item, item_Eq}
use dparser.Lr.{State, insert_item, next_elem}
use dparser.Lr.Closure.{Leads, start, enter, IsValid, insert_item-IsValid, has-insert_item}
use dparser.Lr.Closure.Build.{IsTable, build_closure-Leads}
use dparser.Lr.Gotos.{stands_before, state_or_new, advance_items, add_goto, met, build_state_for}

-- The items of a list that stand before `x`, moved behind it.
abbrev pub advanced : Grammar → Symbol → List Item → List Item
advanced g x [] = []
advanced g x (i ∷ items) =
    let rest = advanced g x items in if stands_before g x i then next_elem g i ∷ rest else rest

abbrev pub items_of : Option State → List Item
items_of none = []
items_of (some s) = s.items

pub record Advances (g : Grammar) (x : Symbol) (items : List Item) (ss ss' : Option State)
    : Type 0 where
  pub valid : IsValid (state_or_new ss')
  pub members :
      (j : Item) → has (items_of ss') j ≡ (has (advanced g x items) j || has (items_of ss) j)
  pub found : (ss' ≡ none) → (met g x items ≡ false) × (ss ≡ none)

pub advance_items-Advances :
    (g : Grammar) (x : Symbol) (items : List Item) (ss : Option State)
    → IsValid (state_or_new ss)
    → Advances g x items ss (advance_items g x items ss)
unfolding advance_items met
advance_items-Advances g x [] ss h = record {
  valid = h;
  members = λ j. refl;
  found = λ e. (refl, e);
}
advance_items-Advances g x (i ∷ items) ss h = elim (Bool-cases (stands_before g x i)) [
  | inr other ↦
      let rest = advance_items-Advances g x items ss h in
      rw (other, advance_items)
        (record {
          valid = rest.valid;
          members = λ j. ground (arith, rest.members j);
          found = λ e. ground (arith, rest.found e);
        })
  | inl here ↦
      let t = (insert_item (state_or_new ss) (next_elem g i)).0 in
      let rest =
        advance_items-Advances g x items (some t)
          (insert_item-IsValid (state_or_new ss) (next_elem g i) h) in
      rw (here, advance_items)
        (record {
          valid = rest.valid;
          members = λ j.
              rest.members j
              ∙ ground
                  (arith, has-insert_item (state_or_new ss) (next_elem g i) j h, items_same ss j);
          found = λ e. absurd (cc ((rest.found e).1));
        })
]
  where
    items_same :
        (ss : Option State) (j : Item) → has (state_or_new ss).items j ≡ has (items_of ss) j
    items_same none j = refl
    items_same (some s) j = refl

-- What leads on depends only on which items a list holds.
pub Leads-same :
    (g : Grammar) (kernel kernel' : List Item)
    → ((i : Item) → has kernel i ≡ has kernel' i)
    → {i : Item} → Leads g kernel i
    → Leads g kernel' i
Leads-same g kernel kernel' e (start {i} held) = start (sym (e i) ∙ held)
Leads-same g kernel kernel' e (enter l at member) =
    enter (Leads-same g kernel kernel' e l) at member

pub get_elem?-append :
    (xs ys : List State) (k : ℕ) (s : State)
    → get_elem? xs k ≡ some s
    → get_elem? (xs ++ ys) k ≡ some s
get_elem?-append [] ys k s e = absurd (cc e)
get_elem?-append (x ∷ xs) ys zero s e = e
get_elem?-append (x ∷ xs) ys (suc k) s e = get_elem?-append xs ys k s e

pub get_elem?-within :
    (xs : List State) (k : ℕ) (s : State) → get_elem? xs k ≡ some s → k < length xs
get_elem?-within [] k s e = absurd (cc e)
get_elem?-within (x ∷ xs) zero s e = omega arith
get_elem?-within (x ∷ xs) (suc k) s e = omega (arith, get_elem?-within xs k s e)

-- A state of the table takes a goto: items and numbers stay.
module _ (states : List State) (k : ℕ) (s : State) (to : ℕ) (x : Symbol) where
  abbrev pub gained : List State
  gained = set states k (add_goto s to x)

  -- The state at an index before and after.
  Stayed : State → State → Type 0
  Stayed u u' = (u'.items ≡ u.items) × (u'.index ≡ u.index)

  module _ (here : get_elem? states k ≡ some s) where
    pub state_after :
        (j : ℕ) (u : State)
        → get_elem? states j ≡ some u
        → (u' : State) × (get_elem? gained j ≡ some u') × (u'.items ≡ u.items)
    unfolding add_goto
    state_after j u at = elim (Bool-cases (k == j)) [
      | inl self ↦
          let e : k ≡ j = (==_iff k j).0 self in
          let at_k : get_elem? states k ≡ some u = rw e at in
          let this : s ≡ u = cc (here, at_k) in
          (
            add_goto s to x,
            subst (λ n. get_elem? gained n ≡ some (add_goto s to x)) e
                (get_elem?-set_self states k _ (get_elem?-within states k s here)),
            ap (λ (v : State). v.items) this,
          )
      | inr other ↦
          (u, get_elem?-set_ne states (add_goto s to x) (λ e. ground (arith, e)) ∙ at, refl)
    ]

    pub state_before :
        (j : ℕ) (u' : State)
        → get_elem? gained j ≡ some u'
        → (u : State) × (get_elem? states j ≡ some u) × (u'.items ≡ u.items) × (u'.index ≡ u.index)
    unfolding add_goto
    state_before j u' at = elim (Bool-cases (k == j)) [
      | inl self ↦
          let e : k ≡ j = (==_iff k j).0 self in
          let set_there : get_elem? gained k ≡ some (add_goto s to x) =
            get_elem?-set_self states k _ (get_elem?-within states k s here) in
          let at_k : get_elem? gained k ≡ some u' =
            subst (λ n. get_elem? gained n ≡ some u') (sym e) at in
          let this : add_goto s to x ≡ u' = cc (set_there, at_k) in
          (
            s,
            subst (λ n. get_elem? states n ≡ some s) e here,
            sym (ap (λ (v : State). v.items) this),
            sym (ap (λ (v : State). v.index) this),
          )
      | inr other ↦ (
        u',
        sym (get_elem?-set_ne states (add_goto s to x) (λ e. ground (arith, e))) ∙ at,
        refl,
        refl,
      )
    ]

    pub gained-IsTable : IsTable states → IsTable gained
    gained-IsTable h = record {
      numbered = λ j u' at.
          let (u, before, items, index) = state_before j u' at in index ∙ h.numbered j u before;
      unique = λ i j u' v' at at' e.
          let (u, before, items, index) = state_before i u' at in
          let (v, before', items', index') = state_before j v' at' in
          h.unique i j u v before before' (sym items ∙ e ∙ items');
    }

-- State `k` of the table, which was `s`, has one more goto, and it leads to the closure of the items
-- behind `x`.
pub record Goes (g : Grammar) (s : State) (k : ℕ) (x : Symbol) (states : List State) : Type 0 where
  pub to : ℕ
  pub target : State
  pub at_target : get_elem? states to ≡ some target
  pub exact : (i : Item) → (has target.items i ≡ true) ↔ Leads g (advanced g x s.items) i
  pub source : State
  pub at_source : get_elem? states k ≡ some source
  pub gotos : source.gotos ≡ s.gotos ++ record { elem = x; state = to } ∷ []
  pub items : source.items ≡ s.items

module _ (libc : Qsort) (g : Grammar) (states : List State) (k : ℕ) (s : State) (x : Symbol) where
  build_state_for-some :
      (ss : State)
      → IsTable states
      → get_elem? states k ≡ some s
      → advance_items g x s.items none ≡ some ss
      → IsValid ss
      → ((i : Item) → has ss.items i ≡ has (advanced g x s.items) i)
      → (states' : List State) × (build_state_for libc g states k s x ≡ some states')
        × IsTable states'
        × Goes g s k x states'
  unfolding build_state_for add_goto
  build_state_for-some ss table here found valid members =
      let (r, run, table', listed, exact, new, appended) =
        build_closure-Leads libc g states ss table valid in
      let here' : get_elem? r.0 k ≡ some s = rw appended (get_elem?-append states new k s here) in
      let (target, at_target, items) = state_after r.0 k s r.1.index x here' r.1.index r.1 listed in
      (
        set r.0 k (add_goto s r.1.index x),
        rw (found, build_state_for) (rw run refl),
        gained-IsTable r.0 k s r.1.index x here' table',
        record {
          to = r.1.index;
          target = target;
          at_target = at_target;
          exact = λ i. (
            λ held. Leads-same g _ _ members ((exact i).0 (sym (ap (λ q. has q i) items) ∙ held)),
            λ l. ap (λ q. has q i) items ∙ (exact i).1 (Leads-same g _ _ (λ j. sym (members j)) l),
          );
          source = add_goto s r.1.index x;
          at_source = get_elem?-set_self r.0 k _ (get_elem?-within r.0 k s here');
          gotos = refl;
          items = refl;
        },
      )

  -- For state `k` of a table, `build_state_for` ends with a table: if no item of the state stands
  -- before `x`, nothing changes; otherwise the state gets a goto by `x` to a state of the table that
  -- holds exactly what its items, moved behind `x`, lead to.
  pub build_state_for-Goes :
      IsTable states
      → get_elem? states k ≡ some s
      → (states' : List State) × (build_state_for libc g states k s x ≡ some states')
        × IsTable states'
        × (((met g x s.items ≡ false) × (states' ≡ states)) ⊎ Goes g s k x states')
  unfolding build_state_for
  build_state_for-Goes table here =
      let h = advance_items-Advances g x s.items none (record { once = refl; same = λ i. refl }) in
      elim (Option-cases (advance_items g x s.items none)) [
        | inl nothing ↦
            (states, rw (nothing, build_state_for) refl, table, inl ((h.found nothing).0, refl))
        | inr (ss, found) ↦
            let valid : IsValid ss = subst (λ o. IsValid (state_or_new o)) found h.valid in
            let members =
              λ (i : Item). sym (ap (λ o. has (items_of o) i) found) ∙ h.members i ∙ ground arith in
            let (states', run, table', goes) =
              build_state_for-some ss table here found valid members in
            (states', run, table', inr goes)
      ]
