-- ===== src/Lr/Actions/Acts.antt =====
-- Which actions a state gets: the reductions of its complete items and the shifts of its gotos.
use dparser.Prelude.{
  ℕ, ◌≡◌, refl, sym, ap, ◌∙◌, inl, inr, Bool, false, not, ◌&&◌, ◌||◌, List, [], ◌∷◌, ◌++◌, Option,
  none, some, ◌==◌, arith, ltb, Bool-cases, Option-cases,
}
use dparser.Libc.{Qsort, count_if, Ascending}
use dparser.Gram.{Grammar, Item, nterm, term, rule_of, symbol_at, symbol_eq}
use dparser.Lr.{ActionKind, Action, Goto, State, shift, reduce}
use dparser.Lr.Actions.{
  Numbering, kind_eq, same, has_rule, has_shift, actioncmp, new_action, add_action, add_shifts,
  add_item_actions, add_items_actions, sort_actions, build_state_actions,
}
use dparser.Lr.Actions.Keys.{actioncmp-IsOrder}

-- An item of the list ends the rule `r`, of a production other than the first.
abbrev pub completes : Grammar → List Item → ℕ → Bool
completes g [] r = false
completes g (i ∷ items) r =
    (elim (symbol_at g i) [
      | some _ ↦ false
      | none ↦ not ((rule_of g i.rule).prod == 0) && i.rule == r
    ])
    || completes g items r

-- An item of the list ends a rule of the first production.
abbrev pub accepts_all : Grammar → List Item → Bool
accepts_all g [] = false
accepts_all g (i ∷ items) =
    (elim (symbol_at g i) [ some _ ↦ false | none ↦ (rule_of g i.rule).prod == 0 ])
    || accepts_all g items

-- A goto leads to the state by the terminal.
abbrev pub leads_by : List Goto → ℕ → ℕ → Bool
leads_by [] t ss = false
leads_by (to ∷ gotos) t ss = (symbol_eq to.elem (term t) && to.state == ss) || leads_by gotos t ss

-- A goto leads to the state by the terminal, which stands before the end of an item.
abbrev pub wants : Grammar → List Goto → List Item → ℕ → ℕ → Bool
wants g gotos [] t ss = false
wants g gotos (i ∷ items) t ss =
    (elim (symbol_at g i) [ none ↦ false | some e ↦ symbol_eq e (term t) && leads_by gotos t ss ])
    || wants g gotos items t ss

has_rule-append :
    (xs ys : List Action) (r : Option ℕ) → has_rule (xs ++ ys) r ≡ (has_rule xs r || has_rule ys r)
has_rule-append [] ys r = refl
has_rule-append (x ∷ xs) ys r = ground (arith, has_rule-append xs ys r)

has_shift-append :
    (xs ys : List Action) (k : ActionKind) (t ss : Option ℕ)
    → has_shift (xs ++ ys) k t ss ≡ (has_shift xs k t ss || has_shift ys k t ss)
has_shift-append [] ys k t ss = refl
has_shift-append (x ∷ xs) ys k t ss = ground (arith, has_shift-append xs ys k t ss)

-- What one step adds: reductions, shifts and acceptance.
record Adds (red : ℕ → Bool) (sh : ℕ → ℕ → Bool) (acc : Bool) (s s' : State) : Type 0 where
  items : s'.items ≡ s.items
  gotos : s'.gotos ≡ s.gotos
  reduces :
      (r : ℕ) → has_rule s'.reduce_actions (some r) ≡ (red r || has_rule s.reduce_actions (some r))
  shifts :
      (t ss : ℕ)
      → has_shift s'.shift_actions shift (some t) (some ss)
        ≡ (sh t ss || has_shift s.shift_actions shift (some t) (some ss))
  accepts : s'.accept ≡ (acc || s.accept)

add_reduce-Adds :
    (n : Numbering) (s : State) (r : ℕ)
    → Adds (λ q. r == q) (λ t ss. false) false s (add_action (n, s) reduce none (some r) none).1
unfolding add_action new_action
add_reduce-Adds n s r = elim (Bool-cases (has_rule s.reduce_actions (some r))) [
  | inl old ↦ rw old (record {
    items = refl;
    gotos = refl;
    reduces = λ q. ground (arith);
    shifts = λ t ss. refl;
    accepts = refl;
  })
  | inr new ↦ rw new (record {
    items = refl;
    gotos = refl;
    reduces = λ q. ground (
      arith,
      has_rule-append s.reduce_actions ((new_action n reduce none (some r) none).1 ∷ []) (some q),
    );
    shifts = λ t ss. refl;
    accepts = refl;
  })
]

add_shift-Adds :
    (n : Numbering) (s : State) (t to : ℕ)
    → Adds
        (λ q. false)
        (λ u ss. t == u && to == ss)
        false
        s
        (add_action (n, s) shift (some t) none (some to)).1
unfolding add_action new_action
add_shift-Adds n s t to = elim (Bool-cases (has_shift s.shift_actions shift (some t) (some to))) [
  | inl old ↦ rw old (record {
    items = refl;
    gotos = refl;
    reduces = λ q. refl;
    shifts = λ u ss. ground arith;
    accepts = refl;
  })
  | inr new ↦ rw new (record {
    items = refl;
    gotos = refl;
    reduces = λ q. refl;
    shifts = λ u ss. ground (
      arith,
      has_shift-append s.shift_actions ((new_action n shift (some t) none (some to)).1 ∷ []) shift
          (some u) (some ss),
    );
    accepts = refl;
  })
]

Adds-refl : (s : State) → Adds (λ r. false) (λ t ss. false) false s s
Adds-refl s = record {
  items = refl;
  gotos = refl;
  reduces = λ r. refl;
  shifts = λ t ss. refl;
  accepts = refl;
}

-- One step and then another.
Adds-both :
    {red red' : ℕ → Bool} {sh sh' : ℕ → ℕ → Bool} {acc acc' : Bool} {s s' s'' : State}
    → Adds red sh acc s s'
    → Adds red' sh' acc' s' s''
    → Adds (λ r. red r || red' r) (λ t ss. sh t ss || sh' t ss) (acc || acc') s s''
Adds-both h k = record {
  items = k.items ∙ h.items;
  gotos = k.gotos ∙ h.gotos;
  reduces = λ r. ground (arith, h.reduces r, k.reduces r);
  shifts = λ t ss. ground (arith, h.shifts t ss, k.shifts t ss);
  accepts = ground (arith, h.accepts, k.accepts);
}

-- The same facts under other names.
Adds-same :
    {red red' : ℕ → Bool} {sh sh' : ℕ → ℕ → Bool} {acc acc' : Bool} {s s' : State}
    → ((r : ℕ) → red' r ≡ red r)
    → ((t ss : ℕ) → sh' t ss ≡ sh t ss)
    → acc' ≡ acc
    → Adds red sh acc s s'
    → Adds red' sh' acc' s s'
Adds-same er es ea h = record {
  items = h.items;
  gotos = h.gotos;
  reduces = λ r. rw (er r) (h.reduces r);
  shifts = λ t ss. rw (es t ss) (h.shifts t ss);
  accepts = rw ea h.accepts;
}

add_shifts-Adds :
    (t : ℕ) (gotos : List Goto) (n : Numbering) (s : State)
    → Adds
        (λ r. false)
        (λ u ss. t == u && leads_by gotos t ss)
        false
        s
        (add_shifts t gotos (n, s)).1
unfolding add_shifts
add_shifts-Adds t [] n s = Adds-same (λ r. refl) (λ u ss. ground arith) refl (Adds-refl s)
add_shifts-Adds t (to ∷ gotos) n s = elim (Bool-cases (symbol_eq to.elem (term t))) [
  | inl here ↦
      let x = add_action (n, s) shift (some t) none (some to.state) in
      rw (here, add_shifts)
        (Adds-same (λ r. refl) (λ u ss. ground arith) refl
          (Adds-both (add_shift-Adds n s t to.state) (add_shifts-Adds t gotos x.0 x.1)))
  | inr other ↦
      rw (other, add_shifts)
        (Adds-same (λ r. refl) (λ u ss. ground arith) refl (add_shifts-Adds t gotos n s))
]

module _ (g : Grammar) where
  add_item_actions-Adds :
      (i : Item) (n : Numbering) (s : State)
      → Adds
          (completes g (i ∷ []))
          (wants g s.gotos (i ∷ []))
          (accepts_all g (i ∷ []))
          s
          (add_item_actions g i (n, s)).1
  unfolding add_item_actions
  add_item_actions-Adds i n s = elim (Option-cases (symbol_at g i)) [
    | inr (nterm p, at) ↦
        rw (at, add_item_actions)
          (Adds-same {red = λ q. false} {sh = λ t ss. false} (λ r. ground arith)
            (λ t ss. ground arith) refl (Adds-refl s))
    | inr (term t, at) ↦
        rw (at, add_item_actions)
          (Adds-same {red = λ q. false} {sh = λ u ss. t == u && leads_by s.gotos t ss}
            (λ r. ground arith) (λ u ss. ground arith) refl (add_shifts-Adds t s.gotos n s))
    | inl end ↦ elim (Bool-cases ((rule_of g i.rule).prod == 0)) [
      | inl first ↦
          rw (end, first, add_item_actions)
            (record {
              items = refl;
              gotos = refl;
              reduces = λ r. ground arith;
              shifts = λ t ss. ground arith;
              accepts = refl;
            })
      | inr later ↦
          rw (end, later, add_item_actions)
            (Adds-same {red = λ q. i.rule == q} {sh = λ t ss. false} (λ r. ground arith)
              (λ t ss. ground arith) refl (add_reduce-Adds n s i.rule))
    ]
  ]

  add_items_actions-Adds :
      (items : List Item) (n : Numbering) (s : State)
      → Adds
          (completes g items)
          (wants g s.gotos items)
          (accepts_all g items)
          s
          (add_items_actions g items (n, s)).1
  unfolding add_items_actions
  add_items_actions-Adds [] n s = Adds-refl s
  add_items_actions-Adds (i ∷ items) n s =
      let x = add_item_actions g i (n, s) in
      let one = add_item_actions-Adds i n s in
      let rest = add_items_actions-Adds items x.0 x.1 in
      Adds-same (λ r. ground arith) (λ t ss. rw one.gotos (ground arith)) (ground arith)
        (Adds-both one rest)

has_rule-count_if :
    (xs : List Action) (r : Option ℕ) → has_rule xs r ≡ ltb 0 (count_if (λ a. same a.rule r) xs)
has_rule-count_if [] r = refl
has_rule-count_if (x ∷ xs) r = ground (arith, has_rule-count_if xs r)

abbrev is_shift : ActionKind → Option ℕ → Option ℕ → Action → Bool
is_shift kind t ss a = same a.term t && same a.state ss && kind_eq a.kind kind

has_shift-count_if :
    (xs : List Action) (k : ActionKind) (t ss : Option ℕ)
    → has_shift xs k t ss ≡ ltb 0 (count_if (is_shift k t ss) xs)
has_shift-count_if [] k t ss = refl
has_shift-count_if (x ∷ xs) k t ss = ground (arith, has_shift-count_if xs k t ss)

module _ (libc : Qsort) where
  has_rule-sort_actions :
      (xs : List Action) (r : Option ℕ) → has_rule (sort_actions libc xs) r ≡ has_rule xs r
  unfolding sort_actions
  has_rule-sort_actions xs r =
      has_rule-count_if (sort_actions libc xs) r
      ∙ ap (ltb 0) (libc.qsort-count Action actioncmp (λ a. same a.rule r) xs)
      ∙ sym (has_rule-count_if xs r)

  has_shift-sort_actions :
      (xs : List Action) (k : ActionKind) (t ss : Option ℕ)
      → has_shift (sort_actions libc xs) k t ss ≡ has_shift xs k t ss
  unfolding sort_actions
  has_shift-sort_actions xs k t ss =
      has_shift-count_if (sort_actions libc xs) k t ss
      ∙ ap (ltb 0) (libc.qsort-count Action actioncmp (is_shift k t ss) xs)
      ∙ sym (has_shift-count_if xs k t ss)

  -- The actions of a state, by its items and gotos.
  pub record Acts (g : Grammar) (s s' : State) : Type 0 where
    pub reduces : (r : ℕ) → has_rule s'.reduce_actions (some r) ≡ completes g s.items r
    pub shifts :
        (t ss : ℕ)
        → has_shift s'.shift_actions shift (some t) (some ss) ≡ wants g s.gotos s.items t ss
    pub accepts : s'.accept ≡ accepts_all g s.items
    pub shifts_sorted : Ascending actioncmp s'.shift_actions
    pub reduces_sorted : Ascending actioncmp s'.reduce_actions

  -- A state without actions gets a reduction for exactly the rules that its items end, other than
  -- those of the first production, which it accepts, and a shift for exactly the gotos on a terminal
  -- of its items; the actions are sorted.
  pub build_state_actions-Acts :
      (g : Grammar) (n : Numbering) (s : State)
      → s.shift_actions ≡ []
      → s.reduce_actions ≡ []
      → s.accept ≡ false
      → Acts g s (build_state_actions libc g n s).1
  unfolding build_state_actions
  build_state_actions-Acts g n s no_shift no_reduce no_accept =
      let s' = (add_items_actions g s.items (n, s)).1 in
      let h = add_items_actions-Adds g s.items n s in
      record {
        reduces =
            λ r. has_rule-sort_actions s'.reduce_actions (some r) ∙ ground (arith, h.reduces r);
        shifts = λ t ss.
            has_shift-sort_actions s'.shift_actions shift (some t) (some ss)
            ∙ ground (arith, h.shifts t ss);
        accepts = ground (arith, h.accepts);
        shifts_sorted =
            unfold sort_actions in
            libc.qsort-Ascending Action actioncmp s'.shift_actions actioncmp-IsOrder;
        reduces_sorted =
            unfold sort_actions in
            libc.qsort-Ascending Action actioncmp s'.reduce_actions actioncmp-IsOrder;
      }
