-- ===== src/Lr/Automaton/Universe.antt =====
-- The items that the states of a grammar can hold.
use mathlib.Core.Path.{subst}
use dparser.Prelude.{
  Option-cases, ℕ, zero, suc, ◌+◌, ◌≤◌, ◌<◌, ◌≡◌, refl, sym, ap, ◌∙◌, inl, inr, true, List, [], ◌∷◌,
  ◌++◌, map, some, arith, leb, ◌==◌, ==_iff, length, lt-length, Bool-cases, has, has-append, nat_eq,
}
use dparser.Gram.{Symbol, Grammar, Item, rule_of, symbol_at, item_eq, item_eq_iff, item_Eq}
use dparser.Lr.{next_elem, first_item, all_rules}
use dparser.Lr.Closure.{Leads, start, enter, has-all_rules}
use dparser.Lr.Gotos.{stands_before}
use dparser.Lr.Gotos.Target.{advanced}
use dparser.Lr.Automaton.{items_of_rule, items_of_rules, all_items}

has-items_of_rule :
    (r n : ℕ) (i : Item) → i.rule ≡ r → i.index < n → has (items_of_rule r n) i ≡ true
has-items_of_rule r zero i e h = absurd (omega arith)
has-items_of_rule r (suc n) i e h = ground (arith, has-items_of_rule r n i)

rule_of_has : (r n : ℕ) (i : Item) → has (items_of_rule r n) i ≡ true → i.rule ≡ r
rule_of_has r zero i h = absurd (cc h)
rule_of_has r (suc n) i h = ground (arith, rule_of_has r n i)

module _ (g : Grammar) where
  has-items_of_rules :
      (rs : List ℕ) (i : Item)
      → has rs i.rule ≡ true
      → i.index ≤ length (rule_of g i.rule).elems
      → has (items_of_rules g rs) i ≡ true
  has-items_of_rules [] i h below = absurd (cc h)
  has-items_of_rules (r ∷ rs) i h below =
      let split =
        has-append (items_of_rule r (suc (length (rule_of g r).elems))) (items_of_rules g rs) i in
      elim (Bool-cases (r == i.rule)) [
        | inl here ↦
            let this : r ≡ i.rule = (==_iff r i.rule).0 here in
            let size = ap (λ q. length (rule_of g q).elems) this in
            let held =
              has-items_of_rule r (suc (length (rule_of g r).elems)) i (sym this) (omega arith) in
            split ∙ ground (arith, held)
        | inr other ↦
            let held = has-items_of_rules rs i (ground (arith, h, other)) below in
            split ∙ ground (arith, held)
      ]

  rule_of_items :
      (rs : List ℕ) (i : Item) → has (items_of_rules g rs) i ≡ true → has rs i.rule ≡ true
  rule_of_items [] i h = absurd (cc h)
  rule_of_items (r ∷ rs) i h =
      let n = suc (length (rule_of g r).elems) in
      elim (Bool-cases (has (items_of_rule r n) i)) [
        | inl here ↦ let e = rule_of_has r n i here in ground (arith, ==_iff r i.rule)
        | inr other ↦
            let later =
              rule_of_items rs i
                (ground (arith, has-append (items_of_rule r n) (items_of_rules g rs) i)) in
            ground (arith, later)
      ]

  has-map-rule :
      (items : List Item) (i : Item)
      → has items i ≡ true
      → has (map (λ (j : Item). j.rule) items) i.rule ≡ true
  has-map-rule [] i h = absurd (cc h)
  has-map-rule (j ∷ items) i h = elim (Bool-cases (item_eq j i)) [
    | inl here ↦
        let e : j.rule ≡ i.rule = ap (λ (q : Item). q.rule) ((item_eq_iff j i).0 here) in
        ground (arith, ==_iff j.rule i.rule)
    | inr other ↦
        let later = has-map-rule items i (ground (arith, h, other)) in ground (arith, later)
  ]

  module _ (kernel : List Item) where
    abbrev rules : List ℕ
    rules = map (λ (i : Item). i.rule) kernel ++ all_rules g.productions

    all_items-of_rule :
        (i : Item)
        → has rules i.rule ≡ true
        → i.index ≤ length (rule_of g i.rule).elems
        → has (all_items g kernel) i ≡ true
    all_items-of_rule i h below =
        let held = has-items_of_rules rules i h below in
        has-append kernel (items_of_rules g rules) i ∙ ground (arith, held)

    rule_of_any : (i : Item) → has (all_items g kernel) i ≡ true → has rules i.rule ≡ true
    rule_of_any i h = elim (Bool-cases (has kernel i)) [
      | inl own ↦
          let e = has-map-rule kernel i own in
          has-append (map (λ (j : Item). j.rule) kernel) (all_rules g.productions) i.rule
          ∙ ground (arith, e)
      | inr other ↦
          rule_of_items rules i
            (ground (arith, has-append kernel (items_of_rules g rules) i, h, other))
    ]

    -- Moving behind an element stays in the items.
    pub next_elem-all_items :
        (i : Item) (x : Symbol)
        → has (all_items g kernel) i ≡ true
        → symbol_at g i ≡ some x
        → has (all_items g kernel) (next_elem g i) ≡ true
    unfolding symbol_at next_elem
    next_elem-all_items i x h at =
        let inside = lt-length (rule_of g i.rule).elems i.index x at in
        let rule = rule_of_any i h in
        elim (Bool-cases (leb (length (rule_of g i.rule).elems) (i.index + 1))) [
          | inl last ↦
              rw (last, next_elem)
                (all_items-of_rule (record i { index = length (rule_of g i.rule).elems }) rule
                  (omega arith))
          | inr more ↦
              rw (more, next_elem)
                (all_items-of_rule (record i { index = i.index + 1 }) rule (omega arith))
        ]

    pub Leads-all_items :
        {items : List Item} {i : Item}
        → Leads g items i
        → ((j : Item) → has items j ≡ true → has (all_items g kernel) j ≡ true)
        → has (all_items g kernel) i ≡ true
    Leads-all_items (start {i} held) sub = sub i held
    Leads-all_items (enter {i} {p} {r} l at member) sub =
        let listed = has-all_rules g g.productions p r _ refl member in
        let rule : has rules r ≡ true =
          has-append (map (λ (j : Item). j.rule) kernel) (all_rules g.productions) r
          ∙ ground (arith, listed) in
        all_items-of_rule (first_item r) rule (omega arith)

    moved-all_items :
        (x : Symbol) (i : Item)
        → has (all_items g kernel) i ≡ true
        → stands_before g x i ≡ true
        → has (all_items g kernel) (next_elem g i) ≡ true
    unfolding stands_before
    moved-all_items x i h stands = elim (Option-cases (symbol_at g i)) [
      | inl end ↦ absurd (cc (rw (end, stands_before) at stands))
      | inr (y, at) ↦ next_elem-all_items i y h at
    ]

    pub advanced-all_items :
        (x : Symbol) (items : List Item) (j : Item)
        → ((i : Item) → has items i ≡ true → has (all_items g kernel) i ≡ true)
        → has (advanced g x items) j ≡ true
        → has (all_items g kernel) j ≡ true
    advanced-all_items x [] j sub h = absurd (cc h)
    advanced-all_items x (i ∷ items) j sub h =
        let rest = λ (held : has (advanced g x items) j ≡ true).
          advanced-all_items x items j (λ k k_held. sub k (ground (arith, k_held))) held in
        elim (Bool-cases (stands_before g x i)) [
          | inr other ↦ rest (ground (arith, h, other))
          | inl here ↦
              let moved = moved-all_items x i (sub i (ground (arith, item_eq_iff i i))) here in
              elim (Bool-cases (item_eq (next_elem g i) j)) [
                | inl this ↦
                    subst (λ k. has (all_items g kernel) k ≡ true)
                      ((item_eq_iff (next_elem g i) j).0 this) moved
                | inr apart ↦ rest (ground (arith, h, here, apart))
              ]
        ]
