-- ===== src/Lr/Closure.antt =====
-- The closure of an item set: it ends, and it holds exactly the items that the rules lead to.
pub mod Loop
pub mod Build
use mathlib.Core.List.{append-nil, append_assoc}
use dparser.Prelude.{
  ℕ, zero, suc, ◌+◌, ◌≤◌, ◌<◌, ◌≡◌, ◌≢◌, ◌↔◌, refl, sym, ap, ◌∙◌, ◌⊎◌, inl, inr, Bool, true, false,
  not, ◌&&◌, ◌||◌, List, [], ◌∷◌, ◌++◌, map, Option, none, some, arith, ◌==◌, if◌then◌else◌, length,
  take, get_elem?, get_or, length-append, length-map, Bool-cases, Option-cases, Eq, has, distinct,
  has-append, distinct-concat, pigeonhole, beq_refl, nat_eq,
}
use dparser.Gram.{
  Symbol, Grammar, Production, Item, nterm, term, rules_of, symbol_at, item_eq, item_eq_iff,
  item_Eq,
}
use dparser.Lr.{
  State, insert_item, first_item, insert_rules, expand, closure_loop, all_rules, closure_fuel,
}

-- The items that `kernel` leads to: where a non-terminal follows the point, the starts of its rules.
pub data Leads (g : Grammar) (kernel : List Item) : Item → Type 0 where
  start : {i : Item} → has kernel i ≡ true → Leads g kernel i
  enter :
      {i : Item} {p r : ℕ}
      → Leads g kernel i
      → symbol_at g i ≡ some (nterm p)
      → has (rules_of g p) r ≡ true
      → Leads g kernel (first_item r)

-- The hash table and the list of a state hold the same items, each once.
pub record IsValid (s : State) : Type 0 where
  pub once : distinct s.items ≡ true
  pub same : (i : Item) → has s.items_hash i ≡ has s.items i

pub insert_item-IsValid : (s : State) (i : Item) → IsValid s → IsValid (insert_item s i).0
unfolding insert_item
insert_item-IsValid s i h = elim (Bool-cases (has s.items_hash i)) [
  | inl old ↦ rw old h
  | inr new ↦ rw new (record {
    once = distinct-concat s.items i h.once (sym (h.same i) ∙ new);
    same = λ j. ground (arith, h.same j, has-append s.items (i ∷ []) j);
  })
]

-- After an insertion the state holds the item and what it held.
pub has-insert_item :
    (s : State) (i j : Item)
    → IsValid s
    → has (insert_item s i).0.items j ≡ (item_eq i j || has s.items j)
unfolding insert_item
has-insert_item s i j h = ground (arith, h.same i, has-append s.items (i ∷ []) j, item_eq_iff i j)

-- Insertions only append.
insert_item-grows :
    (s : State) (i : Item) → (new : List Item) × ((insert_item s i).0.items ≡ s.items ++ new)
unfolding insert_item
insert_item-grows s i = elim (Bool-cases (has s.items_hash i)) [
  | inl old ↦ ([], rw old (sym (append-nil s.items)))
  | inr new ↦ (i ∷ [], rw new refl)
]

-- What a loop over the rules of a production does.
pub record Inserts (rs : List ℕ) (s s' : State) : Type 0 where
  pub valid : IsValid s'
  pub members : (j : Item) → has s'.items j ≡ (has (map first_item rs) j || has s.items j)
  pub grown : (new : List Item) × (s'.items ≡ s.items ++ new)

pub insert_rules-Inserts : (s : State) (rs : List ℕ) → IsValid s → Inserts rs s (insert_rules s rs)
unfolding insert_rules
insert_rules-Inserts s [] h = record {
  valid = h;
  members = λ j. refl;
  grown = ([], sym (append-nil s.items));
}
insert_rules-Inserts s (r ∷ rs) h =
    let first = insert_item-IsValid s (first_item r) h in
    let rest = insert_rules-Inserts (insert_item s (first_item r)).0 rs first in
    let (new, e) = insert_item-grows s (first_item r) in
    let (more, e') = rest.grown in
    record {
      valid = rest.valid;
      members = λ j. ground (arith, rest.members j, has-insert_item s (first_item r) j h);
      grown = (new ++ more, e' ∙ ap (λ q. q ++ more) e ∙ append_assoc s.items new more);
    }

-- The rules that an item enters.
abbrev pub rules_at : Grammar → Item → List ℕ
rules_at g i = elim (symbol_at g i) [
  | none ↦ []
  | some x ↦ elim x [ nterm p ↦ rules_of g p | term _ ↦ [] ]
]

Symbol-cases :
    (o : Option Symbol)
    → (o ≡ none) ⊎ ((p : ℕ) × (o ≡ some (nterm p))) ⊎ ((t : ℕ) × (o ≡ some (term t)))
Symbol-cases none = inl refl
Symbol-cases (some (nterm p)) = inr (inl (p, refl))
Symbol-cases (some (term t)) = inr (inr (t, refl))

pub expand-eq : (g : Grammar) (s : State) (i : Item) → expand g s i ≡ insert_rules s (rules_at g i)
unfolding expand insert_rules
expand-eq g s i = elim (Symbol-cases (symbol_at g i)) [
  | inl e ↦ rw (e, expand, rules_at)
  | inr (inl (p, e)) ↦ rw (e, expand, rules_at)
  | inr (inr (t, e)) ↦ rw (e, expand, rules_at)
]

pub rules_at-nterm :
    (g : Grammar) (i : Item) (r : ℕ)
    → has (rules_at g i) r ≡ true
    → (p : ℕ) × (symbol_at g i ≡ some (nterm p)) × (has (rules_of g p) r ≡ true)
rules_at-nterm g i r h = elim (Symbol-cases (symbol_at g i)) [
  | inl e ↦ absurd (ground arith)
  | inr (inl (p, e)) ↦ (p, e, ground arith)
  | inr (inr (t, e)) ↦ absurd (ground arith)
]

pub has-map-first_item :
    (rs : List ℕ) (r : ℕ) → has rs r ≡ true → has (map first_item rs) (first_item r) ≡ true
has-map-first_item [] r h = absurd (cc h)
has-map-first_item (q ∷ rs) r h = ground (arith, has-map-first_item rs r)

pub first_item_of_has :
    (rs : List ℕ) (i : Item)
    → has (map first_item rs) i ≡ true
    → (r : ℕ) × (has rs r ≡ true) × (first_item r ≡ i)
first_item_of_has [] i h = absurd (cc h)
first_item_of_has (q ∷ rs) i h = elim (Bool-cases (item_eq (first_item q) i)) [
  | inl here ↦ (q, ground arith, (item_eq_iff (first_item q) i).0 here)
  | inr apart ↦ let (r, held, e) = first_item_of_has rs i (ground arith) in (r, ground arith, e)
]

module _ (g : Grammar) where
  pub has-all_rules :
      (ps : List Production) (p r : ℕ) (d : Production)
      → d.rules ≡ []
      → has (get_or ps p d).rules r ≡ true
      → has (all_rules ps) r ≡ true
  has-all_rules [] p r d e h = absurd (ground arith)
  has-all_rules (q ∷ ps) zero r d e h = ground (arith, has-append q.rules (all_rules ps) r)
  has-all_rules (q ∷ ps) (suc p) r d e h =
      ground (arith, has-append q.rules (all_rules ps) r, has-all_rules ps p r d e h)

  -- All items that a closure can hold.
  abbrev pub universe : List Item → List Item
  universe kernel = kernel ++ map first_item (all_rules g.productions)

  pub Leads-universe :
      {kernel : List Item} {i : Item} → Leads g kernel i → has (universe kernel) i ≡ true
  Leads-universe {kernel} (start {i} h) =
      ground (arith, has-append kernel (map first_item (all_rules g.productions)) i)
  Leads-universe {kernel} (enter {p = p} {r = r} l e h) = ground (
    arith,
    has-append kernel (map first_item (all_rules g.productions)) (first_item r),
    has-map-first_item (all_rules g.productions) r (has-all_rules g.productions p r _ refl h),
  )
