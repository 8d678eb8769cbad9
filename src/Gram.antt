-- ===== src/Gram.antt =====
-- gram.h: the grammar as the table builder reads it, after `resolve_grammar` has numbered it.
-- A production, a terminal and a rule are their numbers. An item is an `Elem *` of a rule: the number
-- of the rule and the index of the element, which is the length of the rule for its `end`.
pub mod Nullable
pub mod Utf8
pub mod Escape
use dparser.Prelude.{
  ℕ, Bool, true, false, ◌&&◌, List, [], ◌∷◌, Option, none, some, ◌==◌, ◌≡◌, ◌↔◌, arith, get_or,
  get_elem?, length, Eq,
}

-- `kind` and `e.term_or_nterm` of an element, ELEM_NTERM or ELEM_TERM.
pub data Symbol : Type 0 where
  nterm : ℕ → Symbol
  term : ℕ → Symbol

-- `prod` and `elems` of a rule.
pub record Rule : Type 0 where
  pub prod : ℕ
  pub elems : List Symbol

-- `kind` and `string` of a terminal: TERM_STRING with its bytes, or another kind.
pub data Term : Type 0 where
  str : List ℕ → Term
  other : Term

pub record Item : Type 0 where
  pub rule : ℕ
  pub index : ℕ

-- A production: its rules, whether it is internal, an element that stands for it, and the rule by
-- which it derives the empty text.
pub record Production : Type 0 where
  pub rules : List ℕ
  pub internal : Bool
  pub elem : Option Item
  pub nullable : Option ℕ

-- Productions, rules and terminals by their numbers.
pub record Grammar : Type 0 where
  pub productions : List Production
  pub rules : List Rule
  pub terminals : List Term

abbrev pub no_rule : Rule
no_rule = record { prod = 0; elems = [] }

abbrev pub rule_of : Grammar → ℕ → Rule
rule_of g r = get_or g.rules r no_rule

abbrev pub no_production : Production
no_production = record { rules = []; internal = false; elem = none; nullable = none }

abbrev pub production_of : Grammar → ℕ → Production
production_of g p = get_or g.productions p no_production

abbrev pub rules_of : Grammar → ℕ → List ℕ
rules_of g p = (production_of g p).rules

-- The symbol of an item, `none` for ELEM_END.
unfoldable pub symbol_at : Grammar → Item → Option Symbol
symbol_at g i = get_elem? (rule_of g i.rule).elems i.index

abbrev pub symbol_eq : Symbol → Symbol → Bool
symbol_eq (nterm a) (nterm b) = a == b
symbol_eq (term a) (term b) = a == b
symbol_eq (nterm a) (term b) = false
symbol_eq (term a) (nterm b) = false

abbrev pub item_eq : Item → Item → Bool
item_eq a b = a.rule == b.rule && a.index == b.index

pub item_eq_iff : (a b : Item) → (item_eq a b ≡ true) ↔ (a ≡ b)
item_eq_iff a b = ground arith

pub symbol_eq_iff : (a b : Symbol) → (symbol_eq a b ≡ true) ↔ (a ≡ b)
symbol_eq_iff (nterm a) (nterm b) = ground arith
symbol_eq_iff (term a) (term b) = ground arith
symbol_eq_iff (nterm a) (term b) = ground arith
symbol_eq_iff (term a) (nterm b) = ground arith

instance abbrev pub item_Eq : Eq Item
item_Eq = record { beq = item_eq; beq_iff = item_eq_iff }

instance abbrev pub symbol_Eq : Eq Symbol
symbol_Eq = record { beq = symbol_eq; beq_iff = symbol_eq_iff }
