-- ===== src/Parse/Priority/Rule.antt =====
-- The rule behind the table of `check_child`.
use dparser.Prelude.{ℕ, ◌≡◌, Bool, true, false, not, ◌&&◌, ◌||◌, arith, ltb, ◌==◌, if◌then◌else◌}
use dparser.Parse.Priority.{bit, child_table, parent_row, child_row, relation, check_child}

-- A binary operator associates to a side; a unary one that associates to the left stands behind its
-- operand, and one that associates to the right stands before it.
pub data Operator : Type 0 where
  binary_left binary_right unary_left unary_right : Operator

-- ASSOC_BINARY_LEFT, ASSOC_BINARY_RIGHT, ASSOC_UNARY_LEFT and ASSOC_UNARY_RIGHT
abbrev pub kind : Operator → ℕ
kind binary_left = 17
kind binary_right = 18
kind unary_left = 9
kind unary_right = 10

abbrev pub is_binary : Operator → Bool
is_binary binary_left = true
is_binary binary_right = true
is_binary _ = false

-- The parent's operator stands to the right of the child.
abbrev pub operator_is_right : Operator → Bool → Bool
operator_is_right binary_left child_on_right = not child_on_right
operator_is_right binary_right child_on_right = not child_on_right
operator_is_right unary_left child_on_right = true
operator_is_right unary_right child_on_right = false

-- An operand of the child stands next to the parent's operator on that side.
abbrev pub exposes : Operator → Bool → Bool
exposes unary_left on_right = not on_right
exposes unary_right on_right = on_right
exposes _ on_right = true

-- The associativity that decides between equal priorities.
abbrev pub groups : Operator → Operator → Bool → Bool
groups parent binary_left on_right = is_binary parent && on_right
groups parent binary_right on_right = is_binary parent && not on_right
groups parent _ on_right = true

-- A child is legal if no operand of it stands next to the parent's operator, or if it binds tighter,
-- or as tight and the associativity groups it first.
pub may_be_child : Operator → ℕ → Operator → ℕ → Bool → Bool
may_be_child parent ppri child cpri child_on_right =
    let on_right = operator_is_right parent child_on_right in
    not (exposes child on_right) || ltb ppri cpri || (ppri == cpri && groups parent child on_right)

abbrev as_number : Bool → ℕ
as_number b = if b then 1 else 0

module _ (ppri cpri : ℕ) (left right : Bool) where
  abbrev Agrees : Operator → Operator → Type 0
  Agrees parent child =
      check_child ppri (kind parent) cpri (kind child) left right
      ≡ (if may_be_child parent ppri child cpri right then 1 else 0)

  under_binary_left : (child : Operator) → Agrees binary_left child
  unfolding check_child may_be_child bit child_table parent_row child_row relation
  under_binary_left child = ground arith

  under_binary_right : (child : Operator) → Agrees binary_right child
  unfolding check_child may_be_child bit child_table parent_row child_row relation
  under_binary_right child = ground arith

  under_unary_left : (child : Operator) → Agrees unary_left child
  unfolding check_child may_be_child bit child_table parent_row child_row relation
  under_unary_left child = ground arith

  under_unary_right : (child : Operator) → Agrees unary_right child
  unfolding check_child may_be_child bit child_table parent_row child_row relation
  under_unary_right child = ground arith

-- For binary and unary operators at any priorities, `check_child` answers 1 or 0 by `may_be_child`,
-- and never by an entry that is marked impossible.
pub check_child-may_be_child :
    (parent child : Operator) (ppri cpri : ℕ) (left right : Bool)
    → check_child ppri (kind parent) cpri (kind child) left right
      ≡ (if may_be_child parent ppri child cpri right then 1 else 0)
check_child-may_be_child binary_left child p c l r = under_binary_left p c l r child
check_child-may_be_child binary_right child p c l r = under_binary_right p c l r child
check_child-may_be_child unary_left child p c l r = under_unary_left p c l r child
check_child-may_be_child unary_right child p c l r = under_unary_right p c l r child
