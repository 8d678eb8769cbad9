-- ===== src/Parse/Priority.antt =====
-- parse.c (`child_table`, `check_child`, `check_assoc_priority`): which operator may be the child of
-- which. An AssocKind is its bits, as gram.h numbers them; a result of -1 is `false` here.
pub mod Rule
use dparser.Prelude.{
  ℕ, ◌+◌, ◌/◌, ◌%◌, ◌^◌, Bool, true, false, not, ◌&&◌, ◌||◌, List, [], ◌∷◌, Option, none, some, ltb,
  ◌==◌, if◌then◌else◌, get_or,
}

-- ASSOC_LEFT, ASSOC_RIGHT, ASSOC_NARY, ASSOC_UNARY, ASSOC_BINARY and ASSOC_NO are the bits 0 to 5.
unfoldable pub bit : ℕ → ℕ → Bool
bit x k = x / 2 ^ k % 2 == 1

abbrev pub is_left_assoc : ℕ → Bool
is_left_assoc x = bit x 0

abbrev pub is_right_assoc : ℕ → Bool
is_right_assoc x = bit x 1

abbrev pub is_nary_assoc : ℕ → Bool
is_nary_assoc x = bit x 2

abbrev pub is_unary_binary_assoc : ℕ → Bool
is_unary_binary_assoc x = bit x 4 || bit x 3

abbrev pub is_binary_nary_assoc : ℕ → Bool
is_binary_nary_assoc x = bit x 4 || bit x 2

abbrev pub is_no_assoc : ℕ → Bool
is_no_assoc x = bit x 5

-- The entry 666 is marked impossible.
unfoldable pub child_table : List (List (List ℕ))
child_table =
    ((1 ∷ 0 ∷ 1 ∷ 1 ∷ 0 ∷ 0 ∷ [])
      ∷ (1 ∷ 1 ∷ 1 ∷ 1 ∷ 666 ∷ 666 ∷ [])
      ∷ (1 ∷ 0 ∷ 666 ∷ 666 ∷ 1 ∷ 1 ∷ [])
      ∷ [])
    ∷ ((1 ∷ 0 ∷ 0 ∷ 0 ∷ 1 ∷ 1 ∷ [])
        ∷ (1 ∷ 0 ∷ 1 ∷ 1 ∷ 666 ∷ 666 ∷ [])
        ∷ (1 ∷ 1 ∷ 666 ∷ 666 ∷ 1 ∷ 1 ∷ [])
        ∷ [])
    ∷ ((1 ∷ 0 ∷ 0 ∷ 666 ∷ 0 ∷ 666 ∷ [])
        ∷ (1 ∷ 1 ∷ 1 ∷ 666 ∷ 666 ∷ 666 ∷ [])
        ∷ (1 ∷ 0 ∷ 666 ∷ 666 ∷ 1 ∷ 666 ∷ [])
        ∷ [])
    ∷ ((1 ∷ 0 ∷ 666 ∷ 0 ∷ 666 ∷ 0 ∷ [])
        ∷ (1 ∷ 0 ∷ 666 ∷ 1 ∷ 666 ∷ 666 ∷ [])
        ∷ (1 ∷ 1 ∷ 666 ∷ 666 ∷ 666 ∷ 1 ∷ [])
        ∷ [])
    ∷ []

abbrev pub table_entry : ℕ → ℕ → ℕ → ℕ
table_entry p c r = get_or (get_or (get_or child_table p []) c []) r 0

-- The row of the table for the parent, and the rows in it for the child.
unfoldable pub parent_row : ℕ → Bool → ℕ
parent_row passoc right =
    if is_binary_nary_assoc passoc
    then (if right then 1 else 0)
    else if is_left_assoc passoc
    then 2
    else 3

unfoldable pub child_row : ℕ → ℕ
child_row cassoc = if is_binary_nary_assoc cassoc then 0 else if is_left_assoc cassoc then 1 else 2

unfoldable pub relation : ℕ → ℕ → ℕ → ℕ → ℕ
relation ppri passoc cpri cassoc =
    if ltb ppri cpri
    then 0
    else if ltb cpri ppri
    then 1
    else 2 + ((if is_right_assoc cassoc then 2 else 0) + (if is_right_assoc passoc then 1 else 0))

-- 1 if it is legal for a child reduction and illegal for a child shift. The argument `left` is unused.
unfoldable pub check_child : ℕ → ℕ → ℕ → ℕ → Bool → Bool → ℕ
check_child ppri passoc cpri cassoc left right =
    if is_no_assoc passoc && is_no_assoc cassoc && ppri == cpri
    then 0
    else if is_nary_assoc cassoc || is_nary_assoc passoc
    then 1
    else table_entry (parent_row passoc right) (child_row cassoc) (relation ppri passoc cpri cassoc)

-- The fields of a PNode that priorities are read from.
pub record PNode : Type 0 where
  pub assoc : ℕ
  pub priority : ℕ
  pub op_assoc : ℕ
  pub op_priority : ℕ

-- `!check_child(...)` for the operator of one node and the expression, or the operator, of another.
abbrev pub bad_expression : PNode → PNode → Bool → Bool → Bool
bad_expression parent child left right =
    check_child parent.op_priority parent.op_assoc child.priority child.assoc left right == 0

abbrev pub bad_operator : PNode → PNode → Bool
bad_operator parent child =
    check_child parent.op_priority parent.op_assoc child.op_priority child.op_assoc false true == 0

-- `pn0` is the top of the stack, and `pn2` may be absent.
unfoldable pub check_assoc_priority : PNode → PNode → Option PNode → Bool
check_assoc_priority pn0 pn1 pn2 =
    if not (is_unary_binary_assoc pn0.op_assoc)
    then not (
        is_unary_binary_assoc pn1.op_assoc
        && not (pn0.assoc == 0)
        && bad_expression pn1 pn0 false true)
    else if (if not (pn1.op_assoc == 0)
        then bad_operator pn1 pn0
        else elim pn2 [ none ↦ false | some pn ↦ not (pn.op_assoc == 0) && bad_operator pn pn0 ])
    then false
    else not (not (pn1.assoc == 0) && bad_expression pn0 pn1 true false)
