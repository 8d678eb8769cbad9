-- ===== src/Parse/Ambiguity.antt =====
-- parse.c (`compare_priorities`, `greedycmp`, `cmp_greediness`, `prioritycmp`, `cmp_priorities`): which of two
-- parse trees for the same text is kept, from the two lists of nodes on that `get_unshared_pnodes` fills. That
-- function and `cmp_pnodes`, which calls these, are left out. A result of -1 is `lt`, for the first tree, and 1 is `gt`.
pub mod Swap
use Prim.Native.Nat.{Ordering}
use dparser.Prelude.{ℕ, List, [], ◌∷◌, ltb, ◌==◌, if◌then◌else◌}
use dparser.Libc.{Qsort}

-- The fields of a PNode that are compared, and its address; `children` is their number.
pub record Tree : Type 0 where
  pub address : ℕ
  pub assoc : ℕ
  pub priority : ℕ
  pub height : ℕ
  pub serial : ℕ
  pub start : ℕ
  pub symbol : ℕ
  pub last : ℕ
  pub children : ℕ

unfoldable pub compare_priorities : List Tree → List Tree → Ordering
compare_priorities [] ys = Ordering.eq
compare_priorities (x ∷ xs) [] = Ordering.eq
compare_priorities (x ∷ xs) (y ∷ ys) =
    let rest = compare_priorities xs ys in
    if ltb y.priority x.priority
    then Ordering.lt
    else if ltb x.priority y.priority
    then Ordering.gt
    else rest

unfoldable pub greedycmp : Tree → Tree → Ordering
greedycmp x y =
    if ltb x.start y.start
    then Ordering.lt
    else if ltb y.start x.start
    then Ordering.gt
    else if ltb x.symbol y.symbol
    then Ordering.lt
    else if ltb y.symbol x.symbol
    then Ordering.gt
    else if ltb x.last y.last
    then Ordering.lt
    else if ltb y.last x.last
    then Ordering.gt
    else if ltb x.serial y.serial
    then Ordering.lt
    else if ltb y.serial x.serial
    then Ordering.gt
    else Ordering.eq

-- `!!x->assoc`
abbrev pub has_assoc : Tree → ℕ
has_assoc x = if x.assoc == 0 then 0 else 1

unfoldable pub prioritycmp : Tree → Tree → Ordering
prioritycmp x y =
    if ltb (has_assoc y) (has_assoc x)
    then Ordering.lt
    else if ltb (has_assoc x) (has_assoc y)
    then Ordering.gt
    else if ltb x.height y.height
    then Ordering.lt
    else if ltb y.height x.height
    then Ordering.gt
    else if ltb y.priority x.priority
    then Ordering.lt
    else if ltb x.priority y.priority
    then Ordering.gt
    else if ltb x.start y.start
    then Ordering.lt
    else if ltb y.start x.start
    then Ordering.gt
    else if ltb y.last x.last
    then Ordering.lt
    else if ltb x.last y.last
    then Ordering.gt
    else if ltb x.serial y.serial
    then Ordering.lt
    else if ltb y.serial x.serial
    then Ordering.gt
    else Ordering.eq

-- What a round of `cmp_greediness` does: it takes the next node of one tree or of both, or it answers.
pub data Round : Type 0 where
  next_both next_x next_y answer_x answer_y : Round

unfoldable pub greedy_round : Tree → Tree → Round
greedy_round x y =
    if x.address == y.address
    then next_both
    else if ltb x.start y.start
    then next_x
    else if ltb y.start x.start
    then next_y
    else if ltb x.symbol y.symbol
    then next_x
    else if ltb y.symbol x.symbol
    then next_y
    else if ltb y.last x.last
    then answer_x
    else if ltb x.last y.last
    then answer_y
    else if ltb x.children y.children
    then answer_x
    else if ltb y.children x.children
    then answer_y
    else next_both

-- The loop of `cmp_greediness` over the two sorted lists.
unfoldable pub greedy_loop : List Tree → List Tree → Ordering
greedy_loop [] ys = Ordering.eq
greedy_loop (x ∷ xs) [] = Ordering.eq
greedy_loop (x ∷ xs) (y ∷ ys) = elim (greedy_round x y) [
  | next_both ↦ greedy_loop xs ys
  | next_x ↦ greedy_loop xs (y ∷ ys)
  | next_y ↦ greedy_loop (x ∷ xs) ys
  | answer_x ↦ Ordering.lt
  | answer_y ↦ Ordering.gt
]

module _ (libc : Qsort) where
  unfoldable pub cmp_priorities : List Tree → List Tree → Ordering
  cmp_priorities vx vy =
      compare_priorities (libc.qsort Tree prioritycmp vx) (libc.qsort Tree prioritycmp vy)

  unfoldable pub cmp_greediness : List Tree → List Tree → Ordering
  cmp_greediness pvx pvy =
      greedy_loop (libc.qsort Tree greedycmp pvx) (libc.qsort Tree greedycmp pvy)
