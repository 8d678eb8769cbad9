-- ===== src/Tests/Parsing.antt =====
-- Priorities and work lists of parse.c on small inputs.
use dparser.Prelude.{
  ℕ, suc, ◌≡◌, refl, ◌⊎◌, true, false, ◌||◌, List, [], ◌∷◌, some, none, ◌==◌, if◌then◌else◌, length,
  has, nat_eq,
}
use dparser.Parse.Ambiguity.{Tree, greedy_loop}
use dparser.Parse.Ambiguity.Swap.{opposite, opposite-greedy_loop}
use dparser.Parse.Priority.{check_child}
use dparser.Parse.Priority.Rule.{binary_left, kind, may_be_child, check_child-may_be_child}
use dparser.Parse.Queue.{Reduction, reduction_Eq, add_reduction, add_shift}
use dparser.Parse.Queue.Order.{Added, shifts_in_order, add_reduction-Added, add_shift_lem}

-- A product to the left of a sum.
check_child-may_be_child_example :
    check_child 1 (kind binary_left) 2 (kind binary_left) true false
    ≡ (if may_be_child binary_left 1 binary_left 2 false then 1 else 0)
check_child-may_be_child_example = check_child-may_be_child binary_left binary_left 1 2 true false

abbrev reduction : ℕ → Reduction
reduction n = record { znode = none; snode = n; reduction = 1 }

-- The place of an SNode is its number, and no ZNode has a depth.
abbrev place : ℕ → ℕ
place n = n

abbrev depths : ℕ → List ℕ
depths z = []

abbrev todo : List Reduction
todo = reduction 2 ∷ reduction 5 ∷ []

add_reduction-Added_example :
    ((add_reduction place depths todo (reduction 3) ≡ none) × (has todo (reduction 3) ≡ true))
    ⊎ ((todo' : List Reduction) × (add_reduction place depths todo (reduction 3) ≡ some todo')
        × Added place depths todo (reduction 3) todo')
add_reduction-Added_example = add_reduction-Added place depths todo (reduction 3) refl refl

abbrev shifts : List ℕ
shifts = 2 ∷ 5 ∷ []

add_shift_lem_example :
    (shifts_in_order place depths (add_shift place depths shifts 3) ≡ true)
    × ((n : ℕ) → has (add_shift place depths shifts 3) n ≡ (3 == n || has shifts n))
    × (length (add_shift place depths shifts 3) ≡ suc (length shifts))
add_shift_lem_example = add_shift_lem place depths shifts 3 refl

-- Two trees for the same text, of which the second has the higher priority.
abbrev low_tree : Tree
low_tree = record {
  address = 100;
  assoc = 17;
  priority = 1;
  height = 2;
  serial = 7;
  start = 0;
  symbol = 3;
  last = 5;
  children = 3;
}

abbrev high_tree : Tree
high_tree = record low_tree { address = 200; priority = 2; serial = 8 }

opposite-greedy_loop_example :
    greedy_loop (high_tree ∷ []) (low_tree ∷ [])
    ≡ opposite (greedy_loop (low_tree ∷ []) (high_tree ∷ []))
opposite-greedy_loop_example = opposite-greedy_loop (low_tree ∷ []) (high_tree ∷ [])
