-- ===== src/Tests/Paths.antt =====
-- A path of an operator and an expression that it may not have as its child.
use dparser.Prelude.{ℕ, zero, suc, ◌≡◌, refl, inl, false, List, [], ◌∷◌, Option, some}
use dparser.Parse.Priority.{
  PNode, check_assoc_priority, check_child, relation, parent_row, child_row, child_table, bit,
}
use dparser.Parse.Path.{check_path_priorities, check_path_internal, check_within}
use dparser.Parse.Path.Longer.{check_path_priorities_longer}

-- Node 0 is the operator "*", and node 1 the expression "a + b".
abbrev pn : ℕ → PNode
pn zero = record { assoc = 0; priority = 0; op_assoc = 17; op_priority = 2 }
pn (suc z) = record { assoc = 17; priority = 1; op_assoc = 0; op_priority = 0 }

abbrev below : ℕ → List (Option ℕ)
below zero = []
below (suc z) = some 2 ∷ []

skipped : check_path_priorities pn below (0 ∷ 1 ∷ []) ≡ false
unfolding check_path_priorities check_path_internal check_within check_assoc_priority check_child
    relation parent_row child_row child_table bit
skipped = refl

check_path_priorities_longer_example : check_path_priorities pn below (0 ∷ 1 ∷ 2 ∷ []) ≡ false
check_path_priorities_longer_example =
    check_path_priorities_longer pn below (0 ∷ 1 ∷ []) 1 2 skipped refl (inl refl)
