-- ===== src/Parse/Path.antt =====
-- parse.c (`check_path_priorities`): whether a path of nodes from the top of the stack down is legal, by the
-- associativity and priority of its operators.
-- A path is a list of ZNodes, by number. `pn` is the node of a ZNode, and `below` are the ZNodes `z->sns.v[k]->zns.v[j]`,
-- for each `k` and each `j`. A result of -1 is `false`.
pub mod Longer
use dparser.Prelude.{
  ℕ, zero, suc, Bool, true, false, not, ◌&&◌, ◌||◌, List, [], ◌∷◌, ◌++◌, Option, none, some, ◌==◌,
  if◌then◌else◌, is_empty,
}
use dparser.Parse.Priority.{PNode, bad_expression, check_assoc_priority}

module _ (pn : ℕ → PNode) (below : ℕ → List (Option ℕ)) where
  -- The loops over the ZNodes below the path: some triple is legal.
  abbrev pub some_legal : PNode → PNode → List (Option ℕ) → Bool
  some_legal pn0 pn1 [] = false
  some_legal pn0 pn1 (none ∷ zs) = some_legal pn0 pn1 zs
  some_legal pn0 pn1 (some z ∷ zs) =
      check_assoc_priority pn0 pn1 (some (pn z)) || some_legal pn0 pn1 zs

  -- The second half, for the rest of the path behind the ZNode of `pn0`. Where nothing is left, the loops have no effect.
  unfoldable pub check_within : PNode → List ℕ → Bool
  check_within pn0 [] = true
  check_within pn0 (z1 ∷ []) =
      some_legal pn0 (pn z1) (below z1)
      || is_empty (below z1) && check_assoc_priority pn0 (pn z1) none
  check_within pn0 (z1 ∷ z2 ∷ path) = check_assoc_priority pn0 (pn z1) (some (pn z2))

  -- The top expression, before the operator of the next ZNode
  abbrev pub bad_top : PNode → PNode → Bool
  bad_top pn0 pn1 = not (pn0.assoc == 0) && bad_expression pn1 pn0 false true

  unfoldable pub check_path_internal : List ℕ → Bool
  check_path_internal [] = true
  check_path_internal (z0 ∷ []) = true
  check_path_internal (z0 ∷ z1 ∷ path) =
      if not ((pn z0).op_assoc == 0)
      then check_within (pn z0) (z1 ∷ path)
      else if (pn z1).op_assoc == 0
      then true
      else if bad_top (pn z0) (pn z1)
      then false
      else check_within (pn z1) path

  -- The macro: `true` if the path is not skipped.
  unfoldable pub check_path_priorities : List ℕ → Bool
  check_path_priorities [] = true
  check_path_priorities (z0 ∷ []) = true
  check_path_priorities (z0 ∷ z1 ∷ path) =
      if not ((pn z0).op_assoc == 0) || not ((pn z1).op_assoc == 0)
      then check_path_internal (z0 ∷ z1 ∷ path)
      else true
