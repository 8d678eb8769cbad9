-- ===== src/Parse/Ambiguity/Swap.antt =====
-- The comparison of two lists of nodes does not depend on which of them comes first.
use Prim.Native.Nat.{Ordering}
use dparser.Prelude.{◌≡◌, refl, ◌⊎◌, inl, inr, List, [], ◌∷◌, arith}
use dparser.Parse.Ambiguity.{
  Tree, compare_priorities, greedy_loop, Round, next_both, next_x, next_y, answer_x, answer_y,
  greedy_round,
}

abbrev pub opposite : Ordering → Ordering
opposite Ordering.lt = Ordering.gt
opposite Ordering.eq = Ordering.eq
opposite Ordering.gt = Ordering.lt

opposite-compare_priorities :
    (xs ys : List Tree) → compare_priorities ys xs ≡ opposite (compare_priorities xs ys)
unfolding compare_priorities
opposite-compare_priorities [] [] = refl
opposite-compare_priorities [] (y ∷ ys) = refl
opposite-compare_priorities (x ∷ xs) [] = refl
opposite-compare_priorities (x ∷ xs) (y ∷ ys) = ground (arith, opposite-compare_priorities xs ys)

-- A round with the trees in the other order.
abbrev mirror : Round → Round
mirror next_both = next_both
mirror next_x = next_y
mirror next_y = next_x
mirror answer_x = answer_y
mirror answer_y = answer_x

mirror-greedy_round : (x y : Tree) → greedy_round y x ≡ mirror (greedy_round x y)
unfolding greedy_round
mirror-greedy_round x y = ground arith

Round-cases :
    (r : Round) → (r ≡ next_both) ⊎ (r ≡ next_x) ⊎ (r ≡ next_y) ⊎ (r ≡ answer_x) ⊎ (r ≡ answer_y)
Round-cases next_both = inl refl
Round-cases next_x = inr (inl refl)
Round-cases next_y = inr (inr (inl refl))
Round-cases answer_x = inr (inr (inr (inl refl)))
Round-cases answer_y = inr (inr (inr (inr refl)))

-- The loop of `cmp_greediness` gives the opposite answer for two lists of nodes in the other order.
pub opposite-greedy_loop : (xs ys : List Tree) → greedy_loop ys xs ≡ opposite (greedy_loop xs ys)
unfolding greedy_loop
opposite-greedy_loop [] [] = refl
opposite-greedy_loop [] (y ∷ ys) = refl
opposite-greedy_loop (x ∷ xs) [] = refl
opposite-greedy_loop (x ∷ xs) (y ∷ ys) =
    let m = mirror-greedy_round x y in
    elim (Round-cases (greedy_round x y)) [
      | inl e ↦ rw (m, e, greedy_loop) (opposite-greedy_loop xs ys)
      | inr (inl e) ↦ rw (m, e, greedy_loop) (opposite-greedy_loop xs (y ∷ ys))
      | inr (inr (inl e)) ↦ rw (m, e, greedy_loop) (opposite-greedy_loop (x ∷ xs) ys)
      | inr (inr (inr (inl e))) ↦ rw (m, e, greedy_loop) refl
      | inr (inr (inr (inr e))) ↦ rw (m, e, greedy_loop) refl
    ]
