-- ===== src/Parse/Heap/Members.antt =====
-- The heap keeps its nodes.
use dparser.Prelude.{
  ℕ, zero, suc, ◌+◌, ◌*◌, ◌≤◌, ◌<◌, ◌≡◌, refl, ap, ◌∙◌, inl, inr, Bool, true, false, List, [], ◌∷◌,
  arith, ◌==◌, if◌then◌else◌, length, length-set, set, take, Bool-cases,
}
use dparser.Libc.{count_if}
use dparser.Parse.Heap.{node_at, swap, larger, heapify, heapify_all}
use dparser.Parse.Heap.Down.{length-swap, node_at-set_ne}

module _ (p : ℕ → Bool) where
  abbrev pub bit : ℕ → ℕ
  bit x = if p x then 1 else 0

  pub count-set :
      (a : List ℕ) (i v : ℕ)
      → i < length a
      → count_if p (set a i v) + bit (node_at a i) ≡ count_if p a + bit v
  count-set [] i v h = absurd (omega arith)
  count-set (x ∷ a) zero v h = ground arith
  count-set (x ∷ a) (suc i) v h = let rest = count-set a i v (omega arith) in ground (arith, rest)

  count-swap :
      (a : List ℕ) (i j : ℕ)
      → i < length a
      → j < length a
      → (j == i) ≡ false
      → count_if p (swap a i j) ≡ count_if p a
  count-swap a i j below_i below_j differ = omega (
    arith,
    count-set a j (node_at a i) below_j,
    count-set (set a j (node_at a i)) i (node_at a j)
        (omega (arith, below_i, length-set a j (node_at a i))),
    ap bit (node_at-set_ne a j i (node_at a i) differ),
  )

  pub count-take :
      (a : List ℕ) (n : ℕ)
      → length a ≡ suc n
      → count_if p (take n a) + bit (node_at a n) ≡ count_if p a
  count-take [] n e = absurd (omega arith)
  count-take (x ∷ []) zero e = ground arith
  count-take (x ∷ y ∷ a) zero e = absurd (omega arith)
  count-take (x ∷ a) (suc n) e = let rest = count-take a n (omega arith) in ground (arith, rest)

  module _ (height : ℕ → ℕ) where
    larger_inside : (a : List ℕ) (c l : ℕ) → l < length a → larger height a c l < length a
    larger_inside a c l h = ground (arith, h)

    pub count-heapify :
        (fuel : ℕ) (a : List ℕ) (i : ℕ)
        → i < length a
        → count_if p (heapify height fuel a i) ≡ count_if p a
    unfolding heapify
    count-heapify zero a i h = refl
    count-heapify (suc fuel) a i h =
        by (larger height a (2 * i + 2) (larger height a (2 * i + 1) i))
          (larger_inside a (2 * i + 2) (larger height a (2 * i + 1) i)
            (larger_inside a (2 * i + 1) i h))
          (λ l inside. count-heapify fuel (swap a i l) l (omega (arith, inside, length-swap a i l)))
      where
        by :
            (l : ℕ)
            → l < length a
            → ((m : ℕ)
                → m < length a
                → count_if p (heapify height fuel (swap a i m) m) ≡ count_if p (swap a i m))
            → count_if p (elim (l == i) [ true ↦ a | false ↦ heapify height fuel (swap a i l) l ])
              ≡ count_if p a
        by l inside rest = elim (Bool-cases (l == i)) [
          | inl stays ↦ rw stays refl
          | inr goes ↦ rw goes (rest l inside ∙ count-swap a i l h inside goes)
        ]

module _ (height : ℕ → ℕ) where
  pub length-heapify : (fuel : ℕ) (a : List ℕ) (i : ℕ) → length (heapify height fuel a i) ≡ length a
  unfolding heapify
  length-heapify zero a i = refl
  length-heapify (suc fuel) a i =
      let l = larger height a (2 * i + 2) (larger height a (2 * i + 1) i) in
      elim (Bool-cases (larger height a (2 * i + 2) (larger height a (2 * i + 1) i) == i)) [
        | inl stays ↦ rw (stays, heapify) refl
        | inr goes ↦ rw (goes, heapify) (length-heapify fuel (swap a i l) l ∙ length-swap a i l)
      ]

  pub count-heapify_all :
      (p : ℕ → Bool) (i : ℕ) (a : List ℕ)
      → i ≤ length a
      → count_if p (heapify_all height i a) ≡ count_if p a
  unfolding heapify_all
  count-heapify_all p zero a h = refl
  count-heapify_all p (suc i) a h =
      count-heapify_all p i (heapify height (suc (length a)) a i)
        (omega (arith, h, length-heapify (suc (length a)) a i))
      ∙ count-heapify p height (suc (length a)) a i (omega arith)
