-- ===== src/Parse/Heap/Order.antt =====
-- The heap has its highest node in front.
use dparser.Prelude.{
  ℕ, zero, suc, ◌+◌, ◌*◌, ◌/◌, ◌≤◌, ◌<◌, ◌≡◌, ◌≢◌, refl, ap, ◌∙◌, inl, inr, Bool, true, false, List,
  [], ◌∷◌, ◌++◌, Option, none, some, arith, ◌==◌, ==_iff, length, length-set, set, take, Bool-cases,
  has, nat_eq,
}
use dparser.Libc.{count_if}
use dparser.Parse.Heap.{node_at, heapify, heapify_all, heap_insert, heap_pop}
use dparser.Parse.Heap.Down.{IsChild, Over, IsHeapFrom, heapify-IsHeapFrom}
use dparser.Parse.Heap.Members.{bit, count-set, count-take, count-heapify_all}

-- Each node is at least as high as those below it.
abbrev pub IsHeap : (ℕ → ℕ) → List ℕ → Type 0
IsHeap height a = IsHeapFrom height 0 a

-- The same nodes, each as often.
abbrev pub SameNodes : List ℕ → List ℕ → Type 0
SameNodes a b = (p : ℕ → Bool) → count_if p a ≡ count_if p b

module _ (height : ℕ → ℕ) where
  heapify_all-IsHeap :
      (i : ℕ) (a : List ℕ) → IsHeapFrom height i a → IsHeap height (heapify_all height i a)
  unfolding heapify_all
  heapify_all-IsHeap zero a h = h
  heapify_all-IsHeap (suc i) a h = heapify_all-IsHeap i (heapify height (suc (length a)) a i) (
      heapify-IsHeapFrom height (suc (length a)) a i i
        (record {
          over = λ j c from differ child inside. h.over j c (further j from differ) child inside;
          past = λ j c from parent child inside. absurd (no_parent j from parent);
        })
        (omega arith) (omega arith))
    where
      further : (j : ℕ) → i ≤ j → j ≢ i → suc i ≤ j
      further j from differ = elim (Bool-cases (j == i)) [
        | inl same ↦ absurd (differ ((==_iff j i).0 same))
        | inr other ↦ ground (arith, from, other)
      ]

      no_parent : (j : ℕ) → i ≤ j → IsChild j i → ⊥
      no_parent j from (inl e) = omega arith
      no_parent j from (inr e) = omega arith

  -- From the middle of the array on, there are no nodes below.
  leaves : (a : List ℕ) → IsHeapFrom height (length a / 2) a
  leaves a = record { over = λ j c from child inside. absurd (too_far j c from child inside) }
    where
      too_far : (j c : ℕ) → length a / 2 ≤ j → IsChild j c → c < length a → ⊥
      too_far j c from (inl e) inside = omega arith
      too_far j c from (inr e) inside = omega arith

  highest_below :
      (bound j : ℕ) (a : List ℕ) → IsHeap height a → j < bound → j < length a → Over height a 0 j
  highest_below zero j a h below inside = absurd (omega arith)
  highest_below (suc bound) zero a h below inside = omega arith
  highest_below (suc bound) (suc j) a h below inside =
      let parent = h.over (j / 2) (suc j) (omega arith) (halves j) inside in
      let rest = highest_below bound (j / 2) a h (omega (arith, below)) (omega (arith, inside)) in
      omega (arith, parent, rest)
    where
      halves : (j : ℕ) → IsChild (j / 2) (suc j)
      halves j = elim (Bool-cases (suc j == 2 * (j / 2) + 1)) [
        | inl left ↦ inl ((==_iff (suc j) (2 * (j / 2) + 1)).0 left)
        | inr right ↦ inr (odd j right)
      ]
        where
          odd : (j : ℕ) → (suc j == 2 * (j / 2) + 1) ≡ false → suc j ≡ 2 * (j / 2) + 2
          odd j h = ground (arith, h)

  -- What a pop of a heap returns: NULL if it is empty, and otherwise a highest node and a heap of the others.
  pub data Popped (a : List ℕ) : Option (ℕ × List ℕ) → Type 0 where
    empty : a ≡ [] → Popped a none
    highest :
        {pn : ℕ} {b : List ℕ}
        → IsHeap height b
        → SameNodes (pn ∷ b) a
        → ((x : ℕ) → has a x ≡ true → height x ≤ height pn)
        → Popped a (some (pn, b))

  heap_insert-IsHeap :
      (a : List ℕ) (pn : ℕ)
      → IsHeap height (heap_insert height a pn) × SameNodes (heap_insert height a pn) (pn ∷ a)
  unfolding heap_insert
  heap_insert-IsHeap a pn =
      let b = a ++ pn ∷ [] in
      (
        heapify_all-IsHeap (length b / 2) b (leaves b),
        λ p. count-heapify_all height p (length b / 2) b (omega arith) ∙ count-concat p a,
      )
    where
      count-concat : (p : ℕ → Bool) (a : List ℕ) → count_if p (a ++ pn ∷ []) ≡ count_if p (pn ∷ a)
      count-concat p [] = refl
      count-concat p (x ∷ a) = ground (arith, count-concat p a)

  node_of_has : (a : List ℕ) (x : ℕ) → has a x ≡ true → (j : ℕ) × (j < length a) × (node_at a j ≡ x)
  node_of_has [] x h = absurd (cc h)
  node_of_has (y ∷ a) x h = elim (Bool-cases (y == x)) [
    | inl here ↦ (0, omega arith, (==_iff y x).0 here)
    | inr other ↦
        let (j, below, at) = node_of_has a x (ground (arith, h, other)) in (suc j, omega arith, at)
  ]

  -- The array without its first node.
  abbrev others : ℕ → List ℕ → List ℕ
  others pn a = take (length a) (set (pn ∷ a) 0 (node_at (pn ∷ a) (length a)))

  count-others : (p : ℕ → Bool) (pn : ℕ) (a : List ℕ) → count_if p (others pn a) ≡ count_if p a
  count-others p pn [] = refl
  count-others p pn (x ∷ a) =
      let last = node_at (pn ∷ x ∷ a) (suc (length a)) in
      omega (
        arith,
        count-set p (pn ∷ x ∷ a) 0 last (omega arith),
        count-take p (set (pn ∷ x ∷ a) 0 last) (suc (length a)) (length-set (pn ∷ x ∷ a) 0 last),
        count-cons p pn (x ∷ a),
      )
    where
      count-cons : (p : ℕ → Bool) (x : ℕ) (a : List ℕ) → count_if p (x ∷ a) ≡ bit p x + count_if p a
      count-cons p x a = ground arith

  heap_pop-Popped : (a : List ℕ) → IsHeap height a → Popped a (heap_pop height a)
  unfolding heap_pop
  heap_pop-Popped [] h = empty refl
  heap_pop-Popped (pn ∷ a) h =
      let b = others pn a in
      highest (heapify_all-IsHeap (length b / 2) b (leaves b))
        (λ p.
          cons_same p pn _ a
            (count-heapify_all height p (length b / 2) b (omega arith) ∙ count-others p pn a))
        (λ x held.
          let (j, below, at) = node_of_has (pn ∷ a) x held in
          omega (arith, ap height at, highest_below (suc j) j (pn ∷ a) h (omega arith) below))
    where
      cons_same :
          (p : ℕ → Bool) (x : ℕ) (a b : List ℕ)
          → count_if p a ≡ count_if p b
          → count_if p (x ∷ a) ≡ count_if p (x ∷ b)
      cons_same p x a b e = ground (arith, e)

  -- `heap_insert` makes a heap with the nodes of the array and the new one, and `heap_pop` of a heap returns NULL if
  -- it is empty, and otherwise a highest node of the heap, with a heap of the other nodes.
  pub heap_pop-heap_insert :
      (a : List ℕ) (pn : ℕ)
      → IsHeap height a
      → IsHeap height (heap_insert height a pn)
        × SameNodes (heap_insert height a pn) (pn ∷ a)
        × Popped a (heap_pop height a)
  heap_pop-heap_insert a pn h =
      let (heap, same) = heap_insert-IsHeap a pn in (heap, same, heap_pop-Popped a h)
