-- ===== src/Parse/Heap.antt =====
-- parse.c (`heapify`, `heap_insert`, `heap_pop`): the heap of the nodes that a comparison of two trees still visits,
-- with the highest node in front.
-- A node is a number, and `height` its height. The array of the heap is a list; the recursion of
-- `heapify` goes down the array and has a step of fuel for each node, and one more.
pub mod Down
pub mod Members
pub mod Order
use dparser.Prelude.{
  ℕ, zero, suc, ◌+◌, ◌*◌, ◌-◌, ◌/◌, Bool, true, false, ◌&&◌, List, [], ◌∷◌, ◌++◌, Option, none,
  some, ltb, ◌==◌, if◌then◌else◌, length, set, get_or, take,
}

abbrev pub node_at : List ℕ → ℕ → ℕ
node_at a i = get_or a i 0

abbrev pub swap : List ℕ → ℕ → ℕ → List ℕ
swap a i j = set (set a j (node_at a i)) i (node_at a j)

module _ (height : ℕ → ℕ) where
  abbrev pub height_at : List ℕ → ℕ → ℕ
  height_at a i = height (node_at a i)

  -- `largest`, with a child of it
  abbrev pub larger : List ℕ → ℕ → ℕ → ℕ
  larger a c largest =
      if ltb c (length a) && ltb (height_at a largest) (height_at a c) then c else largest

  unfoldable pub heapify : ℕ → List ℕ → ℕ → List ℕ
  heapify zero a i = a
  heapify (suc fuel) a i =
      let largest = larger a (2 * i + 2) (larger a (2 * i + 1) i) in
      elim (largest == i) [ true ↦ a | false ↦ heapify fuel (swap a i largest) largest ]

  -- `for (i = n - 1; i >= 0; i--) heapify(a, i);`
  unfoldable pub heapify_all : ℕ → List ℕ → List ℕ
  heapify_all zero a = a
  heapify_all (suc i) a = heapify_all i (heapify (suc (length a)) a i)

  unfoldable pub heap_insert : List ℕ → ℕ → List ℕ
  heap_insert a pn = let b = a ++ pn ∷ [] in heapify_all (length b / 2) b

  -- The node and the heap, or NULL.
  unfoldable pub heap_pop : List ℕ → Option (ℕ × List ℕ)
  heap_pop [] = none
  heap_pop (pn ∷ a) =
      let n = length a in
      let b = take n (set (pn ∷ a) 0 (node_at (pn ∷ a) n)) in
      some (pn, heapify_all (length b / 2) b)
