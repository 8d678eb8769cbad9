-- ===== src/Tests/Heaps.antt =====
-- A heap of three nodes.
use dparser.Prelude.{ℕ, zero, suc, ◌≤◌, ◌<◌, ap, inl, inr, List, [], ◌∷◌, arith}
use dparser.Parse.Heap.{node_at, heap_insert, heap_pop}
use dparser.Parse.Heap.Down.{IsChild}
use dparser.Parse.Heap.Order.{IsHeap, SameNodes, Popped, heap_pop-heap_insert}

abbrev height : ℕ → ℕ
height x = x

abbrev heap : List ℕ
heap = 5 ∷ 3 ∷ 4 ∷ []

heap-IsHeap : IsHeap height heap
heap-IsHeap = record { over = over }
  where
    over : (j c : ℕ) → 0 ≤ j → IsChild j c → c < 3 → node_at heap c ≤ node_at heap j
    over zero c from (inl e) inside = omega (arith, ap (node_at heap) e)
    over zero c from (inr e) inside = omega (arith, ap (node_at heap) e)
    over (suc j) c from (inl e) inside = absurd (omega arith)
    over (suc j) c from (inr e) inside = absurd (omega arith)

heap_pop-heap_insert_example :
    IsHeap height (heap_insert height heap 7)
    × SameNodes (heap_insert height heap 7) (7 ∷ heap)
    × Popped height heap (heap_pop height heap)
heap_pop-heap_insert_example = heap_pop-heap_insert height heap 7 heap-IsHeap
