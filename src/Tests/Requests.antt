-- ===== src/Tests/Requests.antt =====
-- The requests of the write-back, and its heap.
use fast_map.Common.{◌==◌, if◌then◌else◌, ℕ, ◌+◌, ◌≡◌, refl, arith, List, [], ◌∷◌, count}
use mathlib.Core.List.{flatten}
use fast_map.Write.Merge.{write_async}
use fast_map.Write.Merge.Whole.{write_async-whole}
use fast_map.Write.Merge.Overrun.{places, write_async-overrun}
use fast_map.Write.Heap.{HeapNode, MinHeap}
use fast_map.Write.Heap.Order.{IsHeap}

abbrev three_pages : List ℕ
three_pages = 1 ∷ 2 ∷ 3 ∷ []

write_async-whole_example : flatten (write_async 256 (7 ∷ 8 ∷ 20 ∷ []) three_pages) ≡ three_pages
write_async-whole_example = write_async-whole 256 (7 ∷ 8 ∷ 20 ∷ []) three_pages (omega arith) refl

write_async-overrun_example : count 2 (flatten (write_async 2 (7 ∷ 8 ∷ 9 ∷ []) (places 0 3))) ≡ 0
write_async-overrun_example =
    write_async-overrun 2 7 (8 ∷ 9 ∷ []) (omega arith) (refl, (refl, tt)) (omega arith)

abbrev node_of : ℕ → HeapNode
node_of p = record { cpu = 0; offset = p + 10; page = p }

-- Offsets 11, 13, 12.
abbrev three : MinHeap
three = record {
  heap_array = λ i. if i == 0 then node_of 1 else if i == 1 then node_of 3 else node_of 2;
  heap_size = 3;
}

three-IsHeap : IsHeap three.heap_array three.heap_size
three-IsHeap c pos room = ground arith
