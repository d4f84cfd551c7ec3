-- ===== src/Write/Heap.antt =====
-- `struct min_heap` of driver/write_dirty_pages.c. A loop takes as fuel a number that its index cannot
-- outlast.
pub mod Order
pub mod Up
pub mod Down
use fast_map.Common.{
  ℕ, zero, suc, ◌+◌, ◌-◌, ◌*◌, ◌/◌, Bool, true, false, ◌&&◌, ltb, ◌==◌, if◌then◌else◌, Option, none,
  some,
}

pub record HeapNode : Type 0 where
  pub cpu : ℕ
  pub offset : ℕ
  -- `p`: the tagged page
  pub page : ℕ

-- MAX_CPUS
abbrev pub max_cpus : ℕ
max_cpus = 64

pub record MinHeap : Type 0 where
  -- Only the entries below `max_cpus` exist; the code reads those below `heap_size`, and
  -- `min_heap_insert` is without a result where it would write another.
  pub heap_array : ℕ → HeapNode
  pub heap_size : ℕ

abbrev pub lchild : ℕ → ℕ
lchild x = 2 * x + 1

abbrev pub rchild : ℕ → ℕ
rchild x = 2 * x + 2

abbrev pub parent : ℕ → ℕ
parent x = (x - 1) / 2

abbrev pub store : (ℕ → HeapNode) → ℕ → HeapNode → ℕ → HeapNode
store a i v = λ j. if j == i then v else a j

-- The page of `alloc_page`, zeroed.
unfoldable pub min_heap_create : MinHeap
min_heap_create = record {
  heap_array = λ j. record { cpu = 0; offset = 0; page = 0 };
  heap_size = 0;
}

unfoldable pub min_heap_is_empty : MinHeap → Bool
min_heap_is_empty mh = if mh.heap_size == 0 then true else false

-- The `while` of `min_heap_insert`, and the store after it. The fuel is at least `i`, and the loop
-- at least halves `i`, so where no fuel is left `i` is 0 and the loop is at its end.
unfoldable pub sift_up : ℕ → (ℕ → HeapNode) → ℕ → HeapNode → ℕ → HeapNode
sift_up zero a i v = store a i v
sift_up (suc fuel) a i v =
    let rest = sift_up fuel (store a i (a (parent i))) (parent i) v in
    if ltb 0 i && ltb v.offset (a (parent i)).offset then rest else store a i v

-- The body of `min_heap_insert`, where the array has room.
unfoldable pub insert_entry : MinHeap → ℕ → ℕ → ℕ → MinHeap
unfolding sift_up
insert_entry mh cpu offset p =
    let i = mh.heap_size in
    record {
      heap_array = sift_up i mh.heap_array i (record { cpu = cpu; offset = offset; page = p });
      heap_size = mh.heap_size + 1;
    }

-- `none` where the code writes after the array, over `heap_size`: the check of the bound is compiled
-- out.
unfoldable pub min_heap_insert : MinHeap → ℕ → ℕ → ℕ → Option MinHeap
unfolding insert_entry
min_heap_insert mh cpu offset p =
    if ltb mh.heap_size max_cpus then some (insert_entry mh cpu offset p) else none

-- The index that `min_heap_heapify` calls `smallest`.
unfoldable pub smallest : (ℕ → HeapNode) → ℕ → ℕ → ℕ
smallest a n i =
    let s = if ltb (lchild i) n && ltb (a (lchild i)).offset (a i).offset then lchild i else i in
    if ltb (rchild i) n && ltb (a (rchild i)).offset (a s).offset then rchild i else s

abbrev pub swap : (ℕ → HeapNode) → ℕ → ℕ → ℕ → HeapNode
swap a i j = store (store a i (a j)) j (a i)

-- A child's index is larger, and a call with no child in the heap makes no other: heap_size rounds
-- are enough.
unfoldable pub min_heap_heapify : ℕ → (ℕ → HeapNode) → ℕ → ℕ → ℕ → HeapNode
unfolding smallest
min_heap_heapify zero a n i = a
min_heap_heapify (suc fuel) a n i =
    let s = smallest a n i in
    let rest = min_heap_heapify fuel (swap a i s) n s in if s == i then a else rest

unfoldable pub min_heap_delete_min : MinHeap → HeapNode × MinHeap
unfolding min_heap_heapify
min_heap_delete_min mh =
    let r = mh.heap_array 0 in
    let n = mh.heap_size - 1 in
    let a = store mh.heap_array 0 (mh.heap_array n) in
    (r, record { heap_array = min_heap_heapify n a n 0; heap_size = n })
