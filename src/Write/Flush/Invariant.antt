-- ===== src/Write/Flush/Invariant.antt =====
-- What holds between the rounds of `write_dirty_pages`. `index` and `before` are the pages' indices and
-- locks when it starts.
use fast_map.Common.{
  ℕ, ◌+◌, ◌≤◌, ◌<◌, ◌≡◌, Bool, true, false, ltb, leb, ◌==◌, ◌&&◌, ◌||◌, if◌then◌else◌, List, count,
}
use fast_map.Rbtree.{inorder}
use fast_map.Rbtree.Search.{Increasing}
use fast_map.Write.Heap.{HeapNode, max_cpus}
use fast_map.Write.Heap.Order.{IsHeap, sum_to}
use fast_map.Write.Flush.{Flush}
use fast_map.Write.Flush.Sums.{over, holds, weight}

-- Weights of a heap entry: it is of this page; it is of this CPU and not after `k`; it is wrong.
abbrev pub of_page : ℕ → HeapNode → ℕ
of_page q h = if h.page == q then 1 else 0

abbrev pub fronts : ℕ → ℕ → HeapNode → ℕ
fronts c k h = if (h.cpu == c) && leb h.offset k then 1 else 0

abbrev pub wrong : (ℕ → ℕ) → ℕ → ℕ → HeapNode → ℕ
wrong index ncpus lo h =
    if (h.offset == index h.page) && (ltb h.cpu ncpus && leb lo h.offset) then 0 else 1

-- How often a page is in the heap and in the trees.
abbrev pub in_heap : Flush → ℕ → ℕ
in_heap s q = sum_to (of_page q) s.heap.heap_array s.heap.heap_size

abbrev pub in_trees : ℕ → Flush → ℕ → ℕ
in_trees ncpus s q = over (holds q) s.trees ncpus

-- The pages that are still to be written, each of which takes a round.
abbrev pub remaining : ℕ → Flush → ℕ
remaining ncpus s = s.heap.heap_size + over weight s.trees ncpus

-- Every CPU, and one more CPU than before.
abbrev pub every : ℕ → Bool
every c = true

abbrev pub and_cpu : (ℕ → Bool) → ℕ → ℕ → Bool
and_cpu ready cpu c = ready c || (c == cpu)

-- `mine` are the locked pages outside the heap, `lo` bounds the indices that are still to come, and the
-- CPUs of `ready` have an entry in the heap before what is left in their tree.
pub record Inv (ncpus : ℕ) (index : ℕ → ℕ) (before : ℕ → Bool) (ready : ℕ → Bool) (s : Flush)
    (mine : List ℕ) (lo : ℕ) : Type 0 where
  pub heaped : IsHeap s.heap.heap_array s.heap.heap_size
  pub fits : s.heap.heap_size ≤ max_cpus
  pub entries : sum_to (wrong index ncpus lo) s.heap.heap_array s.heap.heap_size ≡ 0
  pub indices : (q : ℕ) → (s.buffer.pages q).index ≡ index q
  pub ordered : (c : ℕ) → Increasing index (inorder (s.trees c))
  pub used : (c q : ℕ) → c < ncpus → 0 < holds q (s.trees c) → (s.buffer.pages q).in_use ≡ 1
  pub front :
      (c q : ℕ)
      → c < ncpus
      → ready c ≡ true
      → 0 < holds q (s.trees c)
      → 0 < sum_to (fronts c (index q)) s.heap.heap_array s.heap.heap_size
  pub above : (c q : ℕ) → c < ncpus → 0 < holds q (s.trees c) → lo ≤ index q
  pub once : (q : ℕ) → count q mine + (in_heap s q + in_trees ncpus s q) ≤ 1
  pub locks :
      (q : ℕ)
      → (s.buffer.pages q).locked ≡ (if ltb 0 (count q mine + in_heap s q) then true else before q)
  pub free : (q : ℕ) → 0 < count q mine + (in_heap s q + in_trees ncpus s q) → before q ≡ false
