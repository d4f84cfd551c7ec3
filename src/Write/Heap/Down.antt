-- ===== src/Write/Heap/Down.antt =====
-- Removing the root returns a least entry, keeps the order and keeps all other entries.
use fast_map.Common.{
  ℕ, zero, suc, ◌+◌, ◌-◌, ◌≤◌, ◌<◌, ◌≡◌, ◌≢◌, refl, sym, ap, arith, ◌==◌, Bool-cases, inl, inr, ◌⊎◌,
}
use fast_map.Write.Heap.{
  HeapNode, MinHeap, parent, store, swap, lchild, rchild, smallest, min_heap_heapify,
  min_heap_delete_min,
}
use fast_map.Write.Heap.Order.{key, IsHeap, sum_to, sum_to-store, root_least}

-- Only the edges below `i` may be out of order.
pub record Sinks (a : ℕ → HeapNode) (n i : ℕ) : Type 0 where
  pub edges : (c : ℕ) → 0 < c → c < n → parent c ≢ i → key a (parent c) ≤ key a c
  pub bridged : (c : ℕ) → 0 < i → 0 < c → c < n → parent c ≡ i → key a (parent i) ≤ key a c

-- `smallest` is `i` or a child of it in the heap, and no child of `i` is smaller.
smallest_lem :
    (a : ℕ → HeapNode) (n i : ℕ)
    → let s = smallest a n i in
      ((s ≡ i) ⊎ ((i < s) × (s < n) × (parent s ≡ i) × (key a s < key a i)))
      × ((c : ℕ) → 0 < c → c < n → parent c ≡ i → key a s ≤ key a c)
unfolding smallest
smallest_lem a n i = (
  ground arith,
  λ c p q r. let side : (c ≡ lchild i) ⊎ (c ≡ rchild i) = omega arith in ground arith,
)

Sinks-swap :
    (a : ℕ → HeapNode) (n i s : ℕ)
    → Sinks a n i
    → i < s
    → s < n
    → parent s ≡ i
    → key a s < key a i
    → ((c : ℕ) → 0 < c → c < n → parent c ≡ i → key a s ≤ key a c)
    → Sinks (swap a i s) n s
Sinks-swap a n i s h lt inside up less least = record {
  edges = λ c p q r. ground (arith, h.edges c, least c, h.bridged s);
  bridged = λ c p q r t. ground (arith, h.edges c);
}

pub heapify_lem :
    (fuel : ℕ) (a : ℕ → HeapNode) (n i : ℕ)
    → n ≤ i + fuel
    → Sinks a n i
    → IsHeap (min_heap_heapify fuel a n i) n
      × ((w : HeapNode → ℕ) → sum_to w (min_heap_heapify fuel a n i) n ≡ sum_to w a n)
unfolding min_heap_heapify
heapify_lem zero a n i f h = (λ c p q. h.edges c p q (omega arith), λ w. refl)
heapify_lem (suc fuel) a n i f h =
    let s = smallest a n i in
    let (which, least) = smallest_lem a n i in
    elim (Bool-cases (s == i)) [
      | inl e ↦ rw e (λ c p q. ground (arith, h.edges c, least c), λ w. refl)
      | inr e ↦
          let found : (i < s) × (s < n) × (parent s ≡ i) × (key a s < key a i) = ground arith in
          let (heap, same) =
            heapify_lem fuel (swap a i s) n s (omega (arith, found.0))
              (Sinks-swap a n i s h found.0 found.1 found.2 found.3 least) in
          rw e (
            heap,
            λ w. ground (
              arith,
              same w,
              sum_to-store w a i (a s) n,
              sum_to-store w (store a i (a s)) s (a i) n,
            ),
          )
    ]

-- The last entry takes the place of the root.
root_replaced :
    (w : HeapNode → ℕ) (a : ℕ → HeapNode) (n : ℕ)
    → sum_to w (store a 0 (a n)) n + w (a 0) ≡ sum_to w a (suc n)
root_replaced w a zero = refl
root_replaced w a (suc n) = sum_to-store w a 0 (a (suc n)) (suc n) (omega arith)

-- On a heap that is not empty, min_heap_delete_min returns an entry with a least offset and leaves
-- a heap of exactly the other entries, each as often as before.
pub min_heap_delete_min_lem :
    (mh : MinHeap)
    → IsHeap mh.heap_array mh.heap_size
    → 0 < mh.heap_size
    → let (r, mh') = min_heap_delete_min mh in
      IsHeap mh'.heap_array mh'.heap_size
      × (suc mh'.heap_size ≡ mh.heap_size)
      × ((i : ℕ) → i < mh.heap_size → r.offset ≤ key mh.heap_array i)
      × ((w : HeapNode → ℕ)
          → w r + sum_to w mh'.heap_array mh'.heap_size ≡ sum_to w mh.heap_array mh.heap_size)
unfolding min_heap_delete_min
min_heap_delete_min_lem mh h pos =
    let a = mh.heap_array in
    let n = mh.heap_size - 1 in
    let size : mh.heap_size ≡ suc n = omega arith in
    let a' = store a 0 (a n) in
    let sinks : Sinks a' n 0 = record {
      edges = λ c p q r. ground (arith, h c);
      bridged = λ c p q r s. absurd (omega arith);
    } in
    let (heap, same) = heapify_lem n a' n 0 (omega arith) sinks in
    (
      heap,
      sym size,
      λ i p. root_least a mh.heap_size i h p,
      λ w. omega (arith, same w, root_replaced w a n, ap (sum_to w a) size),
    )
