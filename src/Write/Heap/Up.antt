-- ===== src/Write/Heap/Up.antt =====
-- Inserting keeps the heap order and adds exactly the entry.
use fast_map.Common.{
  ℕ, zero, suc, ◌+◌, ◌≤◌, ◌<◌, ◌≡◌, ◌≢◌, refl, arith, ltb, Bool-cases, inl, inr, ◌&&◌,
}
use native.Mathlib.Numerals.{add-one}
use fast_map.Write.Heap.{HeapNode, MinHeap, parent, store, sift_up, insert_entry}
use fast_map.Write.Heap.Order.{key, IsHeap, sum_to, sum_to-store}

-- With `v` to go to the hole at `i`, only the edge above the hole may be out of order.
pub record Hole (a : ℕ → HeapNode) (n i : ℕ) (v : HeapNode) : Type 0 where
  pub inside : i < n
  pub edges : (c : ℕ) → 0 < c → c < n → c ≢ i → parent c ≢ i → key a (parent c) ≤ key a c
  pub below : (c : ℕ) → 0 < c → c < n → parent c ≡ i → v.offset ≤ key a c
  pub bridged : (c : ℕ) → 0 < i → 0 < c → c < n → parent c ≡ i → key a (parent i) ≤ key a c

Hole-fill :
    (a : ℕ → HeapNode) (n i : ℕ) (v : HeapNode)
    → Hole a n i v
    → (0 < i → key a (parent i) ≤ v.offset)
    → IsHeap (store a i v) n
Hole-fill a n i v h fits c p q = ground (arith, h.edges c, h.below c, fits)

Hole-move :
    (a : ℕ → HeapNode) (n i : ℕ) (v : HeapNode)
    → Hole a n i v
    → 0 < i
    → v.offset < key a (parent i)
    → Hole (store a i (a (parent i))) n (parent i) v
Hole-move a n i v h pos above = record {
  inside = omega (arith, h.inside);
  edges = λ c p q r s. ground (arith, h.edges c, h.bridged c, h.edges (parent i));
  below = λ c p q r. ground (arith, h.edges c);
  bridged = λ c p q r s. ground (arith, h.edges c, h.edges (parent i), h.inside);
}

-- The array after the loop, for any fuel from `i` on.
pub sift_up_lem :
    (fuel : ℕ) (a : ℕ → HeapNode) (n i : ℕ) (v : HeapNode)
    → i ≤ fuel
    → Hole a n i v
    → IsHeap (sift_up fuel a i v) n
      × ((w : HeapNode → ℕ) → sum_to w (sift_up fuel a i v) n + w (a i) ≡ sum_to w a n + w v)
unfolding sift_up
sift_up_lem zero a n i v f h =
    (Hole-fill a n i v h (λ p. absurd (omega arith)), λ w. sum_to-store w a i v n h.inside)
sift_up_lem (suc fuel) a n i v f h =
    elim (Bool-cases (ltb 0 i && ltb v.offset (a (parent i)).offset)) [
      | inl e ↦
          let pos : 0 < i = ground arith in
          let above : v.offset < key a (parent i) = ground arith in
          let a' = store a i (a (parent i)) in
          let (heap, same) =
            sift_up_lem fuel a' n (parent i) v (omega arith) (Hole-move a n i v h pos above) in
          rw e (heap, λ w. ground (arith, same w, sum_to-store w a i (a (parent i)) n h.inside))
      | inr e ↦ rw e (Hole-fill a n i v h (λ p. ground arith), λ w. sum_to-store w a i v n h.inside)
    ]

-- On a heap, insert_entry makes a heap with one entry more, which holds exactly the new entry
-- and the old ones, each as often as before.
pub insert_entry_lem :
    (mh : MinHeap) (cpu offset p : ℕ)
    → IsHeap mh.heap_array mh.heap_size
    → let new : HeapNode = record { cpu = cpu; offset = offset; page = p } in
      let mh' = insert_entry mh cpu offset p in
      IsHeap mh'.heap_array mh'.heap_size
      × (mh'.heap_size ≡ suc mh.heap_size)
      × ((w : HeapNode → ℕ)
          → sum_to w mh'.heap_array mh'.heap_size ≡ w new + sum_to w mh.heap_array mh.heap_size)
unfolding insert_entry
insert_entry_lem mh cpu offset p h =
    let n = mh.heap_size in
    let hole : Hole mh.heap_array (suc n) n (record { cpu = cpu; offset = offset; page = p }) =
      record {
        inside = omega arith;
        edges = λ c p q r s. h c p (omega arith);
        below = λ c p q r. absurd (omega arith);
        bridged = λ c p q r s. absurd (omega arith);
      } in
    let (heap, same) =
      sift_up_lem n mh.heap_array (suc n) n (record { cpu = cpu; offset = offset; page = p })
        (omega arith) hole in
    rw add-one (heap, refl, λ w. omega (arith, same w))
