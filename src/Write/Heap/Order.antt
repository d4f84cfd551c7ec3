-- ===== src/Write/Heap/Order.antt =====
-- The heap order, and what a heap holds.
use fast_map.Common.{ℕ, zero, suc, ◌+◌, ◌≤◌, ◌<◌, ◌≡◌, refl, arith}
use fast_map.Write.Heap.{HeapNode, parent, store}

abbrev pub key : (ℕ → HeapNode) → ℕ → ℕ
key a i = (a i).offset

-- No entry below `n` is smaller than its parent.
abbrev pub IsHeap : (ℕ → HeapNode) → ℕ → Type 0
IsHeap a n = (c : ℕ) → 0 < c → c < n → key a (parent c) ≤ key a c

-- The weights of the first `n` entries together. Two arrays hold the same entries, each as often,
-- when their sums agree for every weight.
abbrev pub sum_to : (HeapNode → ℕ) → (ℕ → HeapNode) → ℕ → ℕ
sum_to w a zero = 0
sum_to w a (suc n) = sum_to w a n + w (a n)

pub sum_to-store_above :
    (w : HeapNode → ℕ) (a : ℕ → HeapNode) (i : ℕ) (v : HeapNode) (n : ℕ)
    → n ≤ i
    → sum_to w (store a i v) n ≡ sum_to w a n
sum_to-store_above w a i v zero h = refl
sum_to-store_above w a i v (suc n) h = ground (arith, sum_to-store_above w a i v n)

pub sum_to-store :
    (w : HeapNode → ℕ) (a : ℕ → HeapNode) (i : ℕ) (v : HeapNode) (n : ℕ)
    → i < n
    → sum_to w (store a i v) n + w (a i) ≡ sum_to w a n + w v
sum_to-store w a i v zero h = absurd (omega arith)
sum_to-store w a i v (suc n) h =
    ground (arith, sum_to-store w a i v n, sum_to-store_above w a i v n)

-- The root is least.
root_fuel : (k : ℕ) (a : ℕ → HeapNode) (n i : ℕ) → i < k → IsHeap a n → i < n → key a 0 ≤ key a i
root_fuel zero a n i f h p = absurd (omega arith)
root_fuel (suc k) a n zero f h p = omega arith
root_fuel (suc k) a n (suc i) f h p = omega (
  arith,
  h (suc i) (omega arith) p,
  root_fuel k a n (parent (suc i)) (omega arith) h (omega arith),
)

pub root_least : (a : ℕ → HeapNode) (n i : ℕ) → IsHeap a n → i < n → key a 0 ≤ key a i
root_least a n i = root_fuel (suc i) a n i (omega arith)
