-- ===== src/Write/Flush/Sums.antt =====
-- Sums over the entries of a heap and over the trees of the CPUs.
use fast_map.Common.{
  ℕ, zero, suc, ◌+◌, ◌≤◌, ◌<◌, ◌≡◌, refl, true, false, ◌==◌, List, [], ◌∷◌, ◌++◌, count, length,
  arith, some, ◌⊎◌, Bool-cases, inl, inr,
}
use fast_map.Rbtree.{Tree, leaf, node, inorder, rb_empty_root, RbLib}
use fast_map.Fault.Writable.{set_tree}
use fast_map.Write.Heap.{HeapNode}
use fast_map.Write.Heap.Order.{sum_to}

-- A sum that is positive has a positive term.
pub sum_to-pos :
    (w : HeapNode → ℕ) (a : ℕ → HeapNode) (n : ℕ)
    → 0 < sum_to w a n
    → (i : ℕ) × (i < n) × (0 < w (a i))
sum_to-pos w a zero h = absurd (omega arith)
sum_to-pos w a (suc n) h = elim (Bool-cases (w (a n) == 0)) [
  | inl e ↦ let (i, l, p) = sum_to-pos w a n (ground (arith, e, h)) in (i, omega arith, p)
  | inr e ↦ (n, omega arith, ground (arith, e))
]

pub sum_to-zero :
    (w : HeapNode → ℕ) (a : ℕ → HeapNode) (n : ℕ)
    → ((i : ℕ) → i < n → w (a i) ≡ 0)
    → sum_to w a n ≡ 0
sum_to-zero w a zero h = refl
sum_to-zero w a (suc n) h =
    omega (arith, h n (omega arith), sum_to-zero w a n (λ i l. h i (omega arith)))

pub sum_to-term : (w : HeapNode → ℕ) (a : ℕ → HeapNode) (n i : ℕ) → i < n → w (a i) ≤ sum_to w a n
sum_to-term w a zero i h = absurd (omega arith)
sum_to-term w a (suc n) i h = ground (arith, sum_to-term w a n i)

-- The sum of a measure over the first `n` trees.
abbrev pub over : (Tree → ℕ) → (ℕ → Tree) → ℕ → ℕ
over f trees zero = 0
over f trees (suc n) = over f trees n + f (trees n)

over-set_above :
    (f : Tree → ℕ) (trees : ℕ → Tree) (c : ℕ) (t : Tree) (n : ℕ)
    → n ≤ c
    → over f (set_tree trees c t) n ≡ over f trees n
over-set_above f trees c t zero h = refl
over-set_above f trees c t (suc n) h = ground (arith, over-set_above f trees c t n)

pub over-set :
    (f : Tree → ℕ) (trees : ℕ → Tree) (c : ℕ) (t : Tree) (n : ℕ)
    → c < n
    → over f (set_tree trees c t) n + f (trees c) ≡ over f trees n + f t
over-set f trees c t zero h = absurd (omega arith)
over-set f trees c t (suc n) h =
    ground (arith, over-set f trees c t n, over-set_above f trees c t n)

pub over-term : (f : Tree → ℕ) (trees : ℕ → Tree) (n c : ℕ) → c < n → f (trees c) ≤ over f trees n
over-term f trees zero c h = absurd (omega arith)
over-term f trees (suc n) c h = ground (arith, over-term f trees n c)

pub over-zero :
    (f : Tree → ℕ) (trees : ℕ → Tree) (n : ℕ)
    → ((c : ℕ) → c < n → f (trees c) ≡ 0)
    → over f trees n ≡ 0
over-zero f trees zero h = refl
over-zero f trees (suc n) h =
    omega (arith, h n (omega arith), over-zero f trees n (λ c l. h c (omega arith)))

abbrev pub holds : ℕ → Tree → ℕ
holds q t = count q (inorder t)

abbrev pub weight : Tree → ℕ
weight t = length (inorder t)

-- What the library says of the first page of a tree.
pub record IsFirst (lib : RbLib) (t : Tree) (p : ℕ) (ps : List ℕ) : Type 0 where
  pub sequence : inorder t ≡ p ∷ ps
  pub not_empty : rb_empty_root t ≡ false
  pub first : lib.rb_first t ≡ some p
  pub rest : inorder (lib.rb_erase p t) ≡ ps

-- An in-order sequence around a page is not empty.
middle-cons : (xs ys : List ℕ) (p : ℕ) → (q : ℕ) × (ps : List ℕ) × (xs ++ p ∷ ys ≡ q ∷ ps)
middle-cons [] ys p = (p, ys, refl)
middle-cons (x ∷ xs) ys p = (x, xs ++ p ∷ ys, refl)

inorder-cases :
    (t : Tree)
    → ((rb_empty_root t ≡ true) × (inorder t ≡ []))
      ⊎ ((rb_empty_root t ≡ false) × (p : ℕ) × (ps : List ℕ) × (inorder t ≡ p ∷ ps))
inorder-cases leaf = inl (refl, refl)
inorder-cases (node l p r) =
    let (q, ps, e) = middle-cons (inorder l) (inorder r) p in inr (refl, q, ps, e)

pub IsFirst-cases :
    (lib : RbLib) (t : Tree)
    → ((rb_empty_root t ≡ true) × (inorder t ≡ [])) ⊎ ((p : ℕ) × (ps : List ℕ) × IsFirst lib t p ps)
IsFirst-cases lib t = elim (inorder-cases t) [
  | inl e ↦ inl e
  | inr (ne, p, ps, e) ↦ inr (
    p,
    ps,
    record {
      sequence = e;
      not_empty = ne;
      first = ground (arith, lib.rb_first-head? t, e);
      rest = ground (arith, lib.inorder-rb_erase p t, e);
    },
  )
]

pub nothing_counted : (xs : List ℕ) → ((q : ℕ) → count q xs ≡ 0) → xs ≡ []
nothing_counted [] h = refl
nothing_counted (x ∷ xs) h = absurd (ground (arith, h x))
