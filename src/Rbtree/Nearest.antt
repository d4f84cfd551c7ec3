-- ===== src/Rbtree/Nearest.antt =====
-- What `tagged_rb_greater_equal` finds, and the page that it passes over.
use fast_map.Common.{ℕ, ◌≤◌, ◌<◌, ◌≡◌, ◌≢◌, refl, ◌∷◌, none, some, arith, All, count, count-append}
use fast_map.Rbtree.{Tree, leaf, node, inorder, tagged_rb_greater_equal}
use fast_map.Rbtree.Search.{All-middle}

module _ (index : ℕ → ℕ) where
  -- A page that tagged_rb_greater_equal returns, on any tree, is in the tree and has an index that
  -- is at least the one asked for.
  pub tagged_rb_greater_equal_lem :
      (t : Tree) (k p : ℕ)
      → tagged_rb_greater_equal index t k ≡ some p
      → (k ≤ index p) × (1 ≤ count p (inorder t))
  unfolding tagged_rb_greater_equal
  tagged_rb_greater_equal_lem leaf k p h = absurd (ground arith)
  tagged_rb_greater_equal_lem (node l q r) k p h = ground (
    arith,
    tagged_rb_greater_equal_lem l k p,
    tagged_rb_greater_equal_lem r k p,
    count-append p (inorder l) (q ∷ inorder r),
  )

  none_below :
      (t : Tree) (k : ℕ)
      → All (λ q. index q < k) (inorder t)
      → tagged_rb_greater_equal index t k ≡ none
  unfolding tagged_rb_greater_equal
  none_below leaf k h = refl
  none_below (node l q r) k h =
      let (a, b, c) = All-middle index (λ q. index q < k) (inorder l) q (inorder r) h in
      ground (arith, none_below l k a, none_below r k c, b)

  -- At a node with a larger index whose left subtree is not empty and has only smaller indices,
  -- tagged_rb_greater_equal returns none, so it passes over the page of the node.
  pub tagged_rb_greater_equal-passes :
      (l r : Tree) (p k : ℕ)
      → l ≢ leaf
      → All (λ q. index q < k) (inorder l)
      → k < index p
      → tagged_rb_greater_equal index (node l p r) k ≡ none
  unfolding tagged_rb_greater_equal
  tagged_rb_greater_equal-passes leaf r p k n h lt = absurd (n refl)
  tagged_rb_greater_equal-passes (node ll q lr) r p k n h lt =
      ground (arith, none_below (node ll q lr) k h)
