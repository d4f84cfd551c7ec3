-- ===== src/Rbtree.antt =====
-- The dirty trees: driver/mmap_buffer_rbtree.c. A tree holds the addresses of tagged pages, and
-- `index` reads `page->index` of one. The functions of the kernel's rbtree library are the fields of
-- `RbLib`: what they promise is the in-order sequence, not the shape.
pub mod Search
pub mod Insert
pub mod Erase
pub mod Nearest
use fast_map.Common.{
  ℕ, zero, suc, Bool, true, false, ltb, ◌==◌, if◌then◌else◌, List, [], ◌∷◌, ◌++◌, Option, none,
  some, erase, count, ◌≡◌, ◌≤◌,
}

-- `rb_left`, the tagged page that contains the node, `rb_right`.
pub data Tree : Type 0 where
  leaf : Tree
  node : Tree → ℕ → Tree → Tree

abbrev pub inorder : Tree → List ℕ
inorder leaf = []
inorder (node l p r) = inorder l ++ p ∷ inorder r

abbrev pub head? : List ℕ → Option ℕ
head? [] = none
head? (p ∷ ps) = some p

-- lib/rbtree.c of the kernel: rebalancing and erasing keep the order of the nodes, and `rb_first`
-- is the first node in order.
pub record RbLib : Type 0 where
  pub rb_insert_color : ℕ → Tree → Tree
  pub rb_erase : ℕ → Tree → Tree
  pub rb_first : Tree → Option ℕ
  pub inorder-rb_insert_color : (p : ℕ) (t : Tree) → inorder (rb_insert_color p t) ≡ inorder t
  pub inorder-rb_erase :
      (p : ℕ) (t : Tree) → 1 ≤ count p (inorder t) → inorder (rb_erase p t) ≡ erase p (inorder t)
  pub rb_first-head? : (t : Tree) → rb_first t ≡ head? (inorder t)

abbrev pub rb_empty_root : Tree → Bool
rb_empty_root leaf = true
rb_empty_root (node l p r) = false

module _ (index : ℕ → ℕ) where
  unfoldable pub tagged_rb_search : Tree → ℕ → Option ℕ
  tagged_rb_search leaf pgoff = none
  tagged_rb_search (node l p r) pgoff =
      let left = tagged_rb_search l pgoff in
      let right = tagged_rb_search r pgoff in
      if ltb pgoff (index p) then left else if ltb (index p) pgoff then right else some p

  unfoldable pub tagged_rb_greater_equal : Tree → ℕ → Option ℕ
  tagged_rb_greater_equal leaf pgoff = none
  tagged_rb_greater_equal (node l p r) pgoff =
      let left = tagged_rb_greater_equal l pgoff in
      let right = tagged_rb_greater_equal r pgoff in
      let no_right = if ltb pgoff (index p) then left else none in
      let no_left = if ltb pgoff (index p) then some p else right in
      let both =
        if ltb pgoff (index p) then left else if ltb (index p) pgoff then right else none in
      if index p == pgoff
      then some p
      else if rb_empty_root l
      then (if rb_empty_root r then (if ltb pgoff (index p) then some p else none) else no_left)
      else if rb_empty_root r
      then no_right
      else both

  -- The walk to the place of the new node, and `rb_link_node` there; `none` where a node with the
  -- index is met.
  unfoldable pub link : Tree → ℕ → Option Tree
  link leaf p = some (node leaf p leaf)
  link (node l q r) p =
      let left : Option Tree = elim (link l p) [ none ↦ none | some l' ↦ some (node l' q r) ] in
      let right : Option Tree = elim (link r p) [ none ↦ none | some r' ↦ some (node l q r') ] in
      if ltb (index p) (index q) then left else if ltb (index q) (index p) then right else none

  module _ (lib : RbLib) where
    unfoldable pub tagged_rb_insert : Tree → ℕ → Bool × Tree
    unfolding link
    tagged_rb_insert root p = elim (link root p) [
      | none ↦ (false, root)
      | some t ↦ (true, lib.rb_insert_color p t)
    ]

    unfoldable pub tagged_rb_erase : Tree → ℕ → Bool × Tree
    unfolding tagged_rb_search
    tagged_rb_erase root pgoff = elim (tagged_rb_search root pgoff) [
      | none ↦ (false, root)
      | some p ↦ (true, lib.rb_erase p root)
    ]
