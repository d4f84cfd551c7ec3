-- ===== src/Fault/Writable.antt =====
-- `dmap_do_tagged_page_writable`: a page of the clean queue becomes dirty. `PrVmaData` is the part of
-- `struct pr_vma_data` of driver/dmap.h that it changes; `file_update_time` is the kernel's and has
-- no effect here.
pub mod Tracked
use mathlib.Core.Path.{fun_ext}
use fast_map.Common.{
  ℕ, zero, suc, ◌+◌, ◌%◌, ◌≤◌, ◌<◌, ◌≡◌, ◌≢◌, refl, sym, ◌∙◌, subst, Bool, true, false, ◌==◌,
  if◌then◌else◌, List, [], ◌∷◌, Option, none, some, arith, count, Option-cases, Bool-cases, inl,
  inr,
}
use fast_map.TaggedPage.{TaggedPage, bi_none, bi_clean, bi_dirty}
use fast_map.Fifo.{Pages, update}
use fast_map.Buffer.{Buffer, clean_id, dirty_id, move_page_c2d}
use fast_map.Buffer.Placed.{IsPlaced, move_page_c2d-IsPlaced}
use fast_map.Rbtree.{Tree, inorder, RbLib, tagged_rb_search, tagged_rb_insert}
use fast_map.Rbtree.Search.{Increasing, tagged_rb_search-found}
use fast_map.Rbtree.Insert.{IsInserted, tagged_rb_insert_lem}

pub record PrVmaData : Type 0 where
  -- the address of the structure, which its pages point to
  pub id : ℕ
  pub dirty_tree : ℕ → Tree
  pub is_readonly : Bool

abbrev pub set_tree : (ℕ → Tree) → ℕ → Tree → ℕ → Tree
set_tree ts i t = λ j. if j == i then t else ts j

abbrev pub index_of : Pages → ℕ → ℕ
index_of m q = (m q).index

module _ (lib : RbLib) (num_online_cpus : ℕ) where
  -- The new buffer and trees; `none` is the BUG() for a page that is in no clean queue.
  unfoldable pub dmap_do_tagged_page_writable : Buffer → PrVmaData → ℕ → Option (Buffer × PrVmaData)
  unfolding move_page_c2d tagged_rb_insert
  dmap_do_tagged_page_writable b pvd p =
      let t = b.pages p in
      let dirty_tree_id = t.index % num_online_cpus in
      let m = update b.pages p (record t { is_dirty = 1 }) in
      let (done, tree) = tagged_rb_insert (index_of m) lib (pvd.dirty_tree dirty_tree_id) p in
      let b' = move_page_c2d (record b { pages = m }) p in
      let after : Option (Buffer × PrVmaData) = some (
        record b' { pages = update b'.pages p (record (b'.pages p) { page_dirty = true }) },
        record pvd { dirty_tree = set_tree pvd.dirty_tree dirty_tree_id tree; is_readonly = false },
      ) in
      if t.is_dirty == 0 then (if t.buffer_id == bi_clean then after else none) else some (b, pvd)

  -- The dirty trees hold the dirty pages of the device, each in the tree of its index, in order.
  pub record IsTracked (b : Buffer) (pvd : PrVmaData) : Type 0 where
    pub ordered : (c : ℕ) → Increasing (index_of b.pages) (inorder (pvd.dirty_tree c))
    pub tracked :
        (c q : ℕ)
        → count q (inorder (pvd.dirty_tree c)) ≡ (
            if (b.pages q).pvd == pvd.id
            then (if (b.pages q).is_dirty == 0
                then 0
                else (if (b.pages q).index % num_online_cpus == c then 1 else 0))
            else 0)
