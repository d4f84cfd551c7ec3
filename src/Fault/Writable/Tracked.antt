-- ===== src/Fault/Writable/Tracked.antt =====
-- The dirty trees and the queues after a page became dirty.
use mathlib.Core.Path.{fun_ext}
use fast_map.Common.{
  ℕ, ◌%◌, ◌≡◌, ◌≢◌, refl, sym, ◌∙◌, subst, Bool, true, false, ◌==◌, Option, none, some, arith,
  Option-cases, Bool-cases, inl, inr,
}
use fast_map.TaggedPage.{bi_clean}
use fast_map.Fifo.{Pages, update}
use fast_map.Buffer.{Buffer, move_page_c2d}
use fast_map.Buffer.Placed.{IsPlaced, IsPlaced-pages, move_page_c2d-IsPlaced}
use fast_map.Rbtree.{Tree, inorder, RbLib, tagged_rb_search, tagged_rb_insert}
use fast_map.Rbtree.Search.{Increasing, tagged_rb_search-found}
use fast_map.Rbtree.Insert.{IsInserted, tagged_rb_insert_lem}
use fast_map.Fault.Writable.{PrVmaData, set_tree, index_of, IsTracked, dmap_do_tagged_page_writable}

module _ (lib : RbLib) (num_online_cpus : ℕ) where
  absent :
      (b : Buffer) (pvd : PrVmaData) (p : ℕ)
      → IsTracked lib num_online_cpus b pvd
      → (b.pages p).is_dirty ≡ 0
      → ((q : ℕ) → (b.pages q).pvd ≡ pvd.id → (b.pages q).index ≡ (b.pages p).index → q ≡ p)
      → (c : ℕ) → tagged_rb_search (index_of b.pages) (pvd.dirty_tree c) (b.pages p).index ≡ none
  absent b pvd p v clean unique c =
      elim (Option-cases
        (tagged_rb_search (index_of b.pages) (pvd.dirty_tree c) (b.pages p).index)) [
          | inl e ↦ e
          | inr (q, e) ↦
              let (n, i) =
                tagged_rb_search-found (index_of b.pages) (pvd.dirty_tree c) (b.pages p).index q
                  (v.ordered c) e in
              absurd (ground (arith, n, i, clean, v.tracked c q, unique q))
        ]

  -- The call made a clean page dirty, or found it dirty. Every other page stays as it is.
  pub data Written (b : Buffer) (pvd : PrVmaData) (p : ℕ)
      : Option (Buffer × PrVmaData) → Type 0 where
    already : (b.pages p).is_dirty ≢ 0 → Written b pvd p (some (b, pvd))
    written :
        (b' : Buffer) (pvd' : PrVmaData)
        → IsPlaced b'
        → IsTracked lib num_online_cpus b' pvd'
        → tagged_rb_search
            (index_of b'.pages)
            (pvd'.dirty_tree ((b.pages p).index % num_online_cpus))
            (b.pages p).index
          ≡ some p
        → (b'.pages p).is_dirty ≡ 1
        → (b'.pages p).page_dirty ≡ true
        → pvd'.is_readonly ≡ false
        → ((q : ℕ) → q ≢ p → b'.pages q ≡ b.pages q)
        → Written b pvd p (some (b', pvd'))

  module _ (b : Buffer) (pvd : PrVmaData) (p : ℕ) where
    abbrev marked : Pages
    marked = update b.pages p (record (b.pages p) { is_dirty = 1 })

    abbrev moved : Buffer
    moved = move_page_c2d (record b { pages = marked }) p

    abbrev flagged : Pages
    flagged = update moved.pages p (record (moved.pages p) { page_dirty = true })

    abbrev tree_id : ℕ
    tree_id = (b.pages p).index % num_online_cpus

    marked-index : index_of marked ≡ index_of b.pages
    marked-index = fun_ext (λ q. ground arith)

    flagged-index : index_of flagged ≡ index_of b.pages
    unfolding move_page_c2d
    flagged-index = fun_ext (λ q. ground arith)

    moved-IsPlaced :
        IsPlaced b → (b.pages p).buffer_id ≡ bi_clean → IsPlaced (record moved { pages = flagged })
    moved-IsPlaced v h =
        IsPlaced-pages moved flagged
          (move_page_c2d-IsPlaced (record b { pages = marked }) p
            (IsPlaced-pages b marked v (λ q. ground arith) (λ q. ground arith)) (ground (arith, h)))
          (λ q. ground arith) (λ q. ground arith)

    insertion :
        IsTracked lib num_online_cpus b pvd
        → let (done, tree) = tagged_rb_insert (index_of marked) lib (pvd.dirty_tree tree_id) p in
          IsInserted (index_of marked) lib (pvd.dirty_tree tree_id) p done tree
    insertion t = tagged_rb_insert_lem (index_of marked) lib (pvd.dirty_tree tree_id) p (
        subst (λ (i : ℕ → ℕ). Increasing i (inorder (pvd.dirty_tree tree_id))) (sym marked-index)
          (t.ordered tree_id))

    set_tree-Increasing :
        (tree : Tree)
        → IsTracked lib num_online_cpus b pvd
        → Increasing (index_of b.pages) (inorder tree)
        → (c : ℕ) → Increasing (index_of b.pages) (inorder (set_tree pvd.dirty_tree tree_id tree c))
    set_tree-Increasing tree t new c = elim (Bool-cases (c == tree_id)) [
      | inl e ↦
          subst (λ (x : Tree). Increasing (index_of b.pages) (inorder x)) {x = tree}
            {y = set_tree pvd.dirty_tree tree_id tree c} (ground (arith, e)) new
      | inr e ↦
          subst (λ (x : Tree). Increasing (index_of b.pages) (inorder x)) {x = pvd.dirty_tree c}
            {y = set_tree pvd.dirty_tree tree_id tree c} (ground (arith, e)) (t.ordered c)
    ]

    flagged-IsTracked :
        (done : Bool) (tree : Tree)
        → IsTracked lib num_online_cpus b pvd
        → (b.pages p).pvd ≡ pvd.id
        → (b.pages p).is_dirty ≡ 0
        → done ≡ true
        → IsInserted (index_of marked) lib (pvd.dirty_tree tree_id) p done tree
        → IsTracked lib num_online_cpus
            (record moved { pages = flagged })
            (record pvd { dirty_tree = set_tree pvd.dirty_tree tree_id tree; is_readonly = false })
    unfolding move_page_c2d
    flagged-IsTracked done tree t mine clean d ins = record {
      ordered = λ c.
          subst (λ (i : ℕ → ℕ). Increasing i (inorder (set_tree pvd.dirty_tree tree_id tree c)))
            (sym flagged-index)
            (set_tree-Increasing tree t
              (subst (λ (i : ℕ → ℕ). Increasing i (inorder tree)) marked-index ins.in_order) c);
      tracked = λ c q.
          ground (arith, mine, clean, d, t.tracked c q, t.tracked tree_id q, ins.members q d);
    }

    inserted_new :
        (done : Bool) (tree : Tree)
        → IsTracked lib num_online_cpus b pvd
        → (b.pages p).is_dirty ≡ 0
        → ((q : ℕ) → (b.pages q).pvd ≡ pvd.id → (b.pages q).index ≡ (b.pages p).index → q ≡ p)
        → IsInserted (index_of marked) lib (pvd.dirty_tree tree_id) p done tree
        → done ≡ true
    inserted_new done tree t clean unique ins = elim (Bool-cases done) [
      | inl e ↦ e
      | inr e ↦
          let gone : tagged_rb_search (index_of marked) (pvd.dirty_tree tree_id) (index_of marked p)
              ≡ none =
            subst (λ (i : ℕ → ℕ). tagged_rb_search i (pvd.dirty_tree tree_id) (i p) ≡ none)
              (sym marked-index) (absent b pvd p t clean unique tree_id) in
          absurd ((ins.taken e).0 gone)
    ]

    tree_found :
        (done : Bool) (tree : Tree)
        → done ≡ true
        → IsInserted (index_of marked) lib (pvd.dirty_tree tree_id) p done tree
        → tagged_rb_search
            (index_of flagged)
            (set_tree pvd.dirty_tree tree_id tree tree_id)
            (b.pages p).index
          ≡ some p
    tree_found done tree d ins =
        let here : tagged_rb_search (index_of marked) tree (b.pages p).index ≡ some p =
          ground (arith, d, ins.found (b.pages p).index d) in
        let same : tagged_rb_search (index_of flagged) tree (b.pages p).index ≡ some p =
          subst (λ (i : ℕ → ℕ). tagged_rb_search i tree (b.pages p).index ≡ some p)
            (marked-index ∙ sym flagged-index) here in
        subst (λ (x : Tree). tagged_rb_search (index_of flagged) x (b.pages p).index ≡ some p)
          {x = tree} {y = set_tree pvd.dirty_tree tree_id tree tree_id} (ground arith) same

    flagged-is_dirty : (flagged p).is_dirty ≡ 1
    unfolding move_page_c2d
    flagged-is_dirty = ground arith

    flagged-others : (q : ℕ) → q ≢ p → flagged q ≡ b.pages q
    unfolding move_page_c2d
    flagged-others q n = ground (arith, n)

    -- Where the queues are placed, the dirty trees hold the device's dirty pages, no other page of
    -- the device has this page's index, and a page that is not dirty is in a clean queue: a page
    -- that was not dirty becomes dirty, is found in its dirty tree, the device is no longer
    -- read-only, queues and trees keep their invariants, and no other page changes; for a page that
    -- was dirty nothing changes.
    pub dmap_do_tagged_page_writable-Written :
        IsPlaced b
        → IsTracked lib num_online_cpus b pvd
        → (b.pages p).pvd ≡ pvd.id
        → ((q : ℕ) → (b.pages q).pvd ≡ pvd.id → (b.pages q).index ≡ (b.pages p).index → q ≡ p)
        → ((b.pages p).is_dirty ≡ 0 → (b.pages p).buffer_id ≡ bi_clean)
        → Written b pvd p (dmap_do_tagged_page_writable lib num_online_cpus b pvd p)
    unfolding dmap_do_tagged_page_writable
    dmap_do_tagged_page_writable-Written v t mine unique queued =
        elim (Bool-cases ((b.pages p).is_dirty == 0)) [
          | inl e ↦
              let clean : (b.pages p).is_dirty ≡ 0 = ground (arith, e) in
              let place = queued clean in
              let (done, tree) =
                tagged_rb_insert (index_of marked) lib (pvd.dirty_tree tree_id) p in
              let ins = insertion t in
              let d = inserted_new done tree t clean unique ins in
              subst (Written b pvd p) (sym (ground (arith, e, place))) (
                written (record moved { pages = flagged })
                  (record pvd {
                    dirty_tree = set_tree pvd.dirty_tree tree_id tree;
                    is_readonly = false;
                  })
                  (moved-IsPlaced v place) (flagged-IsTracked done tree t mine clean d ins)
                  (tree_found done tree d ins) flagged-is_dirty (ground arith) refl flagged-others)
          | inr e ↦ subst (Written b pvd p) (sym (ground (arith, e))) (already (ground (arith, e)))
        ]
