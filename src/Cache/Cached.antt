-- ===== src/Cache/Cached.antt =====
-- The invariant of the cache: the radix trees, the queues and the free lists agree on which page holds
-- which offset.
use fast_map.Common.{ℕ, ◌%◌, ◌≡◌, ◌≢◌, true, false, ◌==◌, ◌||◌, Option, some, arith}
use fast_map.TaggedPage.{TaggedPage, bi_none}
use fast_map.Fifo.{Pages, update}
use fast_map.Buffer.Placed.{IsPlaced, IsPlaced-pages}
use fast_map.PageMap.{free_page_lock}
use fast_map.PageMap.Homed.{IsHomed, owns, free_page_lock-IsHomed}
use fast_map.Cache.{
  Cache, Kernel, pages_of, with_pages, buffer_of, fmap_radix_lookup, radix_delete_page,
}

module _ {R : Type 0} (kernel : Kernel R) (ncpus percpu : ℕ) where
  -- What the tree `k` of the device `d` holds at offset `i`.
  abbrev pub at : Cache R → ℕ → ℕ → ℕ → Option ℕ
  at c d k i = kernel.radix.radix_tree_lookup (c.rdx d k) i

  pub record InTree (t : TaggedPage) (d k i : ℕ) : Type 0 where
    pub same_pvd : t.pvd ≡ d
    pub same_index : t.index ≡ i
    pub used : t.in_use ≡ 1
    pub own_tree : i % kernel.num_online_cpus ≡ k
    pub readable : ((t.page_valid == 1) || t.locked) ≡ true

  pub record IsCached (c : Cache R) : Type 0 where
    -- Each page is on the free list of its own CPU, once, or in use.
    pub homed : IsHomed ncpus percpu c.page_map
    pub owned :
        (p : ℕ) → (pages_of c p).in_use ≢ 0 → owns ncpus percpu (pages_of c p).cpuid p ≡ true
    pub unlocked : (p : ℕ) → (pages_of c p).in_use ≡ 0 → (pages_of c p).locked ≡ false
    -- Each page is in the queue that its buffer id and index name, once, or in none.
    pub placed : IsPlaced (buffer_of c)
    -- A page of a tree has its offset and device, and is valid or locked.
    pub in_tree : (d k i p : ℕ) → at c d k i ≡ some p → InTree (pages_of c p) d k i
    -- A page of a queue is in the tree.
    pub queued :
        (p : ℕ)
        → (pages_of c p).buffer_id ≢ bi_none
        → fmap_radix_lookup kernel c (pages_of c p).pvd (pages_of c p).index ≡ some p

  -- A page that no one else can reach: it is locked, in no queue and in no tree.
  pub record IsHeld (c : Cache R) (p : ℕ) : Type 0 where
    pub taken : (pages_of c p).in_use ≡ 1
    pub locked : (pages_of c p).locked ≡ true
    pub unqueued : (pages_of c p).buffer_id ≡ bi_none
    pub out_of_trees : (d k i : ℕ) → at c d k i ≢ some p

  -- Only what the trees, queues and lists look at matters.
  pub with_pages-IsCached :
      (c : Cache R) (m : Pages)
      → IsCached c
      → ((q : ℕ) → (m q).index ≡ (pages_of c q).index)
      → ((q : ℕ) → (m q).buffer_id ≡ (pages_of c q).buffer_id)
      → ((q : ℕ) → (m q).pvd ≡ (pages_of c q).pvd)
      → ((q : ℕ) → (m q).in_use ≡ (pages_of c q).in_use)
      → ((q : ℕ) → (m q).cpuid ≡ (pages_of c q).cpuid)
      → ((q : ℕ) → (m q).in_use ≡ 0 → (m q).locked ≡ false)
      → ((q : ℕ)
          → (((pages_of c q).page_valid == 1) || (pages_of c q).locked) ≡ true
          → (((m q).page_valid == 1) || (m q).locked) ≡ true)
      → IsCached (with_pages c m)
  unfolding fmap_radix_lookup
  with_pages-IsCached c m v hi hb hp hu hc hl hr = record {
    homed = record {
      listed = λ d q. ground (arith, v.homed.listed d q, hu q);
      home = λ d q. ground (arith, v.homed.home d q, hu q, hc q);
    };
    owned = λ p. ground (arith, v.owned p, hu p, hc p);
    unlocked = hl;
    placed = IsPlaced-pages (buffer_of c) m v.placed hi hb;
    in_tree = λ d k i p e.
        let t = v.in_tree d k i p e in
        record {
          same_pvd = ground (arith, t.same_pvd, hp p);
          same_index = ground (arith, t.same_index, hi p);
          used = ground (arith, t.used, hu p);
          own_tree = t.own_tree;
          readable = hr p t.readable;
        };
    queued = λ p. ground (arith, v.queued p, hi p, hb p, hp p);
  }

  -- Removing the tree's entry of a page that is in no queue keeps the invariant, and no tree has the
  -- page then.
  pub radix_delete_page-IsCached :
      (c : Cache R) (p : ℕ)
      → IsCached c
      → (pages_of c p).buffer_id ≡ bi_none
      → at c (pages_of c p).pvd ((pages_of c p).index % kernel.num_online_cpus) (pages_of c p).index
        ≡ some p
      → IsCached (radix_delete_page kernel c p)
        × ((d k i : ℕ) → at (radix_delete_page kernel c p) d k i ≢ some p)
  unfolding radix_delete_page fmap_radix_lookup
  radix_delete_page-IsCached c p v h e =
      let pvd = (pages_of c p).pvd in
      let index = (pages_of c p).index in
      let id = index % kernel.num_online_cpus in
      let lookup_deleted = kernel.radix.lookup-delete (c.rdx pvd id) index in
      (
        record {
          homed = v.homed;
          owned = v.owned;
          unlocked = v.unlocked;
          placed = v.placed;
          in_tree = λ d k i q f. v.in_tree d k i q (ground (arith, f, lookup_deleted i));
          queued =
              λ q n. ground (arith, v.queued q n, lookup_deleted (pages_of c q).index, h, n, e);
        },
        λ d k i f.
            let g : at c d k i ≡ some p = ground (arith, f, lookup_deleted i) in
            let t = v.in_tree d k i p g in
            ground (arith, f, lookup_deleted i, t.same_pvd, t.same_index, t.own_tree),
      )

  -- Freeing a page that no one else can reach keeps the invariant.
  pub free_page_lock-IsCached :
      (c : Cache R) (p : ℕ)
      → IsCached c
      → IsHeld c p
      → IsCached (record c { page_map = free_page_lock c.page_map p })
  unfolding free_page_lock fmap_radix_lookup
  free_page_lock-IsCached c p v h = record {
    homed =
        free_page_lock-IsHomed ncpus percpu c.page_map (pages_of c p).cpuid p v.homed
          (v.owned p (ground (arith, h.taken))) (ground (arith, h.taken));
    owned = λ q. ground (arith, v.owned q);
    unlocked = λ q. ground (arith, v.unlocked q);
    placed = record {
      clean_valid = v.placed.clean_valid;
      dirty_valid = v.placed.dirty_valid;
      in_clean = λ q r. ground (arith, v.placed.in_clean q r, h.unqueued);
      in_dirty = λ q r. ground (arith, v.placed.in_dirty q r, h.unqueued);
    };
    in_tree = λ d k i q e.
        let t = v.in_tree d k i q e in
        let other : q ≢ p = λ s. ground (arith, h.out_of_trees d k i, e, s) in
        record {
          same_pvd = ground (arith, t.same_pvd, other);
          same_index = ground (arith, t.same_index, other);
          used = ground (arith, t.used, other);
          own_tree = t.own_tree;
          readable = ground (arith, t.readable, other);
        };
    queued = λ q n. ground (arith, v.queued q, n);
  }

  -- The cache with the page `p` locked.
  abbrev pub with_lock : Cache R → ℕ → Cache R
  with_lock c p = with_pages c (update (pages_of c) p (record (pages_of c p) { locked = true }))

  pub with_lock-IsCached :
      (c : Cache R) (p : ℕ) → IsCached c → (pages_of c p).in_use ≡ 1 → IsCached (with_lock c p)
  with_lock-IsCached c p v u =
      with_pages-IsCached c (pages_of (with_lock c p)) v (λ q. ground arith) (λ q. ground arith)
        (λ q. ground arith) (λ q. ground arith) (λ q. ground arith)
        (λ q. ground (arith, v.unlocked q, u)) (λ q h. ground (arith, h))
