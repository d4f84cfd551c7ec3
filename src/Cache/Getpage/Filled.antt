-- ===== src/Cache/Getpage/Filled.antt =====
-- A new page of a fault: it gets its priority, goes to its clean queue and is read.
use fast_map.Common.{
  ℕ, ◌%◌, ◌≡◌, ◌≢◌, true, false, ◌==◌, if◌then◌else◌, some, arith, Bool-cases, inl, inr, subst, sym,
}
use fast_map.TaggedPage.{bi_none}
use fast_map.Fifo.{update}
use fast_map.Fifo.Lp
use fast_map.Buffer.{insert_page}
use fast_map.Buffer.Placed.{insert_page-IsPlaced}
use fast_map.Cache.{
  Backing, Cache, Kernel, pages_of, with_pages, buffer_of, with_buffer, fmap_radix_lookup,
}
use fast_map.Cache.Cached.{IsCached, with_pages-IsCached}
use fast_map.Cache.Getpage.{
  VmFault, dmap_set_page_priority, dmap_do_page_io, read_or_fake_page_bio, fill_page,
}

module _ {R : Type 0} (kernel : Kernel R) (ncpus percpu : ℕ) where
  -- The page that a fault goes on with: locked, and the one that the tree has for its offset.
  pub record IsFound (vmf : VmFault) (c : Cache R) (p : ℕ) : Type 0 where
    pub locked : (pages_of c p).locked ≡ true
    pub in_tree : fmap_radix_lookup kernel c vmf.pvd vmf.pgoff ≡ some p

  enqueued-IsCached :
      (c : Cache R) (p : ℕ)
      → IsCached kernel ncpus percpu c
      → (pages_of c p).buffer_id ≡ bi_none
      → fmap_radix_lookup kernel c (pages_of c p).pvd (pages_of c p).index ≡ some p
      → IsCached kernel ncpus percpu (with_buffer c (insert_page (buffer_of c) p false))
  unfolding insert_page Lp.enqueue fmap_radix_lookup
  enqueued-IsCached c p v h e = record {
    homed = record {
      listed = λ d q. ground (arith, v.homed.listed d q);
      home = λ d q. ground (arith, v.homed.home d q);
    };
    owned = λ q. ground (arith, v.owned q);
    unlocked = λ q. ground (arith, v.unlocked q);
    placed = insert_page-IsPlaced (buffer_of c) p false v.placed h;
    in_tree = λ d k i q f.
        let t = v.in_tree d k i q f in
        record {
          same_pvd = ground (arith, t.same_pvd);
          same_index = ground (arith, t.same_index);
          used = ground (arith, t.used);
          own_tree = t.own_tree;
          readable = ground (arith, t.readable);
        };
    queued = λ q. ground (arith, v.queued q, e);
  }

  with_backing-IsCached :
      (c : Cache R) (backing : ℕ → Backing)
      → IsCached kernel ncpus percpu c
      → IsCached kernel ncpus percpu (record c { backing = backing })
  unfolding fmap_radix_lookup
  with_backing-IsCached c backing v = record {
    homed = v.homed;
    owned = v.owned;
    unlocked = v.unlocked;
    placed = v.placed;
    in_tree = v.in_tree;
    queued = v.queued;
  }

  -- The cache after a new page `p` was filled, from the cache `c`.
  pub record IsFilled (vmf : VmFault) (c c' : Cache R) (p : ℕ) : Type 0 where
    pub cached : IsCached kernel ncpus percpu c'
    pub found : IsFound vmf c' p
    pub valid : (pages_of c' p).page_valid ≡ 1
    pub other_pages : (q : ℕ) → q ≢ p → pages_of c' q ≡ pages_of c q
    -- The page of a block device counts as allocated from now on.
    pub allocated : (c.backing vmf.pvd).is_block ≡ true → (c'.backing vmf.pvd).bits vmf.pgoff ≡ true

  dmap_do_page_io-IsFilled :
      (read_pages_bio : ℕ → ℕ) (vmf : VmFault) (c : Cache R) (p : ℕ)
      → IsCached kernel ncpus percpu c
      → IsFound vmf c p
      → (pages_of c p).page_valid ≡ 0
      → IsFilled vmf c (dmap_do_page_io kernel read_pages_bio vmf p c) p
  unfolding dmap_do_page_io read_or_fake_page_bio fmap_radix_lookup
  dmap_do_page_io-IsFilled read_pages_bio vmf c p v f z =
      let b = c.backing vmf.pvd in
      let (npages, bits) = read_or_fake_page_bio kernel.set_bit read_pages_bio vmf.pgoff b.bits in
      let backing : ℕ → Backing = λ d.
        if b.is_block
        then (if d == vmf.pvd then record b { bits = bits } else c.backing d)
        else c.backing d in
      let m = update (pages_of c) p (record (pages_of c p) { page_valid = 1 }) in
      let same : dmap_do_page_io kernel read_pages_bio vmf p c
          ≡ record (with_pages c m) { backing = backing } =
        elim (Bool-cases b.is_block) [
          | inl e ↦ ground (arith, z, e)
          | inr e ↦ ground (arith, z, e)
        ] in
      let set = kernel.set_bit_lem vmf.pgoff b.bits vmf.pgoff in
      subst (λ x. IsFilled vmf c x p) (sym same)
        (record {
          cached =
              with_pages-IsCached kernel ncpus percpu (record c { backing = backing }) m
                (with_backing-IsCached c backing v) (λ q. ground arith) (λ q. ground arith)
                (λ q. ground arith) (λ q. ground arith) (λ q. ground arith)
                (λ q. ground (arith, v.unlocked q)) (λ q h. ground (arith, h));
          found = record { locked = ground (arith, f.locked); in_tree = f.in_tree };
          valid = ground arith;
          other_pages = λ q n. ground (arith, n);
          allocated = λ e. ground (arith, e, set);
        })

  insert_page-IsFound :
      (vmf : VmFault) (c : Cache R) (p : ℕ)
      → IsFound vmf c p
      → let c' = with_buffer c (insert_page (buffer_of c) p false) in
        IsFound vmf c' p
        × ((pages_of c' p).page_valid ≡ (pages_of c p).page_valid)
        × ((q : ℕ) → q ≢ p → pages_of c' q ≡ pages_of c q)
  unfolding insert_page Lp.enqueue fmap_radix_lookup
  insert_page-IsFound vmf c p f = (
    record { locked = ground (arith, f.locked); in_tree = f.in_tree },
    ground arith,
    λ q n. ground (arith, n),
  )

  pub fill_page-IsFilled :
      (read_pages_bio : ℕ → ℕ) (vmf : VmFault) (c : Cache R) (p : ℕ)
      → IsCached kernel ncpus percpu c
      → IsFound vmf c p
      → (pages_of c p).buffer_id ≡ bi_none
      → (pages_of c p).page_valid ≡ 0
      → IsFilled vmf c (fill_page kernel read_pages_bio vmf p c) p
  unfolding fill_page dmap_set_page_priority fmap_radix_lookup
  fill_page-IsFilled read_pages_bio vmf c p v f h z =
      let t = dmap_set_page_priority (c.backing vmf.pvd) vmf.pgoff (pages_of c p) in
      let c1 = with_pages c (update (pages_of c) p t) in
      let v1 : IsCached kernel ncpus percpu c1 =
        with_pages-IsCached kernel ncpus percpu c (update (pages_of c) p t) v (λ q. ground arith)
          (λ q. ground arith) (λ q. ground arith) (λ q. ground arith) (λ q. ground arith)
          (λ q. ground (arith, v.unlocked q)) (λ q g. ground (arith, g)) in
      let t1 = v.in_tree vmf.pvd (vmf.pgoff % kernel.num_online_cpus) vmf.pgoff p f.in_tree in
      let own : fmap_radix_lookup kernel c1 (pages_of c1 p).pvd (pages_of c1 p).index ≡ some p =
        ground (arith, f.in_tree, t1.same_pvd, t1.same_index) in
      let free : (pages_of c1 p).buffer_id ≡ bi_none = ground (arith, h) in
      let f1 : IsFound vmf c1 p = record {
        locked = ground (arith, f.locked);
        in_tree = f.in_tree;
      } in
      let c2 = with_buffer c1 (insert_page (buffer_of c1) p false) in
      let (f2, valid, others) = insert_page-IsFound vmf c1 p f1 in
      let filled =
        dmap_do_page_io-IsFilled read_pages_bio vmf c2 p (enqueued-IsCached c1 p v1 free own) f2
          (ground (arith, valid, z)) in
      record {
        cached = filled.cached;
        found = filled.found;
        valid = filled.valid;
        other_pages = λ q n. ground (arith, filled.other_pages q n, others q n, n);
        allocated = filled.allocated;
      }
