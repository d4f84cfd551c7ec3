-- ===== src/Cache/Steps.antt =====
-- The cache as faults, purges and unlocks change it, one after the other.
use fast_map.Common.{
  ℕ, ◌%◌, ◌≡◌, ◌≢◌, false, Option, none, some, arith, ◌<◌, ◌≤◌, count, ◌+◌, ◌^◌, subst,
}
use fast_map.TaggedPage.{bi_none, unlock_tp}
use fast_map.Fifo.{update}
use fast_map.Buffer.{init_params}
use fast_map.Buffer.Placed.{init_params-IsPlaced}
use fast_map.PageMap.Homed.{IsHomed}
use fast_map.Cache.{Cache, Kernel, pages_of, with_pages, buffer_of, with_buffer, fmap_radix_lookup}
use fast_map.Cache.Cached.{at, IsCached, with_pages-IsCached}
use fast_map.Cache.Purge.{try_purge_pages_fast}
use fast_map.Cache.Purge.Purged.{Purged, freed, overran, try_purge_pages_fast-Purged}
use fast_map.Cache.Getpage.{
  VmFault, Others, Round, Answer, vm_fault_locked, dev_pgs, find_page, perma_getpage,
}
use fast_map.Cache.Getpage.Found.{AreFair}
use fast_map.Cache.Getpage.Rounds.{IsServed}
use fast_map.Cache.Getpage.Answered.{
  Answered, outside, unfinished, overflows_etlb, overflows, locked, perma_getpage-Answered,
}

module _ {R : Type 0} (kernel : Kernel R) (ncpus percpu : ℕ) where
  -- A cache before its first use: the free lists are full, the trees empty, the pages in no queue.
  pub record IsNew (c : Cache R) : Type 0 where
    pub homed : IsHomed ncpus percpu c.page_map
    pub unused : (p : ℕ) → (pages_of c p).in_use ≡ 0
    pub unlocked : (p : ℕ) → (pages_of c p).locked ≡ false
    pub unqueued : (p : ℕ) → (pages_of c p).buffer_id ≡ bi_none
    pub no_entries : (d k i : ℕ) → at kernel ncpus percpu c d k i ≡ none

  -- The cache that `init_params_fifo_buffer_t` makes of it.
  abbrev pub initial : ℕ → ℕ → Cache R → Cache R
  initial num_online_cpus mmap_buf_size c =
      with_buffer c (init_params num_online_cpus mmap_buf_size (buffer_of c))

  pub initial-IsCached :
      (num_online_cpus mmap_buf_size : ℕ) (c : Cache R)
      → IsNew c
      → mmap_buf_size + num_online_cpus + 1 < 2 ^ 64
      → IsCached kernel ncpus percpu (initial num_online_cpus mmap_buf_size c)
  unfolding init_params fmap_radix_lookup
  initial-IsCached cpus size c n h = record {
    homed = n.homed;
    owned = λ p u. absurd (u (n.unused p));
    unlocked = λ p u. n.unlocked p;
    placed = init_params-IsPlaced cpus size (buffer_of c) h n.unqueued;
    in_tree = λ d k i p e. ground (arith, e, n.no_entries d k i);
    queued = λ p b. absurd (b (n.unqueued p));
  }

  -- The kernel unlocks the page that a fault returned.
  abbrev pub unlocked_page : Cache R → ℕ → Cache R
  unlocked_page c p = with_pages c (update (pages_of c) p (unlock_tp (pages_of c p)))

  -- The caches that faults, purges and unlocks of valid pages make.
  pub data Reached : Cache R → Type 0 where
    made :
        (num_online_cpus mmap_buf_size : ℕ) (c : Cache R)
        → IsNew c
        → mmap_buf_size + num_online_cpus + 1 < 2 ^ 64
        → Reached (initial num_online_cpus mmap_buf_size c)
    faulted :
        (others : Others R) (read_pages_bio : ℕ → ℕ) (vmf : VmFault) (random : ℕ → ℕ) (fuel : ℕ)
        (c : Cache R) (p : ℕ) (c' : Cache R)
        → AreFair kernel ncpus percpu vmf others
        → Reached c
        → dev_pgs (c.backing vmf.pvd) < 2 ^ 31
        → vmf.pgoff ≤ dev_pgs (c.backing vmf.pvd)
        → perma_getpage kernel others read_pages_bio vmf random fuel c ≡ vm_fault_locked p c'
        → Reached c'
    purged :
        (qid : ℕ) (c : Cache R) (num_pgs : ℕ) (c' : Cache R)
        → Reached c
        → try_purge_pages_fast kernel qid c ≡ some (num_pgs, c')
        → Reached c'
    unlocked :
        (c : Cache R) (p : ℕ)
        → Reached c
        → (pages_of c p).page_valid ≡ 1
        → Reached (unlocked_page c p)

  is_locked-IsCached :
      (vmf : VmFault) (r : Round R) (a : Answer R) (p : ℕ) (c : Cache R)
      → Answered kernel ncpus percpu vmf r a
      → a ≡ vm_fault_locked p c
      → IsCached kernel ncpus percpu c
  is_locked-IsCached vmf r a p c (overflows_etlb qid c' o b v h) e = absurd (ground (arith, e))
  is_locked-IsCached vmf r a p c (outside o) e = absurd (ground (arith, e))
  is_locked-IsCached vmf r a p c (unfinished c' o b v) e = absurd (ground (arith, e))
  is_locked-IsCached vmf r a p c (overflows q c' o b f m n) e = absurd (ground (arith, e))
  is_locked-IsCached vmf r a p c (locked q found c' o b v f d i u z m) e =
      subst (IsCached kernel ncpus percpu) (ground (arith, e)) v

  is_freed-IsCached :
      (qid : ℕ) (c0 : Cache R) (num : ℕ) (c : Cache R) (x : Option (ℕ × Cache R))
      → Purged kernel ncpus percpu qid c0 x
      → x ≡ some (num, c)
      → IsCached kernel ncpus percpu c
  is_freed-IsCached qid c0 num c x (freed pgs c' a) e =
      subst (IsCached kernel ncpus percpu) (ground (arith, e)) a.cached
  is_freed-IsCached qid c0 num c x (overran h) e = absurd (ground (arith, e))

  Reached-IsCached :
      (c : Cache R) → IsServed kernel ncpus percpu → Reached c → IsCached kernel ncpus percpu c
  unfolding unlock_tp
  Reached-IsCached c served (made cpus size c0 n h) = initial-IsCached cpus size c0 n h
  Reached-IsCached c served (faulted others read_pages_bio vmf random fuel c0 p c' fair r h g e) =
      let answer = perma_getpage kernel others read_pages_bio vmf random fuel c0 in
      is_locked-IsCached vmf (find_page kernel others vmf random fuel c0) answer p c'
        (perma_getpage-Answered kernel ncpus percpu others read_pages_bio vmf random fuel c0 fair
          served (Reached-IsCached c0 served r) h g)
        e
  Reached-IsCached c served (purged qid c0 num c' r e) =
      is_freed-IsCached qid c0 num c' (try_purge_pages_fast kernel qid c0)
        (try_purge_pages_fast-Purged kernel ncpus percpu qid c0 (Reached-IsCached c0 served r)) e
  Reached-IsCached c served (unlocked c0 p r z) =
      let v = Reached-IsCached c0 served r in
      with_pages-IsCached kernel ncpus percpu c0 (pages_of (unlocked_page c0 p)) v
        (λ q. ground arith) (λ q. ground arith) (λ q. ground arith) (λ q. ground arith)
        (λ q. ground arith) (λ q. ground (arith, v.unlocked q)) (λ q h. ground (arith, h, z))

  -- On a machine of one NUMA node with memory for the radix trees, in a cache that was initialised
  -- and then only changed by finished faults among fair CPUs, by purges that stay within their etlb
  -- and by unlocks of valid pages: two pages of the queues with one device and one index are one page, which is in use, in
  -- the tree of the device at that index, and on no free list.
  pub one_page_per_offset :
      (c : Cache R) (p q : ℕ)
      → IsServed kernel ncpus percpu
      → Reached c
      → (pages_of c p).buffer_id ≢ bi_none
      → (pages_of c q).buffer_id ≢ bi_none
      → (pages_of c p).pvd ≡ (pages_of c q).pvd
      → (pages_of c p).index ≡ (pages_of c q).index
      → (p ≡ q)
        × ((pages_of c p).in_use ≡ 1)
        × (fmap_radix_lookup kernel c (pages_of c p).pvd (pages_of c p).index ≡ some p)
        × ((cpu : ℕ) → count p (c.page_map.fl cpu) ≡ 0)
  unfolding fmap_radix_lookup
  one_page_per_offset c p q served r n m d i =
      let v = Reached-IsCached c served r in
      let pvd = (pages_of c p).pvd in
      let index = (pages_of c p).index in
      let k = index % kernel.num_online_cpus in
      let t = v.in_tree pvd k index p (v.queued p n) in
      (
        ground (arith, v.queued p n, v.queued q m, d, i),
        t.used,
        v.queued p n,
        λ cpu. ground (arith, v.homed.listed cpu p, t.used),
      )
