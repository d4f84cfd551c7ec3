-- ===== src/Cache/Drain/Drained.antt =====
-- One page of a clean queue that is drained.
use mathlib.Core.Path.{fun_ext}
use fast_map.Common.{ℕ, ◌%◌, ◌≡◌, ◌≢◌, ap, ◌∙◌, true, false, List, ◌∷◌, some, arith}
use fast_map.TaggedPage.{bi_none, trylock_tp}
use fast_map.Fifo.{Pages, update, set_buffer_id, decrement}
use fast_map.Buffer.{set_queue}
use fast_map.Cache.{Cache, Kernel, pages_of, with_pages, fmap_radix_lookup, radix_delete_page}
use fast_map.Cache.Cached.{IsCached, free_page_lock-IsCached}
use fast_map.Cache.Purge.Purged.{IsFree, free_page_lock-IsFree, free_page_lock-other}
use fast_map.Cache.Purge.Rounds.{head-placed, taken_out, detached, detached-IsHeld, locked_out}
use fast_map.Cache.Drain.{drop_mappings, drain_locked, drain_page}

locked_after :
    (m : Pages) (p : ℕ)
    → update (set_buffer_id m p bi_none) p (record (set_buffer_id m p bi_none p) { locked = true })
      ≡ locked_out m p
locked_after m p = fun_ext (λ q. ground arith)

module _ {R : Type 0} (kernel : Kernel R) (ncpus percpu : ℕ) where
  -- The cache `c'` is `c` without the head `p` of queue `i`, whose rest is `rest`.
  pub record IsDrained (i p : ℕ) (rest : List ℕ) (c c' : Cache R) : Type 0 where
    pub cached : IsCached kernel ncpus percpu c'
    pub free : IsFree (pages_of c' p)
    pub other_pages : (q : ℕ) → q ≢ p → pages_of c' q ≡ pages_of c q
    pub queue : (c'.clean i).buffer ≡ rest
    pub other_queues : (j : ℕ) → j ≢ i → c'.clean j ≡ c.clean j

  -- `c` with the head `p` of queue `i` taken out, as `dequeue` leaves it.
  abbrev pub dequeued : Cache R → ℕ → ℕ → List ℕ → Cache R
  dequeued c i p rest = record (with_pages c (set_buffer_id (pages_of c) p bi_none)) {
    clean =
        set_queue c.clean i
          (record (c.clean i) { buffer = rest; size = decrement (c.clean i).size });
  }

  drain_locked-IsDrained :
      (c : Cache R) (i p : ℕ) (rest : List ℕ)
      → IsCached kernel ncpus percpu c
      → (c.clean i).buffer ≡ p ∷ rest
      → (pages_of c p).in_use ≡ 1
      → IsDrained i p rest c (drain_locked kernel p (taken_out kernel ncpus percpu c i p rest))
  unfolding drain_locked radix_delete_page
  drain_locked-IsDrained c i p rest v e u =
      let c1 = taken_out kernel ncpus percpu c i p rest in
      let rmap = drop_mappings (pages_of c1 p).rmap in
      let c2 = detached kernel ncpus percpu c1 p rmap in
      let both = detached-IsHeld kernel ncpus percpu c i p rest rmap v e u in
      record {
        cached = free_page_lock-IsCached kernel ncpus percpu c2 p both.0 both.1;
        free = free_page_lock-IsFree c2.page_map p;
        other_pages = λ q n. ground (arith, free_page_lock-other c2.page_map p q n, n);
        queue = ground arith;
        other_queues = λ j n. ground (arith, n);
      }

  -- The page is not locked by another thread, so the drain does not wait.
  pub drain_page-IsDrained :
      (c : Cache R) (i p : ℕ) (rest : List ℕ)
      → IsCached kernel ncpus percpu c
      → (c.clean i).buffer ≡ p ∷ rest
      → (pages_of c p).locked ≡ false
      → (c' : Cache R) × ((drain_page kernel p false (dequeued c i p rest) ≡ some c')
          × IsDrained i p rest c c')
  unfolding drain_page trylock_tp fmap_radix_lookup
  drain_page-IsDrained c i p rest v e l =
      let (clean, own, once) = head-placed kernel ncpus percpu c i p rest v e in
      let index = (pages_of c p).index in
      let t =
        v.in_tree (pages_of c p).pvd (index % kernel.num_online_cpus) index p
          (v.queued p (ground (arith, clean))) in
      let c1 = taken_out kernel ncpus percpu c i p rest in
      let m = set_buffer_id (pages_of c) p bi_none in
      let locked : Cache R =
        with_pages (dequeued c i p rest) (update m p (record (m p) { locked = true })) in
      let same : locked ≡ c1 =
        ap (λ (x : Pages). with_pages (dequeued c i p rest) x) (locked_after (pages_of c) p) in
      let drains : drain_page kernel p false (dequeued c i p rest)
          ≡ some (drain_locked kernel p locked) =
        ground (arith, t.used, l) in
      (
        drain_locked kernel p c1,
        (
          drains ∙ ap (λ x. some (drain_locked kernel p x)) same,
          drain_locked-IsDrained c i p rest v e t.used,
        ),
      )
