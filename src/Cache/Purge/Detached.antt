-- ===== src/Cache/Purge/Detached.antt =====
-- The pages that the rounds of `try_purge_pages_fast` gather: what they were, and that no one else can
-- reach them any more.
use mathlib.Core.Path.{fun_ext}
use fast_map.Common.{
  ℕ, zero, suc, ◌≤◌, ◌%◌, ◌≡◌, ◌≢◌, refl, sym, subst, true, false, ◌==◌, List, [], ◌∷◌, ◌++◌,
  Option, none, some, arith, count, count-append, Bool-cases, inl, inr,
}
use fast_map.TaggedPage.{bi_clean}
use fast_map.TaggedPage.Mapping.{Rmap}
use fast_map.Fifo.{Fifo, Taken}
use fast_map.Fifo.Lp
use fast_map.Buffer.{set_queue, clean_id}
use fast_map.Buffer.Etlb.{EtlbEntry}
use fast_map.Cache.{Cache, Kernel, pages_of, with_pages, fmap_radix_lookup, radix_delete_page}
use fast_map.Cache.Cached.{at, IsCached, IsHeld}
use fast_map.Cache.Purge.{Purge, deq, detach, purge_round, purge, remove_mappings, no_purge}
use fast_map.Cache.Purge.Rounds.{
  accepts, Dequeued, empty, refused, took, dequeue_if-Dequeued, rotated, rotated-IsCached,
  taken_out, detached, detached-IsHeld, head-placed,
}

pub set_queue_same : (qs : ℕ → Fifo) (i : ℕ) → set_queue qs i (qs i) ≡ qs
set_queue_same qs i = fun_ext (λ j. ground arith)

module _ {R : Type 0} (kernel : Kernel R) (ncpus percpu qid : ℕ) where
  -- The rounds began with the cache `c0`.
  pub record IsPurging (c0 : Cache R) (s : Purge R) : Type 0 where
    pub cached : IsCached kernel ncpus percpu s.cache
    pub held : (q : ℕ) → count q s.pgs ≢ 0 → IsHeld kernel ncpus percpu s.cache q
    pub distinct : (q : ℕ) → count q s.pgs ≤ 1
    pub untouched : (q : ℕ) → count q s.pgs ≡ 0 → pages_of s.cache q ≡ pages_of c0 q
    pub chosen :
        (q : ℕ)
        → count q s.pgs ≢ 0
        → ((pages_of c0 q).buffer_id ≡ bi_clean)
          × (clean_id (pages_of c0 q) ≡ qid)
          × (accepts c0.backing (pages_of c0 q) ≡ true)
          × ((pages_of s.cache q).cpuid ≡ (pages_of c0 q).cpuid)
    pub tree_from :
        (d k i q : ℕ)
        → at kernel ncpus percpu s.cache d k i ≡ some q
        → at kernel ncpus percpu c0 d k i ≡ some q
    pub tree_kept :
        (d k i q : ℕ)
        → count q s.pgs ≡ 0
        → at kernel ncpus percpu c0 d k i ≡ some q
        → at kernel ncpus percpu s.cache d k i ≡ some q
    pub same_lists : (cpu : ℕ) → s.cache.page_map.fl cpu ≡ c0.page_map.fl cpu
    pub same_backing : (d : ℕ) → s.cache.backing d ≡ c0.backing d

  pub no_purge-IsPurging : (c : Cache R) → IsCached kernel ncpus percpu c → IsPurging c (no_purge c)
  no_purge-IsPurging c v = record {
    cached = v;
    held = λ q n. ground (arith, n);
    distinct = λ q. ground arith;
    untouched = λ q n. refl;
    chosen = λ q n. ground (arith, n);
    tree_from = λ d k i q e. e;
    tree_kept = λ d k i q n e. e;
    same_lists = λ cpu. refl;
    same_backing = λ d. refl;
  }

  rotated-IsPurging :
      (c0 : Cache R) (s : Purge R) (p : ℕ) (rest : List ℕ)
      → IsPurging c0 s
      → (s.cache.clean qid).buffer ≡ p ∷ rest
      → IsPurging c0 (record s { cache = rotated kernel ncpus percpu s.cache qid p rest })
  rotated-IsPurging c0 s p rest v e = record {
    cached = rotated-IsCached kernel ncpus percpu s.cache qid p rest v.cached e;
    held = λ q n.
        let h = v.held q n in
        record {
          taken = h.taken;
          locked = h.locked;
          unqueued = h.unqueued;
          out_of_trees = h.out_of_trees;
        };
    distinct = v.distinct;
    untouched = v.untouched;
    chosen = v.chosen;
    tree_from = v.tree_from;
    tree_kept = v.tree_kept;
    same_lists = v.same_lists;
    same_backing = v.same_backing;
  }

  took-IsPurging :
      (c0 : Cache R) (s : Purge R) (p : ℕ) (rest : List ℕ) (rmap : List Rmap)
      (etlb : Option (List EtlbEntry))
      → IsPurging c0 s
      → (s.cache.clean qid).buffer ≡ p ∷ rest
      → accepts s.cache.backing (pages_of s.cache p) ≡ true
      → IsPurging c0 (record {
        cache =
            detached kernel ncpus percpu (taken_out kernel ncpus percpu s.cache qid p rest) p rmap;
        etlb = etlb;
        pgs = s.pgs ++ p ∷ [];
      })
  unfolding radix_delete_page fmap_radix_lookup
  took-IsPurging c0 s p rest rmap etlb v e a =
      let c = s.cache in
      let used : (pages_of c p).in_use ≡ 1 = ground (arith, a) in
      let open_lock : (pages_of c p).locked ≡ false = ground (arith, a) in
      let head = head-placed kernel ncpus percpu c qid p rest v.cached e in
      let both = detached-IsHeld kernel ncpus percpu c qid p rest rmap v.cached e used in
      let new : count p s.pgs ≡ 0 = elim (Bool-cases (count p s.pgs == 0)) [
        | inl z ↦ ground (arith, z)
        | inr z ↦ ground (arith, (v.held p (ground (arith, z))).locked, open_lock)
      ] in
      let same : pages_of c p ≡ pages_of c0 p = v.untouched p new in
      let t = pages_of c p in
      let id = t.index % kernel.num_online_cpus in
      let in_tree = v.cached.queued p (ground (arith, head)) in
      let deleted = kernel.radix.lookup-delete (c.rdx t.pvd id) t.index in
      let counts = λ (q : ℕ). count-append q s.pgs (p ∷ []) in
      record {
        cached = both.0;
        held = λ q n. elim (Bool-cases (q == p)) [
          | inl z ↦
              subst
                (IsHeld kernel ncpus percpu (
                  detached kernel ncpus percpu (taken_out kernel ncpus percpu c qid p rest) p rmap))
                (ground (arith, z)) both.1
          | inr z ↦
              let h = v.held q (ground (arith, n, counts q, z)) in
              record {
                taken = ground (arith, h.taken, z);
                locked = ground (arith, h.locked, z);
                unqueued = ground (arith, h.unqueued, z);
                out_of_trees = λ d k i f. ground (arith, h.out_of_trees d k i, f, deleted i);
              }
        ];
        distinct = λ q. ground (arith, v.distinct q, counts q, new);
        untouched = λ q n. ground (arith, v.untouched q, counts q, n);
        chosen =
            λ q n. ground (arith, v.chosen q, counts q, n, head, same, a, v.same_backing t.pvd);
        tree_from = λ d k i q f. v.tree_from d k i q (ground (arith, f, deleted i));
        tree_kept = λ d k i q n f.
            let g = v.tree_kept d k i q (ground (arith, n, counts q)) f in
            ground (arith, g, n, counts q, deleted i, in_tree);
        same_lists = v.same_lists;
        same_backing = v.same_backing;
      }

  -- The round after `dequeue_if` returned `x`.
  abbrev pub round_after : Purge R → Taken → Purge R
  round_after s x =
      let (got, f, m) = x in
      let c = s.cache in
      let s' = record s { cache = record (with_pages c m) { clean = set_queue c.clean qid f } } in
      elim got [ none ↦ s' | some p ↦ detach kernel p s' ]

  pub round_after-IsPurging :
      (c0 : Cache R) (s : Purge R) (x : Taken)
      → IsPurging c0 s
      → Dequeued s.cache.backing (s.cache.clean qid) (pages_of s.cache) x
      → IsPurging c0 (round_after s x)
  unfolding detach
  round_after-IsPurging c0 s x v (empty e) =
      subst (λ qs. IsPurging c0 (record s { cache = record s.cache { clean = qs } }))
        (sym (set_queue_same s.cache.clean qid)) v
  round_after-IsPurging c0 s x v (refused p rest e a) = rotated-IsPurging c0 s p rest v e
  round_after-IsPurging c0 s x v (took p rest e a) =
      let c = radix_delete_page kernel (taken_out kernel ncpus percpu s.cache qid p rest) p in
      let removed = remove_mappings kernel.vm_mm (pages_of c p).rmap s.etlb in
      took-IsPurging c0 s p rest removed.0 removed.1 v e a

  purge-IsPurging :
      (n : ℕ) (c0 : Cache R) (s : Purge R) → IsPurging c0 s → IsPurging c0 (purge kernel qid n s)
  unfolding purge purge_round
  purge-IsPurging zero c0 s v = v
  purge-IsPurging (suc n) c0 s v =
      let x = Lp.dequeue_if (deq s.cache.backing) (s.cache.clean qid) (pages_of s.cache) in
      purge-IsPurging n c0 (purge_round kernel qid s) (
        round_after-IsPurging c0 s x v (
          dequeue_if-Dequeued s.cache.backing (s.cache.clean qid) (pages_of s.cache)
            (v.cached.placed.clean_valid qid)))

  -- What any number of rounds gathers.
  pub rounds-IsPurging :
      (n : ℕ) (c : Cache R)
      → IsCached kernel ncpus percpu c
      → IsPurging c (purge kernel qid n (no_purge c))
  rounds-IsPurging n c v = purge-IsPurging n c (no_purge c) (no_purge-IsPurging c v)
