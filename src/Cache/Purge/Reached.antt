-- ===== src/Cache/Purge/Reached.antt =====
-- Which pages `try_purge_pages_fast` reaches.
use fast_map.Common.{
  ℕ, zero, suc, ◌≤◌, ◌<◌, ◌≡◌, ◌≢◌, refl, ◌∙◌, true, List, [], ◌∷◌, ◌++◌, some, arith, count,
  count-append, count-le-length, length, inl, inr, ◌⊎◌,
}
use mathlib.Core.List.{append_assoc}
use fast_map.Fifo.{Taken}
use fast_map.Fifo.Lp
use fast_map.Buffer.Etlb.{EtlbEntry}
use fast_map.Cache.{Cache, Kernel, pages_of, radix_delete_page}
use fast_map.Cache.Cached.{IsCached}
use fast_map.Cache.Purge.{
  Purge, deq, detach, purge_round, purge, purge_rounds, no_purge, etlb_entries, free_pages,
  try_purge_pages_fast,
}
use fast_map.Cache.Purge.Rounds.{
  accepts, Dequeued, empty, refused, took, dequeue_if-Dequeued, head-placed,
}
use fast_map.Cache.Purge.Detached.{
  IsPurging, round_after, round_after-IsPurging, no_purge-IsPurging,
}
use fast_map.Cache.Purge.Spaces.{AreSpaces, rounds-within}
use fast_map.Cache.Purge.Purged.{IsFree, ArePurged, rounds-ArePurged}

module _ {R : Type 0} (kernel : Kernel R) (ncpus percpu qid : ℕ) where
  -- What a round does to a page `p` behind the head `h` of the queue.
  record Behind (s s' : Purge R) (p h : ℕ) (tail : List ℕ) : Type 0 where
    queue : ((s'.cache.clean qid).buffer ≡ tail) ⊎ ((s'.cache.clean qid).buffer ≡ tail ++ h ∷ [])
    same_page : p ≢ h → pages_of s'.cache p ≡ pages_of s.cache p
    same_backing : (d : ℕ) → s'.cache.backing d ≡ s.cache.backing d

  -- The head is gathered if it is accepted.
  record Stepped (s s' : Purge R) (h : ℕ) (tail : List ℕ) : Type 0 where
    kept : (q : ℕ) → count q s.pgs ≢ 0 → count q s'.pgs ≢ 0
    gathered : accepts s.cache.backing (pages_of s.cache h) ≡ true → count h s'.pgs ≢ 0
    behind : (p : ℕ) → Behind s s' p h tail

  round_after-Stepped :
      (s : Purge R) (x : Taken) (h : ℕ) (tail : List ℕ)
      → Dequeued s.cache.backing (s.cache.clean qid) (pages_of s.cache) x
      → (s.cache.clean qid).buffer ≡ h ∷ tail
      → Stepped s (round_after kernel ncpus percpu qid s x) h tail
  unfolding detach radix_delete_page
  round_after-Stepped s x h tail (empty e) f = absurd (ground (arith, e, f))
  round_after-Stepped s x h tail (refused p rest e a) f = record {
    kept = λ q n. n;
    gathered = λ b. ground (arith, e, f, a, b);
    behind = λ q. record {
      queue = inr (ground (arith, e, f));
      same_page = λ n. refl;
      same_backing = λ d. refl;
    };
  }
  round_after-Stepped s x h tail (took p rest e a) f = record {
    kept = λ q n. ground (arith, n, count-append q s.pgs (p ∷ []));
    gathered = λ b. ground (arith, e, f, count-append h s.pgs (p ∷ []));
    behind = λ q. record {
      queue = inl (ground (arith, e, f));
      same_page = λ n. ground (arith, e, f, n);
      same_backing = λ d. refl;
    };
  }

  abbrev dequeued : Purge R → Taken
  dequeued s = Lp.dequeue_if (deq s.cache.backing) (s.cache.clean qid) (pages_of s.cache)

  purge_round-IsPurging :
      (c0 : Cache R) (s : Purge R)
      → IsPurging kernel ncpus percpu qid c0 s
      → IsPurging kernel ncpus percpu qid c0 (purge_round kernel qid s)
  unfolding purge_round
  purge_round-IsPurging c0 s v = round_after-IsPurging kernel ncpus percpu qid c0 s (dequeued s) v (
      dequeue_if-Dequeued s.cache.backing (s.cache.clean qid) (pages_of s.cache)
        (v.cached.placed.clean_valid qid))

  purge_round-Stepped :
      (c0 : Cache R) (s : Purge R) (h : ℕ) (tail : List ℕ)
      → IsPurging kernel ncpus percpu qid c0 s
      → (s.cache.clean qid).buffer ≡ h ∷ tail
      → Stepped s (purge_round kernel qid s) h tail
  unfolding purge_round
  purge_round-Stepped c0 s h tail v e =
      round_after-Stepped s (dequeued s) h tail
        (dequeue_if-Dequeued s.cache.backing (s.cache.clean qid) (pages_of s.cache)
          (v.cached.placed.clean_valid qid))
        e

  round_after-kept :
      (s : Purge R) (x : Taken) (q : ℕ)
      → Dequeued s.cache.backing (s.cache.clean qid) (pages_of s.cache) x
      → count q s.pgs ≢ 0
      → count q (round_after kernel ncpus percpu qid s x).pgs ≢ 0
  unfolding detach
  round_after-kept s x q (empty e) n = n
  round_after-kept s x q (refused p rest e a) n = n
  round_after-kept s x q (took p rest e a) n = ground (arith, n, count-append q s.pgs (p ∷ []))

  purge-kept :
      (n : ℕ) (c0 : Cache R) (s : Purge R) (q : ℕ)
      → IsPurging kernel ncpus percpu qid c0 s
      → count q s.pgs ≢ 0
      → count q (purge kernel qid n s).pgs ≢ 0
  unfolding purge purge_round
  purge-kept zero c0 s q v h = h
  purge-kept (suc n) c0 s q v h =
      purge-kept n c0 (purge_round kernel qid s) q (purge_round-IsPurging c0 s v) (
        round_after-kept s (dequeued s) q
          (dequeue_if-Dequeued s.cache.backing (s.cache.clean qid) (pages_of s.cache)
            (v.cached.placed.clean_valid qid))
          h)

  purge-reaches :
      (n : ℕ) (c0 : Cache R) (s : Purge R) (front : List ℕ) (p : ℕ) (back : List ℕ)
      → IsPurging kernel ncpus percpu qid c0 s
      → (s.cache.clean qid).buffer ≡ front ++ p ∷ back
      → length front < n
      → accepts s.cache.backing (pages_of s.cache p) ≡ true
      → count p (purge kernel qid n s).pgs ≢ 0
  unfolding purge
  purge-reaches zero c0 s front p back v e r a = absurd (omega arith)
  purge-reaches (suc n) c0 s [] p back v e r a =
      purge-kept n c0 (purge_round kernel qid s) p (purge_round-IsPurging c0 s v)
        ((purge_round-Stepped c0 s p back v e).gathered a)
  purge-reaches (suc n) c0 s (h ∷ front) p back v e r a =
      let b = (purge_round-Stepped c0 s h (front ++ p ∷ back) v e).behind p in
      let here = head-placed kernel ncpus percpu s.cache qid h (front ++ p ∷ back) v.cached e in
      let other : p ≢ h = ground (arith, here, count-append h front (p ∷ back)) in
      let still : accepts (purge_round kernel qid s).cache.backing
            (pages_of (purge_round kernel qid s).cache p)
          ≡ true =
        ground (arith, a, b.same_page other, b.same_backing (pages_of s.cache p).pvd) in
      let v' = purge_round-IsPurging c0 s v in
      elim b.queue [
        | inl q ↦
            purge-reaches n c0 (purge_round kernel qid s) front p back v' q (omega arith) still
        | inr q ↦
            purge-reaches n c0 (purge_round kernel qid s) front p (back ++ h ∷ []) v'
              (q ∙ append_assoc front (p ∷ back) (h ∷ [])) (omega arith) still
      ]

  frees_within :
      (c : Cache R) (es : List EtlbEntry)
      → (purge kernel qid purge_rounds (no_purge c)).etlb ≡ some es
      → let s = purge kernel qid purge_rounds (no_purge c) in
        try_purge_pages_fast kernel qid c
        ≡ some (length s.pgs, record s.cache { page_map = free_pages s.pgs s.cache.page_map })
  unfolding try_purge_pages_fast
  frees_within c es e = rw (e, try_purge_pages_fast)

  -- On a cache whose trees, queues and free lists agree, and where the mappings of the queue are of at
  -- most 16 address spaces, a page among the first 192 of the clean queue that is unlocked and of a
  -- device that is not being removed is free after try_purge_pages_fast, which then returns at least 1.
  pub try_purge_pages_fast-frees :
      (c : Cache R) (mms front : List ℕ) (p : ℕ) (back : List ℕ)
      → IsCached kernel ncpus percpu c
      → (c.clean qid).buffer ≡ front ++ p ∷ back
      → length front < 192
      → accepts c.backing (pages_of c p) ≡ true
      → AreSpaces kernel ncpus percpu qid mms c
      → length mms ≤ etlb_entries
      → (n : ℕ) × (c' : Cache R) × (try_purge_pages_fast kernel qid c ≡ some (n, c'))
        × (0 < n)
        × IsFree (pages_of c' p)
        × (pgs : List ℕ) × ArePurged kernel ncpus percpu qid pgs c c'
  try_purge_pages_fast-frees c mms front p back v e r a spaces few =
      let s = purge kernel qid purge_rounds (no_purge c) in
      let purged = rounds-ArePurged kernel ncpus percpu purge_rounds qid c v in
      let (es, within) = rounds-within kernel ncpus percpu qid mms purge_rounds c v spaces few in
      let got =
        purge-reaches purge_rounds c (no_purge c) front p back
          (no_purge-IsPurging kernel ncpus percpu qid c v) e r a in
      (
        length s.pgs,
        record s.cache { page_map = free_pages s.pgs s.cache.page_map },
        frees_within c es within,
        omega (arith, got, count-le-length p s.pgs),
        purged.free p got,
        s.pgs,
        purged,
      )
