-- ===== src/Cache/Drain/Cleaned.antt =====
-- All clean queues after `cleanup_params_fifo_buffer_t`.
use fast_map.Common.{
  ℕ, zero, suc, ◌+◌, ◌<◌, ◌≤◌, ◌≡◌, refl, sym, subst, ◌∙◌, true, false, ◌==◌, ltb, leb, ◌&&◌, [],
  Option, none, some, arith, count, length, Bool-cases, inl, inr, Bool,
}
use fast_map.TaggedPage.{TaggedPage, bi_clean}
use fast_map.Buffer.{clean_id}
use fast_map.Cache.{Cache, Kernel, pages_of}
use fast_map.Cache.Cached.{IsCached}
use fast_map.Cache.Purge.Purged.{IsFree}
use fast_map.Cache.Drain.{drain_queue, drain_queues, cleanup_params}
use fast_map.Cache.Drain.Emptied.{IsEmptied, Ends, ends, drain_queue-Ends}

-- The page is in one of the `n` clean queues from `i` on.
abbrev pub is_between : ℕ → ℕ → TaggedPage → Bool
is_between i n t = (t.buffer_id == bi_clean) && (leb i (clean_id t) && ltb (clean_id t) (i + n))

module _ {R : Type 0} (kernel : Kernel R) (ncpus percpu : ℕ) where
  -- The cache `c'` is `c` without the pages of the `n` queues from `i` on.
  pub record AreEmptied (i n : ℕ) (c c' : Cache R) : Type 0 where
    pub cached : IsCached kernel ncpus percpu c'
    pub empty : (j : ℕ) → i ≤ j → j < i + n → (c'.clean j).buffer ≡ []
    pub freed : (q : ℕ) → is_between i n (pages_of c q) ≡ true → IsFree (pages_of c' q)
    pub other_pages : (q : ℕ) → is_between i n (pages_of c q) ≡ false → pages_of c' q ≡ pages_of c q
    pub other_queues : (j : ℕ) → j < i → c'.clean j ≡ c.clean j

  -- What the loop needs: no page of a clean queue is locked, and the fuel exceeds their lengths.
  pub record AreDrainable (fuel : ℕ) (c : Cache R) : Type 0 where
    pub cached : IsCached kernel ncpus percpu c
    pub unlocked : (q : ℕ) → (pages_of c q).buffer_id ≡ bi_clean → (pages_of c q).locked ≡ false
    pub short : (j : ℕ) → length (c.clean j).buffer < fuel

  later-AreDrainable :
      (i fuel : ℕ) (c c1 : Cache R)
      → AreDrainable fuel c
      → IsEmptied kernel ncpus percpu i (c.clean i).buffer c c1
      → AreDrainable fuel c1
  later-AreDrainable i fuel c c1 a d = record {
    cached = d.cached;
    unlocked = λ q h. elim (Bool-cases (count q (c.clean i).buffer == 0)) [
      | inl z ↦ ground (arith, h, a.unlocked q, d.other_pages q (ground (arith, z)))
      | inr z ↦ ground (arith, h, (d.freed q (ground (arith, z))).unqueued)
    ];
    short = λ j. elim (Bool-cases (j == i)) [
      | inl z ↦ ground (arith, z, d.empty, a.short j)
      | inr z ↦ ground (arith, a.short j, d.other_queues j (ground (arith, z)))
    ];
  }

  later-AreEmptied :
      (i n : ℕ) (c c1 c' : Cache R)
      → IsCached kernel ncpus percpu c
      → IsEmptied kernel ncpus percpu i (c.clean i).buffer c c1
      → AreEmptied (suc i) n c1 c'
      → AreEmptied i (suc n) c c'
  later-AreEmptied i n c c1 c' v d r = record {
    cached = r.cached;
    empty = λ j h l. elim (Bool-cases (j == i)) [
      | inl z ↦ ground (arith, z, d.empty, r.other_queues j (ground (arith, z)))
      | inr z ↦ r.empty j (ground (arith, z, h)) (omega (arith, l))
    ];
    freed = λ q h. elim (Bool-cases (count q (c.clean i).buffer == 0)) [
      | inl z ↦
          let same = d.other_pages q (ground (arith, z)) in
          r.freed q (ground (arith, h, z, same, v.placed.in_clean i q))
      | inr z ↦
          let free = d.freed q (ground (arith, z)) in
          let same = r.other_pages q (ground (arith, free.unqueued)) in subst IsFree (sym same) free
    ];
    other_pages = λ q h.
        let same = d.other_pages q (ground (arith, h, v.placed.in_clean i q)) in
        r.other_pages q (ground (arith, h, same)) ∙ same;
    other_queues =
        λ j h. r.other_queues j (omega (arith, h)) ∙ d.other_queues j (ground (arith, h));
  }

  later-Ends :
      (i n : ℕ) (c c1 : Cache R) (x : Option (Cache R))
      → IsCached kernel ncpus percpu c
      → IsEmptied kernel ncpus percpu i (c.clean i).buffer c c1
      → Ends kernel ncpus percpu (AreEmptied (suc i) n c1) x
      → Ends kernel ncpus percpu (AreEmptied i (suc n) c) x
  later-Ends i n c c1 x v d (ends c' r) = ends c' (later-AreEmptied i n c c1 c' v d r)

  drain_queues-Ends :
      (i n fuel : ℕ) (c : Cache R)
      → AreDrainable fuel c
      → Ends kernel ncpus percpu (AreEmptied i n c) (drain_queues kernel i n fuel c)
  unfolding drain_queues
  drain_queues-Ends i zero fuel c a = ends c (record {
    cached = a.cached;
    empty = λ j h l. absurd (omega (arith, h, l));
    freed = λ q h. ground (arith, h);
    other_pages = λ q h. refl;
    other_queues = λ j h. refl;
  })
  drain_queues-Ends i (suc n) fuel c a =
      from (drain_queue kernel i fuel c)
        (drain_queue-Ends kernel ncpus percpu i fuel (c.clean i).buffer c a.cached refl
          (λ q h. a.unlocked q (ground (arith, h, a.cached.placed.in_clean i q))) (a.short i))
        (λ c1 b. drain_queues-Ends (suc i) n fuel c1 b)
    where
      from :
          (x : Option (Cache R))
          → Ends kernel ncpus percpu (IsEmptied kernel ncpus percpu i (c.clean i).buffer c) x
          → ((c1 : Cache R)
              → AreDrainable fuel c1
              → Ends kernel ncpus percpu
                  (AreEmptied (suc i) n c1)
                  (drain_queues kernel (suc i) n fuel c1))
          → Ends kernel ncpus percpu
              (AreEmptied i (suc n) c)
              (elim x [ none ↦ none | some c' ↦ drain_queues kernel (suc i) n fuel c' ])
      from x (ends c1 d) rest =
          later-Ends i n c c1 (drain_queues kernel (suc i) n fuel c1) a.cached d
            (rest c1 (later-AreDrainable i fuel c c1 a d))

  -- Where trees, queues and free lists agree, no page of a clean queue is locked and the fuel
  -- exceeds the length of each clean queue: cleanup_params returns; the 32 clean queues are then
  -- empty, every page that was in one is free, every other page is as it was, and trees, queues and
  -- free lists agree again.
  pub cleanup_params-Ends :
      (fuel : ℕ) (c : Cache R)
      → AreDrainable fuel c
      → Ends kernel ncpus percpu (AreEmptied 0 32 c) (cleanup_params kernel fuel c)
  unfolding cleanup_params
  cleanup_params-Ends fuel c a = drain_queues-Ends 0 32 fuel c a
