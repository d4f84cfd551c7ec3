-- ===== src/Cache/Purge/Purged.antt =====
-- What `try_purge_pages_fast` leaves.
use fast_map.Common.{
  ℕ, ◌≤◌, ◌≡◌, ◌≢◌, refl, ◌∙◌, true, false, ◌==◌, List, [], ◌∷◌, Option, none, some, arith, count,
  length, Bool-cases, inl, inr,
}
use fast_map.TaggedPage.{TaggedPage, bi_none, bi_clean}
use fast_map.Buffer.{clean_id}
use fast_map.Buffer.Etlb.{EtlbEntry}
use fast_map.PageMap.{PageMap, free_page_lock}
use fast_map.Cache.{Cache, Kernel, pages_of}
use fast_map.Cache.Cached.{at, IsCached, IsHeld, free_page_lock-IsCached}
use fast_map.Cache.Purge.{free_pages, purge, purge_rounds, no_purge, try_purge_pages_fast}
use fast_map.Cache.Purge.Rounds.{accepts}
use fast_map.Cache.Purge.Detached.{rounds-IsPurging}
use fast_map.Cache.Purge.Spaces.{Overran, rounds-Overran}

-- The page is free: not in use, not locked and in no queue.
pub record IsFree (t : TaggedPage) : Type 0 where
  pub unused : t.in_use ≡ 0
  pub unlocked : t.locked ≡ false
  pub unqueued : t.buffer_id ≡ bi_none

pub free_page_lock-other :
    (pm : PageMap) (p q : ℕ) → q ≢ p → (free_page_lock pm p).pages q ≡ pm.pages q
unfolding free_page_lock
free_page_lock-other pm p q n = ground (arith, n)

pub free_page_lock-IsFree : (pm : PageMap) (p : ℕ) → IsFree ((free_page_lock pm p).pages p)
unfolding free_page_lock
free_page_lock-IsFree pm p = record {
  unused = ground arith;
  unlocked = ground arith;
  unqueued = ground arith;
}

free_pages-other :
    (ps : List ℕ) (pm : PageMap) (q : ℕ) → count q ps ≡ 0 → (free_pages ps pm).pages q ≡ pm.pages q
unfolding free_pages
free_pages-other [] pm q h = refl
free_pages-other (p ∷ ps) pm q h =
    free_pages-other ps (free_page_lock pm p) q (ground (arith, h))
    ∙ free_page_lock-other pm p q (λ e. ground (arith, h, e))

module _ {R : Type 0} (kernel : Kernel R) (ncpus percpu : ℕ) where
  pub record IsFreed (ps : List ℕ) (c : Cache R) : Type 0 where
    pub cached : IsCached kernel ncpus percpu c
    pub free : (q : ℕ) → count q ps ≢ 0 → IsFree (pages_of c q)

  free_pages-IsFreed :
      (ps : List ℕ) (c : Cache R)
      → IsCached kernel ncpus percpu c
      → ((q : ℕ) → count q ps ≢ 0 → IsHeld kernel ncpus percpu c q)
      → ((q : ℕ) → count q ps ≤ 1)
      → IsFreed ps (record c { page_map = free_pages ps c.page_map })
  unfolding free_pages
  free_pages-IsFreed [] c v h once = record { cached = v; free = λ q n. ground (arith, n) }
  free_pages-IsFreed (p ∷ ps) c v h once =
      let c' = record c { page_map = free_page_lock c.page_map p } in
      let last : count p ps ≡ 0 = ground (arith, once p) in
      let rest =
        free_pages-IsFreed ps c'
          (free_page_lock-IsCached kernel ncpus percpu c p v (h p (ground arith)))
          (λ q n.
            let other : q ≢ p = λ e. ground (arith, n, e, last) in
            let k = h q (ground (arith, n)) in
            let same = free_page_lock-other c.page_map p q other in
            record {
              taken = ground (arith, k.taken, same);
              locked = ground (arith, k.locked, same);
              unqueued = ground (arith, k.unqueued, same);
              out_of_trees = k.out_of_trees;
            })
          (λ q. ground (arith, once q)) in
      let freed = free_page_lock-IsFree c.page_map p in
      let kept = free_pages-other ps (free_page_lock c.page_map p) p last in
      record {
        cached = rest.cached;
        free = λ q n. elim (Bool-cases (q == p)) [
          | inl e ↦ record {
            unused = ground (arith, freed.unused, kept, e);
            unlocked = ground (arith, freed.unlocked, kept, e);
            unqueued = ground (arith, freed.unqueued, kept, e);
          }
          | inr e ↦ rest.free q (ground (arith, n, e))
        ];
      }

  -- From the cache `c0`, a purge of queue `qid` that frees the pages `pgs` leaves the cache `c`.
  pub record ArePurged (qid : ℕ) (pgs : List ℕ) (c0 c : Cache R) : Type 0 where
    pub distinct : (q : ℕ) → count q pgs ≤ 1
    -- The pages were of this queue, unlocked, and of a device that is not being removed.
    pub chosen :
        (q : ℕ)
        → count q pgs ≢ 0
        → ((pages_of c0 q).buffer_id ≡ bi_clean)
          × (clean_id (pages_of c0 q) ≡ qid)
          × (accepts c0.backing (pages_of c0 q) ≡ true)
    pub free : (q : ℕ) → count q pgs ≢ 0 → IsFree (pages_of c q)
    pub untouched : (q : ℕ) → count q pgs ≡ 0 → pages_of c q ≡ pages_of c0 q
    -- The trees hold what they held but these pages.
    pub tree_from :
        (d k i q : ℕ)
        → at kernel ncpus percpu c d k i ≡ some q
        → (at kernel ncpus percpu c0 d k i ≡ some q) × (count q pgs ≡ 0)
    pub tree_kept :
        (d k i q : ℕ)
        → count q pgs ≡ 0
        → at kernel ncpus percpu c0 d k i ≡ some q
        → at kernel ncpus percpu c d k i ≡ some q
    pub cached : IsCached kernel ncpus percpu c

  -- How a purge ends: with its number of pages, or outside of its etlb.
  pub data Purged (qid : ℕ) (c0 : Cache R) : Option (ℕ × Cache R) → Type 0 where
    freed :
        (pgs : List ℕ) (c : Cache R) → ArePurged qid pgs c0 c → Purged qid c0 (some (length pgs, c))
    overran : Overran kernel ncpus percpu qid c0 → Purged qid c0 none

  pub rounds-ArePurged :
      (rounds qid : ℕ) (c : Cache R)
      → IsCached kernel ncpus percpu c
      → let s = purge kernel qid rounds (no_purge c) in
        ArePurged qid s.pgs c (record s.cache { page_map = free_pages s.pgs s.cache.page_map })
  rounds-ArePurged rounds qid c v =
      let s = purge kernel qid rounds (no_purge c) in
      let r = rounds-IsPurging kernel ncpus percpu qid rounds c v in
      let f = free_pages-IsFreed s.pgs s.cache r.cached r.held r.distinct in
      record {
        distinct = r.distinct;
        chosen = λ q n. let (b, i, a, u) = r.chosen q n in (b, i, a);
        free = f.free;
        untouched = λ q n. free_pages-other s.pgs s.cache.page_map q n ∙ r.untouched q n;
        tree_from = λ d k i q e. (
          r.tree_from d k i q e,
          elim (Bool-cases (count q s.pgs == 0)) [
            | inl z ↦ ground (arith, z)
            | inr z ↦ absurd ((r.held q (ground (arith, z))).out_of_trees d k i e)
          ],
        );
        tree_kept = r.tree_kept;
        cached = f.cached;
      }

  -- On a cache whose trees, queues and free lists agree, try_purge_pages_fast either writes outside
  -- of its 16 etlb entries, which it does only where the valid mappings of the unlocked pages of the
  -- given clean queue whose devices are not being removed are of more than 16 address spaces; or it
  -- takes distinct pages of that queue that were unlocked and whose devices are not being removed,
  -- returns their number and leaves each of them free, unlocked, in no queue and in no tree; it then
  -- changes no other page, keeps every other entry of the trees, and trees, queues and free lists
  -- agree again.
  pub try_purge_pages_fast-Purged :
      (qid : ℕ) (c : Cache R)
      → IsCached kernel ncpus percpu c
      → Purged qid c (try_purge_pages_fast kernel qid c)
  unfolding try_purge_pages_fast
  try_purge_pages_fast-Purged qid c v = from (purge kernel qid purge_rounds (no_purge c)).etlb refl
    where
      from :
          (etlb : Option (List EtlbEntry))
          → (purge kernel qid purge_rounds (no_purge c)).etlb ≡ etlb
          → let s = purge kernel qid purge_rounds (no_purge c) in
            Purged qid c (elim etlb [
              | none ↦ none
              | some es ↦
                  some
                    (length s.pgs, record s.cache { page_map = free_pages s.pgs s.cache.page_map })
            ])
      from none e = overran (rounds-Overran kernel ncpus percpu qid purge_rounds c v e)
      from (some es) e = freed _ _ (rounds-ArePurged purge_rounds qid c v)
