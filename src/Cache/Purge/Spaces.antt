-- ===== src/Cache/Purge/Spaces.antt =====
-- The address spaces whose mappings a purge removes.
use fast_map.Common.{
  ℕ, zero, suc, ◌≤◌, ◌<◌, ◌≡◌, refl, sym, subst, true, leb, ◌==◌, List, [], ◌∷◌, none, some, arith,
  count, count-append, length, replicate, Bool-cases, inl, inr,
}
use fast_map.TaggedPage.{bi_clean}
use fast_map.Fifo.{Taken}
use fast_map.Fifo.Lp
use fast_map.Buffer.{clean_id}
use fast_map.Buffer.Etlb.{EtlbEntry, no_entry, free_entries}
use fast_map.Cache.{Cache, Kernel, pages_of, radix_delete_page}
use fast_map.Cache.Cached.{IsCached}
use fast_map.Cache.Purge.{Purge, etlb_entries, deq, detach, purge_round, purge, no_purge}
use fast_map.Cache.Purge.Rounds.{
  accepts, Dequeued, empty, refused, took, dequeue_if-Dequeued, taken_out,
}
use fast_map.Cache.Purge.Detached.{
  IsPurging, round_after, round_after-IsPurging, no_purge-IsPurging,
}
use fast_map.Cache.Purge.Room.{unmet, HasRoom, AreAmong, remove_mappings-HasRoom}

unmet-le-length : (mms : List ℕ) (es : List EtlbEntry) → unmet mms es ≤ length mms
unmet-le-length [] es = omega arith
unmet-le-length (mm ∷ mms) es = ground (arith, unmet-le-length mms es)

free_entries-replicate : (n : ℕ) → free_entries (replicate n no_entry) ≡ n
free_entries-replicate zero = refl
free_entries-replicate (suc n) = ground (arith, free_entries-replicate n)

module _ {R : Type 0} (kernel : Kernel R) (ncpus percpu qid : ℕ) where
  -- The address spaces of the valid mappings of the pages that a purge of the queue may take are among
  -- `mms`.
  abbrev pub AreSpaces : List ℕ → Cache R → Type 0
  AreSpaces mms c =
      (p : ℕ)
      → (pages_of c p).buffer_id ≡ bi_clean
      → clean_id (pages_of c p) ≡ qid
      → accepts c.backing (pages_of c p) ≡ true
      → AreAmong kernel.vm_mm mms (pages_of c p).rmap

  -- A purge of the queue may take pages with valid mappings of more address spaces than the etlb has
  -- entries: every list that has all of them is longer.
  abbrev pub Overran : Cache R → Type 0
  Overran c = (mms : List ℕ) → AreSpaces mms c → etlb_entries < length mms

  round_after-HasRoom :
      (mms : List ℕ) (c0 : Cache R) (s : Purge R) (x : Taken)
      → IsPurging kernel ncpus percpu qid c0 s
      → AreSpaces mms c0
      → Dequeued s.cache.backing (s.cache.clean qid) (pages_of s.cache) x
      → HasRoom mms s.etlb
      → HasRoom mms (round_after kernel ncpus percpu qid s x).etlb
  unfolding detach radix_delete_page
  round_after-HasRoom mms c0 s x v a (empty e) r = r
  round_after-HasRoom mms c0 s x v a (refused p rest e b) r = r
  round_after-HasRoom mms c0 s x v a (took p rest e b) r =
      let new : count p s.pgs ≡ 0 = elim (Bool-cases (count p s.pgs == 0)) [
        | inl z ↦ ground (arith, z)
        | inr z ↦ absurd (ground (arith, (v.held p (ground (arith, z))).locked, b))
      ] in
      let after = round_after-IsPurging kernel ncpus percpu qid c0 s _ v (took p rest e b) in
      let (clean, id, accepted, cpu) =
        after.chosen p (ground (arith, count-append p s.pgs (p ∷ []))) in
      let c = radix_delete_page kernel (taken_out kernel ncpus percpu s.cache qid p rest) p in
      let same : (pages_of c p).rmap ≡ (pages_of c0 p).rmap = ground (arith, v.untouched p new) in
      let among : AreAmong kernel.vm_mm mms (pages_of c p).rmap =
        subst (λ rmap. AreAmong kernel.vm_mm mms rmap) (sym same) (a p clean id accepted) in
      remove_mappings-HasRoom kernel.vm_mm mms (pages_of c p).rmap s.etlb among r

  purge-HasRoom :
      (mms : List ℕ) (n : ℕ) (c0 : Cache R) (s : Purge R)
      → IsPurging kernel ncpus percpu qid c0 s
      → AreSpaces mms c0
      → HasRoom mms s.etlb
      → HasRoom mms (purge kernel qid n s).etlb
  unfolding purge purge_round
  purge-HasRoom mms zero c0 s v a r = r
  purge-HasRoom mms (suc n) c0 s v a r =
      let x = Lp.dequeue_if (deq s.cache.backing) (s.cache.clean qid) (pages_of s.cache) in
      let step =
        dequeue_if-Dequeued s.cache.backing (s.cache.clean qid) (pages_of s.cache)
          (v.cached.placed.clean_valid qid) in
      purge-HasRoom mms n c0 (purge_round kernel qid s)
        (round_after-IsPurging kernel ncpus percpu qid c0 s x v step) a
        (round_after-HasRoom mms c0 s x v a step r)

  -- Any number of rounds over at most 16 address spaces stays within the etlb.
  pub rounds-within :
      (mms : List ℕ) (n : ℕ) (c : Cache R)
      → IsCached kernel ncpus percpu c
      → AreSpaces mms c
      → length mms ≤ etlb_entries
      → (es : List EtlbEntry) × ((purge kernel qid n (no_purge c)).etlb ≡ some es)
  rounds-within mms n c v a h =
      let start = replicate etlb_entries no_entry in
      let (es, e, r) =
        purge-HasRoom mms n c (no_purge c) (no_purge-IsPurging kernel ncpus percpu qid c v) a (
          start,
          refl,
          omega (arith, h, unmet-le-length mms start, free_entries-replicate etlb_entries),
        ) in
      (es, e)

  pub rounds-Overran :
      (n : ℕ) (c : Cache R)
      → IsCached kernel ncpus percpu c
      → (purge kernel qid n (no_purge c)).etlb ≡ none
      → Overran c
  rounds-Overran n c v e mms a = elim (Bool-cases (leb (length mms) etlb_entries)) [
    | inl h ↦
        let (es, s) = rounds-within mms n c v a (ground (arith, h)) in absurd (ground (arith, e, s))
    | inr h ↦ ground (arith, h)
  ]
