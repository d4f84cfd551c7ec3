-- ===== src/Write/Flush/Flushed.antt =====
-- `write_dirty_pages` as a whole.
use mathlib.Core.List.{flatten, append-nil}
use fast_map.Common.{
  ℕ, ◌+◌, ◌≤◌, ◌<◌, ◌≡◌, refl, sym, ap, subst, ◌∙◌, Bool, true, false, ltb, if◌then◌else◌, List, [],
  ◌∷◌, ◌++◌, count, length, All, All-append, some, arith, Bool-cases, inl, inr,
}
use fast_map.Buffer.{Buffer, move_page_d2c}
use fast_map.Rbtree.{Tree, inorder, RbLib}
use fast_map.Rbtree.Search.{Increasing}
use fast_map.Fault.Writable.{index_of}
use fast_map.Write.Heap.{max_cpus, min_heap_create}
use fast_map.Write.Flush.{Flush, Cleanup, write_batch, max_pages, write_dirty_pages}
use fast_map.Write.Flush.Sums.{over, over-term, holds, weight, nothing_counted}
use fast_map.Write.Flush.Invariant.{Inv, in_heap, every}
use fast_map.Write.Flush.Batch.{
  IsHarmless, IsBatch, HasBatches, trace, write_batch-Inv, trace-write_batch,
}
use fast_map.Write.Flush.Whole.{
  Ascending, Filled, fill_heap-Filled, Drained, drain_heap-Drained, no_front,
}

-- `blkdev_release_cb`
pub move_page_d2c-IsHarmless : IsHarmless (some move_page_d2c)
unfolding move_page_d2c
move_page_d2c-IsHarmless = record {
  same_index = λ b p q. ground arith;
  same_in_use = λ b p q. ground arith;
  same_locked = λ b p q. ground arith;
}

-- The trees are in order and hold no page twice, and their pages are in use and not locked.
pub record IsReady (ncpus : ℕ) (b : Buffer) (trees : ℕ → Tree) : Type 0 where
  pub ordered : (c : ℕ) → Increasing (index_of b.pages) (inorder (trees c))
  pub once : (q : ℕ) → over (holds q) trees ncpus ≤ 1
  pub unlocked : (q : ℕ) → 0 < over (holds q) trees ncpus → (b.pages q).locked ≡ false
  pub used : (q : ℕ) → 0 < over (holds q) trees ncpus → (b.pages q).in_use ≡ 1

pub record IsFlushed (ncpus : ℕ) (b : Buffer) (trees : ℕ → Tree) (s : Flush) : Type 0 where
  pub ascending : Ascending (index_of b.pages) 0 (flatten s.written)
  pub whole : (q : ℕ) → count q (flatten s.written) ≡ over (holds q) trees ncpus
  pub batches : All IsBatch s.written
  pub emptied : (c : ℕ) → c < ncpus → inorder (s.trees c) ≡ []
  pub unlocked : (q : ℕ) → (s.buffer.pages q).locked ≡ (b.pages q).locked

module _ (lib : RbLib) (ncpus : ℕ) (cleanup : Cleanup) (harmless : IsHarmless cleanup) (b : Buffer)
    (trees : ℕ → Tree) where
  abbrev pub index : ℕ → ℕ
  index = index_of b.pages

  abbrev pub before : ℕ → Bool
  before q = (b.pages q).locked

  abbrev pub start : Flush
  start = record { buffer = b; trees = trees; heap = min_heap_create; pages = []; written = [] }

  pub start-Inv : IsReady ncpus b trees → Inv ncpus index before (λ c. ltb c 0) start [] 0
  unfolding min_heap_create
  start-Inv r = record {
    heaped = λ c p q. absurd (omega arith);
    fits = omega arith;
    entries = refl;
    indices = λ q. refl;
    ordered = r.ordered;
    used = λ c q l h. r.used q (omega (arith, h, over-term (holds q) trees ncpus c l));
    front = λ c q l e h. absurd (ground (arith, e));
    above = λ c q l h. omega arith;
    once = λ q. omega (arith, r.once q);
    locks = λ q. refl;
    free = λ q h. r.unlocked q (omega (arith, h));
  }

  -- The last batch, where there is one.
  unfoldable pub finish : Flush → Flush
  unfolding write_batch
  finish s = if ltb 0 (length s.pages) then write_batch s else s

  empty_pages : (ps : List ℕ) → ltb 0 (length ps) ≡ false → ps ≡ []
  empty_pages [] e = refl
  empty_pages (p ∷ ps) e = absurd (ground (arith, e))

  record Finished (s s' : Flush) : Type 0 where
    flat : flatten s'.written ≡ trace s
    batches : All IsBatch s'.written
    emptied : (c q : ℕ) → c < ncpus → holds q (s'.trees c) ≡ 0
    locks : (q : ℕ) → (s'.buffer.pages q).locked ≡ before q

  no_locks :
      (s : Flush) (lo q : ℕ)
      → Inv ncpus index before every s s.pages lo
      → s.heap.heap_size ≡ 0
      → count q s.pages ≡ 0
      → (s.buffer.pages q).locked ≡ before q
  no_locks s lo q v e n =
      let heap : in_heap s q ≡ 0 = ground (arith, e) in
      let none_mine : count q s.pages + in_heap s q ≡ 0 = omega (arith, heap, n) in
      ground (arith, v.locks q, none_mine)

  write_batch-Finished :
      (s : Flush) (lo : ℕ)
      → Inv ncpus index before every s s.pages lo
      → s.heap.heap_size ≡ 0
      → HasBatches s
      → ltb 0 (length s.pages) ≡ true
      → Finished s (write_batch s)
  unfolding write_batch
  write_batch-Finished s lo v e h l = record {
    flat = sym (append-nil _) ∙ trace-write_batch s;
    batches =
        All-append IsBatch s.written (s.pages ∷ []) h.0
          ((ground (arith, l), omega (arith, h.1)), tt);
    emptied = λ c q m. no_front lib ncpus index before s s.pages lo c q v e m;
    locks = λ q. no_locks (write_batch s) lo q (write_batch-Inv ncpus index before s lo v) e refl;
  }

  finish-Finished :
      (s : Flush) (lo : ℕ)
      → Inv ncpus index before every s s.pages lo
      → s.heap.heap_size ≡ 0
      → HasBatches s
      → Finished s (finish s)
  unfolding finish
  finish-Finished s lo v e h = elim (Bool-cases (ltb 0 (length s.pages))) [
    | inl l ↦
        subst (λ s'. Finished s s') {x = write_batch s} (ground (arith, l))
          (write_batch-Finished s lo v e h l)
    | inr l ↦
        let nil : s.pages ≡ [] = empty_pages s.pages l in
        subst (λ s'. Finished s s') {x = s} (ground (arith, l))
          (record {
            flat =
                sym (append-nil (flatten s.written))
                ∙ ap (λ (ps : List ℕ). flatten s.written ++ ps) (sym nil);
            batches = h.0;
            emptied = λ c q m. no_front lib ncpus index before s s.pages lo c q v e m;
            locks = λ q. no_locks s lo q v e (ground (arith, nil));
          })
  ]

  start-trace : (s : Flush) → s.written ≡ [] → s.pages ≡ [] → trace s ≡ []
  unfolding flatten
  start-trace s w p = ground (arith, w, p)

  finish-IsFlushed :
      (s s' : Flush) (rest : List ℕ)
      → Filled lib ncpus index before start s
      → Drained lib ncpus index before s 0 rest s'
      → IsFlushed ncpus b trees (finish s')
  unfolding min_heap_create
  finish-IsFlushed s s' rest f d =
      let batched : HasBatches s = (
        subst (λ w. All IsBatch w) (sym f.same_written) tt,
        subst (λ (ps : List ℕ). length ps < max_pages) (sym f.same_pages) (omega arith),
      ) in
      let g = finish-Finished s' d.last d.inv d.emptied (d.batched batched) in
      let same : flatten (finish s').written ≡ rest =
        g.flat
        ∙ d.traced
        ∙ ap (λ (xs : List ℕ). xs ++ rest) (start-trace s f.same_written f.same_pages) in
      record {
        ascending = subst (λ xs. Ascending index 0 xs) (sym same) d.ascending;
        whole = λ q.
            let no_heap : in_heap start q ≡ 0 = refl in
            ap (λ (xs : List ℕ). count q xs) same ∙ omega (arith, d.counted q, f.keeps q, no_heap);
        batches = g.batches;
        emptied = λ c l. nothing_counted (inorder ((finish s').trees c)) (λ q. g.emptied c q l);
        unlocked = g.locks;
      }

  -- For at most 64 CPUs: where the dirty trees are in order and hold no page twice, their pages are in use and not
  -- locked, the cleanup leaves the pages' indices, locks and use, and the fuel is at least the
  -- number of pages in the trees: write_dirty_pages returns; the batches that it writes have 1 to
  -- 512 pages each and together hold every page of the trees as often as the trees and no other, in
  -- the order of the indices, also across CPUs; every tree is empty afterwards, and every page is
  -- locked exactly if it was before.
  pub write_dirty_pages-IsFlushed :
      (fuel : ℕ)
      → ncpus ≤ max_cpus
      → IsReady ncpus b trees
      → over weight trees ncpus ≤ fuel
      → (s : Flush) × (write_dirty_pages lib fuel cleanup ncpus b trees ≡ some s)
        × IsFlushed ncpus b trees s
  unfolding write_dirty_pages finish min_heap_create
  write_dirty_pages-IsFlushed fuel few r h =
      let (s1, e1, f) =
        fill_heap-Filled lib ncpus index before ncpus 0 start (omega arith) few (omega arith)
          (start-Inv r) in
      let v : Inv ncpus index before every s1 s1.pages 0 =
        subst (λ ps. Inv ncpus index before every s1 ps 0) (sym f.same_pages) f.inv in
      let (s2, e2, rest, d) =
        drain_heap-Drained lib ncpus index before cleanup harmless fuel s1 0 v
          (omega (arith, f.measure, h)) in
      (finish s2, ground (arith, e1, e2), finish-IsFlushed s1 s2 rest f d)
