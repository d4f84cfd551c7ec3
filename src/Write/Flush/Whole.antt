-- ===== src/Write/Flush/Whole.antt =====
-- `write_dirty_pages` writes every dirty page of the trees once, in the order of the indices.
use mathlib.Core.List.{flatten, append_assoc, append-nil}
use fast_map.Common.{
  ℕ, zero, suc, ◌+◌, ◌≤◌, ◌<◌, ◌≡◌, refl, sym, ap, subst, ◌∙◌, Bool, true, false, not, ltb, ◌==◌,
  List, [], ◌∷◌, ◌++◌, count, length, All, Option, some, arith, Bool-cases, inl, inr,
}
use fast_map.Rbtree.{RbLib}
use fast_map.Write.Heap.{max_cpus, min_heap_is_empty, min_heap_delete_min, HeapNode, MinHeap}
use fast_map.Write.Flush.{Flush, Cleanup, add_page, max_pages, fetch, fill_heap, drain_heap}
use fast_map.Write.Flush.Sums.{holds, over-zero}
use fast_map.Write.Flush.Invariant.{Inv, every, and_cpu, in_heap, in_trees, remaining}
use fast_map.Write.Flush.Fetch.{Fetched, fetch-Fetched}
use fast_map.Write.Flush.Batch.{
  IsHarmless, Popped, min_heap_delete_min-Popped, IsBatch, HasBatches, trace, Added, add_page-Added,
}

-- The indices do not fall, from `lo` on.
abbrev pub Ascending : (ℕ → ℕ) → ℕ → List ℕ → Type 0
Ascending index lo [] = Unit
Ascending index lo (p ∷ ps) = (lo ≤ index p) × Ascending index (index p) ps

module _ (lib : RbLib) (ncpus : ℕ) (index : ℕ → ℕ) (before : ℕ → Bool) where
  pub Inv-ready :
      (ready ready' : ℕ → Bool) (s : Flush) (mine : List ℕ) (lo : ℕ)
      → ((c : ℕ) → c < ncpus → ready' c ≡ true → ready c ≡ true)
      → Inv ncpus index before ready s mine lo
      → Inv ncpus index before ready' s mine lo
  Inv-ready ready ready' s mine lo h v = record {
    heaped = v.heaped;
    fits = v.fits;
    entries = v.entries;
    indices = v.indices;
    ordered = v.ordered;
    used = v.used;
    front = λ c q b r p. v.front c q b (h c b r) p;
    above = v.above;
    once = v.once;
    locks = v.locks;
    free = v.free;
  }

  -- With an empty heap the trees are empty.
  pub no_front :
      (s : Flush) (mine : List ℕ) (lo c q : ℕ)
      → Inv ncpus index before every s mine lo
      → s.heap.heap_size ≡ 0
      → c < ncpus
      → holds q (s.trees c) ≡ 0
  no_front s mine lo c q v e l = ground (arith, e, v.front c q l refl)

  pub record Filled (s s' : Flush) : Type 0 where
    pub inv : Inv ncpus index before every s' [] 0
    pub keeps : (q : ℕ) → in_heap s' q + in_trees ncpus s' q ≡ in_heap s q + in_trees ncpus s q
    pub measure : remaining ncpus s' ≡ remaining ncpus s
    pub same_pages : s'.pages ≡ s.pages
    pub same_written : s'.written ≡ s.written

  pub fill_heap-Filled :
      (n cpu : ℕ) (s : Flush)
      → n + cpu ≡ ncpus
      → ncpus ≤ max_cpus
      → s.heap.heap_size ≤ cpu
      → Inv ncpus index before (λ c. ltb c cpu) s [] 0
      → (s' : Flush) × (fill_heap lib n cpu s ≡ some s') × Filled s s'
  unfolding fill_heap
  fill_heap-Filled zero cpu s e few h v = (
    s,
    refl,
    record {
      inv = Inv-ready (λ c. ltb c cpu) every s [] 0 (λ c l r. ground (arith, e)) v;
      keeps = λ q. refl;
      measure = refl;
      same_pages = refl;
      same_written = refl;
    },
  )
  fill_heap-Filled (suc n) cpu s e few h v =
      let (s1, eq, f) =
        fetch-Fetched lib ncpus index before (λ c. ltb c cpu) cpu s [] 0 (omega arith) (omega arith)
          v in
      let v1 =
        Inv-ready (and_cpu (λ c. ltb c cpu) cpu) (λ c. ltb c (suc cpu)) s1 [] 0
          (λ c l r. ground (arith, r)) f.inv in
      let (s2, eq', g) =
        fill_heap-Filled n (suc cpu) s1 (omega arith) few (omega (arith, f.size, h)) v1 in
      (
        s2,
        ground (arith, eq, eq'),
        record {
          inv = g.inv;
          keeps = λ q. g.keeps q ∙ f.keeps q;
          measure = g.measure ∙ f.measure;
          same_pages = g.same_pages ∙ f.same_pages;
          same_written = g.same_written ∙ f.same_written;
        },
      )

  pub record Drained (s : Flush) (lo : ℕ) (rest : List ℕ) (s' : Flush) : Type 0 where
    pub last : ℕ
    pub inv : Inv ncpus index before every s' s'.pages last
    pub traced : trace s' ≡ trace s ++ rest
    pub ascending : Ascending index lo rest
    pub counted : (q : ℕ) → count q rest ≡ in_heap s q + in_trees ncpus s q
    pub emptied : s'.heap.heap_size ≡ 0
    pub batched : HasBatches s → HasBatches s'

  already_empty :
      (s : Flush) (lo : ℕ)
      → Inv ncpus index before every s s.pages lo
      → s.heap.heap_size ≡ 0
      → Drained s lo [] s
  already_empty s lo v e = record {
    last = lo;
    inv = v;
    traced = sym (append-nil (trace s));
    ascending = tt;
    counted = λ q.
        let heap : in_heap s q ≡ 0 = ground (arith, e) in
        omega
          (arith, heap, over-zero (holds q) s.trees ncpus (λ c l. no_front s s.pages lo c q v e l));
    emptied = e;
    batched = λ h. h;
  }

  -- A round, and the rounds after it.
  round-Drained :
      (s s1 s2 s3 : Flush) (lo : ℕ) (hn : HeapNode) (heap : MinHeap) (rest : List ℕ)
      → Popped ncpus index before s s.pages lo hn heap
      → Fetched lib ncpus index before
          (λ c. not (c == hn.cpu))
          hn.cpu
          (record s { heap = heap })
          (hn.page ∷ s.pages)
          hn.offset
          s1
      → Added ncpus index before s1 hn.page hn.offset s2
      → Drained s2 hn.offset rest s3
      → Drained s lo (hn.page ∷ rest) s3
  round-Drained s s1 s2 s3 lo hn heap rest popped f added d =
      let same : trace s1 ≡ trace s = cong₂ f.same_written f.same_pages in
      record {
        last = d.last;
        inv = d.inv;
        traced =
            d.traced
            ∙ ap (λ (xs : List ℕ). xs ++ rest)
                (added.traced ∙ ap (λ (xs : List ℕ). xs ++ hn.page ∷ []) same)
            ∙ append_assoc (trace s) (hn.page ∷ []) rest;
        ascending = (
          subst (λ k. lo ≤ k) popped.offset popped.later,
          subst (λ k. Ascending index k rest) popped.offset d.ascending,
        );
        counted = λ q. omega (arith, d.counted q, added.keeps q, f.keeps q, popped.counted q);
        emptied = d.emptied;
        batched = λ h. d.batched (
            added.batched (
              subst (λ w. All IsBatch w) (sym f.same_written) h.0,
              subst (λ ps. length ps < max_pages) (sym f.same_pages) h.1,
            ));
      }
    where
      cong₂ :
          {w w' : List (List ℕ)} {ps ps' : List ℕ}
          → w ≡ w'
          → ps ≡ ps'
          → flatten w ++ ps ≡ flatten w' ++ ps'
      cong₂ {w} {w'} {ps} {ps'} e e' = ground (arith, e, e')

  module _ (cleanup : Cleanup) (harmless : IsHarmless cleanup) where
    pub drain_heap-round :
        (fuel : ℕ) (s s1 : Flush) (r : Option Flush)
        → (s.heap.heap_size == 0) ≡ false
        → let (hn, heap) = min_heap_delete_min s.heap in
          fetch lib hn.cpu (record s { heap = heap }) ≡ some s1
          → drain_heap lib cleanup fuel (add_page cleanup hn.page s1) ≡ r
          → drain_heap lib cleanup (suc fuel) s ≡ r
    unfolding drain_heap min_heap_is_empty
    drain_heap-round fuel s s1 r e f d = ground (arith, e, f, d)

    pub drain_heap-Drained :
        (fuel : ℕ) (s : Flush) (lo : ℕ)
        → Inv ncpus index before every s s.pages lo
        → remaining ncpus s ≤ fuel
        → (s' : Flush) × (drain_heap lib cleanup fuel s ≡ some s')
          × (rest : List ℕ) × Drained s lo rest s'
    unfolding drain_heap min_heap_is_empty
    drain_heap-Drained zero s lo v h =
        (s, ground (arith, h), [], already_empty s lo v (omega (arith, h)))
    drain_heap-Drained (suc fuel) s lo v h = elim (Bool-cases (s.heap.heap_size == 0)) [
      | inl e ↦ (s, ground (arith, e), [], already_empty s lo v (ground (arith, e)))
      | inr e ↦
          let (hn, heap) = min_heap_delete_min s.heap in
          let popped =
            min_heap_delete_min-Popped ncpus index before s s.pages lo v (ground (arith, e)) in
          let (s1, eq, f) =
            fetch-Fetched lib ncpus index before (λ c. not (c == hn.cpu)) hn.cpu
              (record s { heap = heap }) (hn.page ∷ s.pages) hn.offset popped.cpu popped.room
              popped.inv in
          let v1 : Inv ncpus index before every s1 (hn.page ∷ s1.pages) hn.offset =
            subst (λ ps. Inv ncpus index before every s1 (hn.page ∷ ps) hn.offset)
              (sym f.same_pages) (Inv-ready _ every s1 _ hn.offset (λ c l r. ground arith) f.inv) in
          let added = add_page-Added ncpus index before cleanup harmless s1 hn.page hn.offset v1 in
          let s2 = add_page cleanup hn.page s1 in
          let (s3, eq', rest, d) =
            drain_heap-Drained fuel s2 hn.offset added.inv
              (omega (arith, added.measure, f.measure, popped.measure, h)) in
          (
            s3,
            drain_heap-round fuel s s1 (some s3) e eq eq',
            hn.page ∷ rest,
            round-Drained s s1 s2 s3 lo hn heap rest popped f added d,
          )
    ]
