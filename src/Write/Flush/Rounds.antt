-- ===== src/Write/Flush/Rounds.antt =====
-- How many rounds the loop of `write_dirty_pages` takes: one for each page of the trees.
use fast_map.Common.{
  ℕ, zero, suc, ◌≤◌, ◌≡◌, refl, sym, ap, subst, ◌∙◌, Bool, false, not, ltb, ◌==◌, if◌then◌else◌,
  ◌∷◌, length, Option, none, some, arith, Bool-cases, inl, inr,
}
use fast_map.Buffer.{Buffer}
use fast_map.Rbtree.{Tree, inorder, RbLib}
use fast_map.Fault.Writable.{index_of}
use fast_map.Write.Heap.{max_cpus, min_heap_create, min_heap_is_empty, min_heap_delete_min}
use fast_map.Write.Flush.{Flush, Cleanup, add_page, drain_heap, write_dirty_pages}
use fast_map.Write.Flush.Sums.{over, weight, nothing_counted, over-zero}
use fast_map.Write.Flush.Invariant.{Inv, every, remaining}
use fast_map.Write.Flush.Fetch.{fetch-Fetched}
use fast_map.Write.Flush.Batch.{IsHarmless, min_heap_delete_min-Popped, add_page-Added}
use fast_map.Write.Flush.Whole.{
  Inv-ready, no_front, drain_heap-round, fill_heap-Filled, drain_heap-Drained,
}
use fast_map.Write.Flush.Flushed.{IsReady, finish, start, start-Inv}

one_more :
    (fuel r : ℕ) (a b x y : Option Flush)
    → a ≡ x
    → x ≡ (if ltb fuel r then none else y)
    → b ≡ y
    → a ≡ (if ltb (suc fuel) (suc r) then none else b)
one_more fuel r a b x y ea ex eb = ground arith

module _ (lib : RbLib) (ncpus : ℕ) (cleanup : Cleanup) (harmless : IsHarmless cleanup) where
  module _ (index : ℕ → ℕ) (before : ℕ → Bool) where
    -- With an empty heap nothing remains.
    heap_left :
        (s : Flush) (lo r : ℕ)
        → Inv ncpus index before every s s.pages lo
        → remaining ncpus s ≡ suc r
        → (s.heap.heap_size == 0) ≡ false
    heap_left s lo r v e = elim (Bool-cases (s.heap.heap_size == 0)) [
      | inr h ↦ h
      | inl h ↦
          let empty : s.heap.heap_size ≡ 0 = ground (arith, h) in
          let trees : over weight s.trees ncpus ≡ 0 = over-zero weight s.trees ncpus (λ c l.
            ap length (
              nothing_counted (inorder (s.trees c))
                (λ q. no_front lib ncpus index before s s.pages lo c q v empty l))) in
          absurd (omega (arith, empty, trees, e))
    ]

    record Round (s : Flush) (r : ℕ) (s2 : Flush) : Type 0 where
      lo : ℕ
      inv : Inv ncpus index before every s2 s2.pages lo
      left : remaining ncpus s2 ≡ r
      goes_on : (fuel : ℕ) → drain_heap lib cleanup (suc fuel) s ≡ drain_heap lib cleanup fuel s2

    drain_heap-Round :
        (s : Flush) (lo r : ℕ)
        → Inv ncpus index before every s s.pages lo
        → remaining ncpus s ≡ suc r
        → (s2 : Flush) × Round s r s2
    drain_heap-Round s lo r v e =
        let some_left = heap_left s lo r v e in
        let (hn, heap) = min_heap_delete_min s.heap in
        let popped =
          min_heap_delete_min-Popped ncpus index before s s.pages lo v
            (ground (arith, some_left)) in
        let (s1, eq, f) =
          fetch-Fetched lib ncpus index before (λ c. not (c == hn.cpu)) hn.cpu
            (record s { heap = heap }) (hn.page ∷ s.pages) hn.offset popped.cpu popped.room
            popped.inv in
        let v1 : Inv ncpus index before every s1 (hn.page ∷ s1.pages) hn.offset =
          subst (λ ps. Inv ncpus index before every s1 (hn.page ∷ ps) hn.offset) (sym f.same_pages)
            (Inv-ready lib ncpus index before _ every s1 _ hn.offset (λ c l r. ground arith)
              f.inv) in
        let added = add_page-Added ncpus index before cleanup harmless s1 hn.page hn.offset v1 in
        (
          add_page cleanup hn.page s1,
          record {
            lo = hn.offset;
            inv = added.inv;
            left = omega (arith, added.measure, f.measure, popped.measure, e);
            goes_on = λ fuel.
                drain_heap-round lib ncpus index before cleanup harmless fuel s s1
                  (drain_heap lib cleanup fuel (add_page cleanup hn.page s1)) some_left eq refl;
          },
        )

    -- With nothing left the loop ends, whatever the fuel.
    drain_heap-done :
        (fuel : ℕ) (s : Flush) → remaining ncpus s ≡ 0 → drain_heap lib cleanup fuel s ≡ some s
    unfolding drain_heap min_heap_is_empty
    drain_heap-done zero s e = let h : s.heap.heap_size ≡ 0 = omega (arith, e) in ground (arith, h)
    drain_heap-done (suc fuel) s e =
        let h : s.heap.heap_size ≡ 0 = omega (arith, e) in ground (arith, h)

    pub drain_heap-rounds :
        (r fuel : ℕ) (s : Flush) (lo : ℕ)
        → Inv ncpus index before every s s.pages lo
        → remaining ncpus s ≡ r
        → drain_heap lib cleanup fuel s ≡ (if ltb fuel r then none else drain_heap lib cleanup r s)
    unfolding drain_heap min_heap_is_empty
    drain_heap-rounds zero fuel s lo v e =
        ground (arith, drain_heap-done fuel s e, drain_heap-done 0 s e)
    drain_heap-rounds (suc r) zero s lo v e = let h = heap_left s lo r v e in ground (arith, h)
    drain_heap-rounds (suc r) (suc fuel) s lo v e =
        let (s2, round) = drain_heap-Round s lo r v e in
        let rest = drain_heap-rounds r fuel s2 round.lo round.inv round.left in
        one_more fuel r _ _ _ _ (round.goes_on fuel) rest (round.goes_on r)

  -- For at most 64 CPUs: where the dirty trees are in order and hold no page twice, their pages are
  -- in use and not locked, and the cleanup leaves the pages' indices, locks and use: the main loop of
  -- write_dirty_pages ends after exactly one round for each page of the trees; with less fuel there
  -- is no result, and with at least as much it is the same whatever the fuel.
  pub write_dirty_pages-rounds :
      (b : Buffer) (trees : ℕ → Tree)
      → ncpus ≤ max_cpus
      → IsReady ncpus b trees
      → (s : Flush) × ((fuel : ℕ)
          → write_dirty_pages lib fuel cleanup ncpus b trees
            ≡ (if ltb fuel (over weight trees ncpus) then none else some s))
  unfolding write_dirty_pages finish min_heap_create
  write_dirty_pages-rounds b trees few r =
      let index = index_of b.pages in
      let before : ℕ → Bool = λ q. (b.pages q).locked in
      let first = start lib ncpus cleanup harmless b trees in
      let (s1, e1, f) =
        fill_heap-Filled lib ncpus index before ncpus 0 first (omega arith) few (omega arith)
          (start-Inv lib ncpus cleanup harmless b trees r) in
      let v : Inv ncpus index before every s1 s1.pages 0 =
        subst (λ ps. Inv ncpus index before every s1 ps 0) (sym f.same_pages) f.inv in
      let (s2, e2, rest, d) =
        drain_heap-Drained lib ncpus index before cleanup harmless (over weight trees ncpus) s1 0 v
          (omega (arith, f.measure)) in
      (
        finish lib ncpus cleanup harmless b trees s2,
        λ fuel.
            let e3 : drain_heap lib cleanup fuel s1
                ≡ (if ltb fuel (over weight trees ncpus) then none else some s2) =
              drain_heap-rounds index before (over weight trees ncpus) fuel s1 0 v
                (omega (arith, f.measure))
              ∙ ap (λ (o : Option Flush). if ltb fuel (over weight trees ncpus) then none else o)
                  e2 in
            ground (arith, e1, e3),
      )
