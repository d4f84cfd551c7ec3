-- ===== src/Write/Flush/Batch.antt =====
-- Taking the least entry off the heap, and adding its page to the batch.
use fast_map.Common.{
  ℕ, suc, ◌+◌, ◌≤◌, ◌<◌, ◌≡◌, refl, sym, subst, ◌∙◌, Bool, true, false, not, ltb, ◌==◌,
  if◌then◌else◌, List, [], ◌∷◌, ◌++◌, count, count-append, length, length-append, ap, All,
  All-append, arith, Bool-cases, inl, inr,
}
use mathlib.Core.List.{flatten, append_assoc, append-nil}
use fast_map.Fifo.{Pages}
use fast_map.Buffer.{Buffer}
use fast_map.Buffer.Written.{unlock_pages, unlock_pages-page}
use fast_map.Write.Heap.{HeapNode, MinHeap, max_cpus, min_heap_delete_min}
use fast_map.Write.Heap.Order.{sum_to, key}
use fast_map.Write.Heap.Down.{min_heap_delete_min_lem}
use fast_map.Write.Flush.{Flush, Cleanup, clean_up, add_page, write_batch, max_pages}
use fast_map.Write.Flush.Sums.{sum_to-pos, sum_to-zero, sum_to-term}
use fast_map.Write.Flush.Invariant.{
  Inv, every, of_page, fronts, wrong, in_heap, in_trees, remaining,
}

-- A cleanup of pages leaves their index, lock and use.
pub record IsHarmless (cleanup : Cleanup) : Type 0 where
  pub same_index :
      (b : Buffer) (p q : ℕ) → ((clean_up cleanup b p).pages q).index ≡ (b.pages q).index
  pub same_in_use :
      (b : Buffer) (p q : ℕ) → ((clean_up cleanup b p).pages q).in_use ≡ (b.pages q).in_use
  pub same_locked :
      (b : Buffer) (p q : ℕ) → ((clean_up cleanup b p).pages q).locked ≡ (b.pages q).locked

-- Weight of the entries that come before `k`.
abbrev less : ℕ → HeapNode → ℕ
less k h = if ltb h.offset k then 1 else 0

same_lock :
    (l b : Bool) (n n' : ℕ)
    → n' ≡ n
    → l ≡ (if ltb 0 n then true else b)
    → l ≡ (if ltb 0 n' then true else b)
same_lock l b n n' e h = ground arith

-- Every batch has 1 to `max_pages` pages, and the one in the making has room.
abbrev pub IsBatch : List ℕ → Type 0
IsBatch batch = (1 ≤ length batch) × (length batch ≤ max_pages)

abbrev pub HasBatches : Flush → Type 0
HasBatches s = All IsBatch s.written × (length s.pages < max_pages)

-- The pages that left the heap, in their order.
abbrev pub trace : Flush → List ℕ
trace s = flatten s.written ++ s.pages

flatten-snoc : (w : List (List ℕ)) (x : List ℕ) → flatten (w ++ x ∷ []) ≡ flatten w ++ x
unfolding flatten
flatten-snoc [] x = append-nil x
flatten-snoc (y ∷ w) x =
    ap (λ (zs : List ℕ). y ++ zs) (flatten-snoc w x) ∙ sym (append_assoc y (flatten w) x)

pub trace-write_batch : (s : Flush) → trace (write_batch s) ≡ trace s
unfolding write_batch
trace-write_batch s =
    append-nil (flatten (s.written ++ s.pages ∷ [])) ∙ flatten-snoc s.written s.pages

module _ (ncpus : ℕ) (index : ℕ → ℕ) (before : ℕ → Bool) where
  pub record Popped (s : Flush) (mine : List ℕ) (lo : ℕ) (hn : HeapNode) (heap : MinHeap)
      : Type 0 where
    pub inv :
        Inv ncpus index before
          (λ c. not (c == hn.cpu))
          (record s { heap = heap })
          (hn.page ∷ mine)
          hn.offset
    pub cpu : hn.cpu < ncpus
    pub offset : hn.offset ≡ index hn.page
    pub later : lo ≤ hn.offset
    pub room : heap.heap_size < max_cpus
    pub counted :
        (q : ℕ)
        → in_heap s q ≡ (if q == hn.page then 1 else 0) + in_heap (record s { heap = heap }) q
    pub measure : suc (remaining ncpus (record s { heap = heap })) ≡ remaining ncpus s

  -- No entry that is left is wrong for the new bound.
  still_right :
      (a : ℕ → HeapNode) (n lo k : ℕ)
      → sum_to (wrong index ncpus lo) a n ≡ 0
      → sum_to (less k) a n ≡ 0
      → sum_to (wrong index ncpus k) a n ≡ 0
  still_right a n lo k w l = sum_to-zero (wrong index ncpus k) a n (λ i h.
      ground
        (arith, w, l, sum_to-term (wrong index ncpus lo) a n i h, sum_to-term (less k) a n i h))

  none_less :
      (a : ℕ → HeapNode) (n k : ℕ) → ((i : ℕ) → i < n → k ≤ key a i) → sum_to (less k) a n ≡ 0
  none_less a n k h = sum_to-zero (less k) a n (λ i l. ground (arith, h i l))

  pub min_heap_delete_min-Popped :
      (s : Flush) (mine : List ℕ) (lo : ℕ)
      → Inv ncpus index before every s mine lo
      → 0 < s.heap.heap_size
      → let (hn, heap) = min_heap_delete_min s.heap in Popped s mine lo hn heap
  min_heap_delete_min-Popped s mine lo v h =
      let (hn, heap) = min_heap_delete_min s.heap in
      let (heaped, size, least, sums) = min_heap_delete_min_lem s.heap v.heaped h in
      let right : wrong index ncpus lo hn ≡ 0 =
        omega (arith, sums (wrong index ncpus lo), v.entries) in
      let rest : sum_to (wrong index ncpus lo) heap.heap_array heap.heap_size ≡ 0 =
        omega (arith, sums (wrong index ncpus lo), v.entries) in
      let no_less : sum_to (less hn.offset) heap.heap_array heap.heap_size ≡ 0 = omega (
        arith,
        sums (less hn.offset),
        none_less s.heap.heap_array s.heap.heap_size hn.offset least,
      ) in
      let moved : (q : ℕ)
          → in_heap s q ≡ (if q == hn.page then 1 else 0) + in_heap (record s { heap = heap }) q =
        λ q. ground (arith, sums (of_page q)) in
      record {
        inv = record {
          heaped = heaped;
          fits = omega (arith, size, v.fits);
          entries = still_right heap.heap_array heap.heap_size lo hn.offset rest no_less;
          indices = v.indices;
          ordered = v.ordered;
          used = v.used;
          front = λ c q b r p. ground (arith, r, sums (fronts c (index q)), v.front c q b refl p);
          above = λ c q b p.
              let (i, l, f) =
                sum_to-pos (fronts c (index q)) s.heap.heap_array s.heap.heap_size
                  (v.front c q b refl p) in
              ground (arith, f, least i l);
          once = λ q. omega (arith, moved q, v.once q);
          locks = λ q. same_lock _ (before q) _ _ (omega (arith, moved q)) (v.locks q);
          free = λ q p. v.free q (omega (arith, moved q, p));
        };
        cpu = ground (arith, right);
        offset = ground (arith, right);
        later = ground (arith, right);
        room = omega (arith, size, v.fits);
        counted = moved;
        measure = omega (arith, size);
      }

  -- Another memory of pages and another batch: what of the invariant depends on them.
  Inv-pages :
      (s : Flush) (mine : List ℕ) (lo : ℕ) (b' : Buffer) (pages : List ℕ) (written : List (List ℕ))
      → Inv ncpus index before every s mine lo
      → ((q : ℕ) → (b'.pages q).index ≡ (s.buffer.pages q).index)
      → ((q : ℕ) → (b'.pages q).in_use ≡ (s.buffer.pages q).in_use)
      → ((q : ℕ) → count q pages ≤ count q mine)
      → ((q : ℕ)
          → (b'.pages q).locked ≡ (if ltb 0 (count q pages + in_heap s q) then true else before q))
      → Inv ncpus index before every
          (record s { buffer = b'; pages = pages; written = written })
          pages
          lo
  Inv-pages s mine lo b' pages written v ei eu less locked = record {
    heaped = v.heaped;
    fits = v.fits;
    entries = v.entries;
    indices = λ q. ei q ∙ v.indices q;
    ordered = v.ordered;
    used = λ c q b p. eu q ∙ v.used c q b p;
    front = v.front;
    above = v.above;
    once = λ q. omega (arith, less q, v.once q);
    locks = locked;
    free = λ q p. v.free q (omega (arith, p, less q));
  }

  flush_locked :
      (b : Bool) (m : Pages) (pgs : List ℕ) (q h : ℕ)
      → count q pgs + h ≤ 1
      → (0 < count q pgs → b ≡ false)
      → (m q).locked ≡ (if ltb 0 (count q pgs + h) then true else b)
      → (unlock_pages m pgs q).locked ≡ (if ltb 0 (0 + h) then true else b)
  flush_locked b m pgs q h o f l = ground (arith, unlock_pages-page m pgs q)

  pub record Added (s : Flush) (p : ℕ) (lo : ℕ) (s' : Flush) : Type 0 where
    pub inv : Inv ncpus index before every s' s'.pages lo
    pub traced : trace s' ≡ trace s ++ p ∷ []
    pub batched : HasBatches s → HasBatches s'
    pub keeps : (q : ℕ) → in_heap s' q + in_trees ncpus s' q ≡ in_heap s q + in_trees ncpus s q
    pub measure : remaining ncpus s' ≡ remaining ncpus s

  pub write_batch-Inv :
      (s : Flush) (lo : ℕ)
      → Inv ncpus index before every s s.pages lo
      → Inv ncpus index before every (write_batch s) (write_batch s).pages lo
  unfolding write_batch
  write_batch-Inv s lo v =
      Inv-pages s s.pages lo (record s.buffer { pages = unlock_pages s.buffer.pages s.pages }) []
        (s.written ++ s.pages ∷ []) v
        (λ q. ground (arith, unlock_pages-page s.buffer.pages s.pages q))
        (λ q. ground (arith, unlock_pages-page s.buffer.pages s.pages q)) (λ q. omega arith)
        (λ q.
          flush_locked (before q) s.buffer.pages s.pages q (in_heap s q) (omega (arith, v.once q))
            (λ h. v.free q (omega (arith, h))) (v.locks q))

  module _ (cleanup : Cleanup) (harmless : IsHarmless cleanup) where
    abbrev with_page : ℕ → Flush → Flush
    with_page p s = record s { buffer = clean_up cleanup s.buffer p; pages = s.pages ++ p ∷ [] }

    with_page-Inv :
        (s : Flush) (p lo : ℕ)
        → Inv ncpus index before every s (p ∷ s.pages) lo
        → Inv ncpus index before every (with_page p s) (s.pages ++ p ∷ []) lo
    with_page-Inv s p lo v =
        let counts : (q : ℕ) → count q (s.pages ++ p ∷ []) ≡ count q (p ∷ s.pages) =
          λ q. omega (arith, count-append q s.pages (p ∷ [])) in
        Inv-pages s (p ∷ s.pages) lo (clean_up cleanup s.buffer p) (s.pages ++ p ∷ []) s.written v
          (λ q. harmless.same_index s.buffer p q) (λ q. harmless.same_in_use s.buffer p q)
          (λ q. omega (arith, counts q))
          (λ q.
            harmless.same_locked s.buffer p q
            ∙ same_lock _ (before q) _ _ (omega (arith, counts q)) (v.locks q))

    pub add_page-Added :
        (s : Flush) (p lo : ℕ)
        → Inv ncpus index before every s (p ∷ s.pages) lo
        → Added s p lo (add_page cleanup p s)
    unfolding add_page
    add_page-Added s p lo v =
        let v' = with_page-Inv s p lo v in
        let full = write_batch (with_page p s) in
        let joined : trace (with_page p s) ≡ trace s ++ p ∷ [] =
          sym (append_assoc (flatten s.written) s.pages (p ∷ [])) in
        elim (Bool-cases (length (s.pages ++ p ∷ []) == max_pages)) [
          | inl e ↦
              subst (λ s'. Added s p lo s') {x = full} (ground (arith, e))
                (record {
                  inv = write_batch-Inv (with_page p s) lo v';
                  traced = trace-write_batch (with_page p s) ∙ joined;
                  batched = λ h. (
                    All-append IsBatch s.written ((s.pages ++ p ∷ []) ∷ []) h.0
                        ((ground (arith, e), ground (arith, e)), tt),
                    omega arith,
                  );
                  keeps = λ q. refl;
                  measure = refl;
                })
          | inr e ↦
              subst (λ s'. Added s p lo s') {x = with_page p s} (ground (arith, e))
                (record {
                  inv = v';
                  traced = joined;
                  batched = λ h. (h.0, ground (arith, e, h.1, length-append s.pages (p ∷ [])));
                  keeps = λ q. refl;
                  measure = refl;
                })
        ]
