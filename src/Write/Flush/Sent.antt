-- ===== src/Write/Flush/Sent.antt =====
-- From the dirty trees to the requests: each batch of `write_dirty_pages` goes through the merge and
-- submit loops of `write_bio_async`.
use mathlib.Core.List.{flatten}
use fast_map.Common.{
  ℕ, ◌≤◌, ◌≡◌, refl, sym, ap, ◌∙◌, subst, List, [], ◌∷◌, ◌++◌, length, count, All, some, arith,
}
use fast_map.Buffer.{Buffer}
use fast_map.Rbtree.{Tree, RbLib}
use fast_map.Fault.Writable.{index_of}
use fast_map.Write.Heap.{max_cpus}
use fast_map.Write.Merge.{write_async}
use fast_map.Write.Merge.Whole.{write_async-whole}
use fast_map.Write.Flush.{Flush, Cleanup, max_pages, write_dirty_pages}
use fast_map.Write.Flush.Sums.{over, holds, weight}
use fast_map.Write.Flush.Batch.{IsHarmless, IsBatch}
use fast_map.Write.Flush.Whole.{Ascending}
use fast_map.Write.Flush.Flushed.{IsReady, write_dirty_pages-IsFlushed}

-- `page->index` of each page of a batch.
abbrev pub indices : (ℕ → ℕ) → List ℕ → List ℕ
indices index [] = []
indices index (x ∷ xs) = index x ∷ indices index xs

-- The pages of all requests that are made for the batches.
abbrev pub sent : (ℕ → ℕ) → ℕ → List (List ℕ) → List ℕ
sent index bio_max [] = []
sent index bio_max (batch ∷ batches) =
    flatten (write_async bio_max (indices index batch) batch) ++ sent index bio_max batches

length-indices : (index : ℕ → ℕ) (xs : List ℕ) → length (indices index xs) ≡ length xs
length-indices index [] = refl
length-indices index (x ∷ xs) = omega (arith, length-indices index xs)

sent-flatten :
    (index : ℕ → ℕ) (bio_max : ℕ) (batches : List (List ℕ))
    → max_pages ≤ bio_max
    → All IsBatch batches
    → sent index bio_max batches ≡ flatten batches
unfolding flatten
sent-flatten index bio_max [] h a = refl
sent-flatten index bio_max (batch ∷ batches) h a =
    let same = length-indices index batch in
    let (now, later) = a in
    ap (λ (xs : List ℕ). xs ++ sent index bio_max batches)
      (write_async-whole bio_max (indices index batch) batch (omega (arith, now.1, same, h))
        (sym same))
    ∙ ap (λ (xs : List ℕ). batch ++ xs) (sent-flatten index bio_max batches h later)

-- For at most 64 CPUs: where the dirty trees are in order and hold no page twice, their pages are in use and not locked,
-- the cleanup leaves the pages' indices, locks and use, and bio_max is at least 512:
-- write_dirty_pages returns, and the requests that the merge and submit loops make of its batches
-- hold every page of the trees as often as the trees and no other, in the order of the indices.
pub write_dirty_pages-sent :
    (lib : RbLib) (ncpus bio_max : ℕ) (cleanup : Cleanup) (b : Buffer) (trees : ℕ → Tree)
    → ncpus ≤ max_cpus
    → IsHarmless cleanup
    → IsReady ncpus b trees
    → max_pages ≤ bio_max
    → (s : Flush) × (write_dirty_pages lib (over weight trees ncpus) cleanup ncpus b trees ≡ some s)
      × ((q : ℕ) → count q (sent (index_of b.pages) bio_max s.written) ≡ over (holds q) trees ncpus)
      × Ascending (index_of b.pages) 0 (sent (index_of b.pages) bio_max s.written)
write_dirty_pages-sent lib ncpus bio_max cleanup b trees few harmless r h =
    let (s, e, f) =
      write_dirty_pages-IsFlushed lib ncpus cleanup harmless b trees (over weight trees ncpus) few r
        (omega arith) in
    let same = sent-flatten (index_of b.pages) bio_max s.written h f.batches in
    (
      s,
      e,
      λ q. ap (λ (xs : List ℕ). count q xs) same ∙ f.whole q,
      subst (λ xs. Ascending (index_of b.pages) 0 xs) (sym same) f.ascending,
    )
