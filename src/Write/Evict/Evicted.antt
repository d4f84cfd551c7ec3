-- ===== src/Write/Evict/Evicted.antt =====
-- The batch of one round of `evictor_thread`.
use mathlib.Core.Path.{fun_ext}
use fast_map.Common.{
  ℕ, ◌+◌, ◌%◌, ◌^◌, ◌<◌, ◌≡◌, ◌⊎◌, refl, sym, ap, ◌∙◌, true, false, ◌==◌, List, [], ◌∷◌, count,
  count-append, Option, none, some, arith, Bool-cases, inl, inr,
}
use fast_map.TaggedPage.{trylock_tp}
use fast_map.Fifo.{Fifo, Pages}
use fast_map.Fifo.D
use fast_map.Fifo.Valid.{IsValid}
use fast_map.Rbtree.{Tree, RbLib, tagged_rb_erase}
use fast_map.Fault.Writable.{set_tree, index_of}
use fast_map.Write.Evict.{
  Gather, ev_deq, max_rounds, take_page, gather, gather_from, after_dequeue, evict,
}
use fast_map.Write.Evict.Found.{search-IsTakenOut}
use fast_map.Write.Evict.Looked.{take_page-taken}
use fast_map.Write.Evict.Waiting.{
  search_itself, IsWaiting, IsEvicted, before, before-IsGathering, taken-IsEvicted,
}

module _ (lib : RbLib) (ncpus ID : ℕ) (pages : Pages) (trees_of : ℕ → ℕ → Tree) where
  -- What `dequeue_if` does on the page at the head.
  dequeue_if-head :
      (queue : Fifo) (p : ℕ) (rest : List ℕ)
      → IsValid queue
      → queue.buffer ≡ p ∷ rest
      → (ev_deq pages p).0 ≡ true
      → (D.dequeue_if ev_deq queue pages
          ≡ (some p, (D.remove_if ev_deq queue pages p).1, (D.remove_if ev_deq queue pages p).2))
  unfolding D.dequeue_if D.remove_if
  dequeue_if-head queue p rest v b e =
      let size : (queue.size == 0) ≡ false = ground (arith, v.counted, b) in
      ground (arith, size, b, e)

  dequeue_if-none :
      (queue : Fifo) (p : ℕ) (rest : List ℕ)
      → queue.buffer ≡ p ∷ rest
      → (ev_deq pages p).0 ≡ false
      → let (got, f, m) = D.dequeue_if ev_deq queue pages in
        (got ≡ none) × ((q : ℕ) → count q f.buffer ≡ count q queue.buffer)
  unfolding D.dequeue_if
  dequeue_if-none queue p rest b e =
      (ground (arith, b, e), λ q. ground (arith, b, e, count-append q rest (p ∷ [])))

  -- The loop of the first page, with its index, device and trees read from the memory `m`.
  abbrev start_loop : ℕ → Pages → (ℕ → ℕ) → ℕ → ℕ → Fifo → Gather
  start_loop p m ix index d f = gather lib ncpus ID max_rounds ((index + 1) % 2 ^ 64) (record {
    pages = m;
    queue = f;
    trees =
        set_tree (trees_of d) (index % ncpus)
          (tagged_rb_erase ix lib (trees_of d (index % ncpus)) index).1;
    pgs = p ∷ [];
  })

  remove_if-pages :
      (queue : Fifo) (p q : ℕ)
      → let m = (D.remove_if ev_deq queue pages p).2 in
        ((m q).index ≡ (pages q).index) × ((m q).pvd ≡ (pages q).pvd)
  unfolding D.remove_if ev_deq trylock_tp
  remove_if-pages queue p q = (ground arith, ground arith)

  gather_from-start_loop :
      (queue : Fifo) (p : ℕ)
      → gather_from lib ncpus ID trees_of p
          (D.remove_if ev_deq queue pages p).1
          (D.remove_if ev_deq queue pages p).2
        ≡ start_loop p
            (D.remove_if ev_deq queue pages p).2
            (index_of pages)
            (pages p).index
            (pages p).pvd
            (D.remove_if ev_deq queue pages p).1
  unfolding gather_from
  gather_from-start_loop queue p =
      let f = (D.remove_if ev_deq queue pages p).1 in
      let m = (D.remove_if ev_deq queue pages p).2 in
      let indices : index_of m ≡ index_of pages = fun_ext (λ q. (remove_if-pages queue p q).0) in
      ap (λ (ix : ℕ → ℕ). start_loop p m ix (m p).index (m p).pvd f) indices
      ∙ ap (λ (i : ℕ). start_loop p m (index_of pages) i (m p).pvd f) (remove_if-pages queue p p).0
      ∙ ap (λ (d : ℕ). start_loop p m (index_of pages) (pages p).index d f)
          (remove_if-pages queue p p).1

  -- The start of the loop is what taking the first page as any other leaves.
  start_loop-taken :
      (queue : Fifo) (p : ℕ)
      → IsWaiting lib ncpus ID pages trees_of queue
      → 0 < count p queue.buffer
      → (ev_deq pages p).0 ≡ true
      → start_loop p
          (D.remove_if ev_deq queue pages p).2
          (index_of pages)
          (pages p).index
          (pages p).pvd
          (D.remove_if ev_deq queue pages p).1
        ≡ gather lib ncpus ID max_rounds (((pages p).index + 1) % 2 ^ 64) (
            take_page lib ncpus
              ((pages p).index % ncpus)
              p
              (before lib ncpus ID pages trees_of queue p))
  unfolding tagged_rb_erase
  start_loop-taken queue p w h e =
      let index = index_of pages in
      let v = before-IsGathering lib ncpus ID pages trees_of queue p w in
      let trees = trees_of (pages p).pvd in
      let id = index p % ncpus in
      let found = search_itself index (trees id) p (w.ordered (pages p).pvd id) (w.dirty p h) in
      let out =
        search-IsTakenOut lib index (trees id) p (index p) (w.ordered (pages p).pvd id) found in
      let erased : (tagged_rb_erase index lib (trees id) (index p)).1 ≡ lib.rb_erase p (trees id) =
        ground (arith, found) in
      ap
        (λ (t : Tree). gather lib ncpus ID max_rounds ((index p + 1) % 2 ^ 64) (record {
          pages = (D.remove_if ev_deq queue pages p).2;
          queue = (D.remove_if ev_deq queue pages p).1;
          trees = set_tree trees id t;
          pgs = p ∷ [];
        }))
        erased
      ∙ ap (λ (g : Gather). gather lib ncpus ID max_rounds ((index p + 1) % 2 ^ 64) g)
          (sym (
            take_page-taken lib ncpus ID index (before lib ncpus ID pages trees_of queue p) v
              (index p) p (w.owned p h) out e))

  after_dequeue-none :
      (t : Option ℕ × Fifo × Pages)
      → t.0 ≡ none
      → ((after_dequeue lib ncpus ID trees_of t).0 ≡ none)
        × ((after_dequeue lib ncpus ID trees_of t).1 ≡ t.1)
  unfolding after_dequeue
  after_dequeue-none (none, f, m) e = (refl, refl)
  after_dequeue-none (some p, f, m) e = absurd (ground (arith, e))

  unfoldable Outcome : Fifo → Option Gather × Fifo × Pages → Type 0
  Outcome queue r =
      ((r.0 ≡ none) × ((q : ℕ) → count q r.1.buffer ≡ count q queue.buffer))
      ⊎ ((g : Gather) × (r.0 ≡ some g) × IsEvicted lib ncpus ID pages trees_of queue g)

  evict-head :
      (queue : Fifo) (p : ℕ) (rest : List ℕ)
      → IsWaiting lib ncpus ID pages trees_of queue
      → queue.buffer ≡ p ∷ rest
      → Outcome queue (after_dequeue lib ncpus ID trees_of (D.dequeue_if ev_deq queue pages))
  unfolding Outcome after_dequeue
  evict-head queue p rest w b = elim (Bool-cases (ev_deq pages p).0) [
    | inr e ↦
        let (got, same) = dequeue_if-none queue p rest b e in
        let (nothing, f) = after_dequeue-none (D.dequeue_if ev_deq queue pages) got in
        inl (nothing, λ q. ap (λ (f : Fifo). count q f.buffer) f ∙ same q)
    | inl e ↦
        let has : 0 < count p queue.buffer = ground (arith, b) in
        let head = dequeue_if-head queue p rest w.valid b e in
        let g = gather lib ncpus ID max_rounds (((pages p).index + 1) % 2 ^ 64) (
          take_page lib ncpus ((pages p).index % ncpus) p
            (before lib ncpus ID pages trees_of queue p)) in
        inr (
          g,
          ap (λ (t : Option ℕ × Fifo × Pages). (after_dequeue lib ncpus ID trees_of t).0) head
              ∙ ap (λ (g : Gather). some g)
                  (gather_from-start_loop queue p ∙ start_loop-taken queue p w has e),
          taken-IsEvicted lib ncpus ID pages trees_of queue p w has e,
        )
  ]

  empty-Outcome :
      (queue : Fifo)
      → IsWaiting lib ncpus ID pages trees_of queue
      → queue.buffer ≡ []
      → Outcome queue (after_dequeue lib ncpus ID trees_of (D.dequeue_if ev_deq queue pages))
  unfolding Outcome D.dequeue_if
  empty-Outcome queue w b =
      let size : queue.size ≡ 0 = ground (arith, w.valid.counted, b) in
      let (nothing, f) =
        after_dequeue-none (D.dequeue_if ev_deq queue pages) (ground (arith, size)) in
      inl (nothing, λ q. ap (λ (f : Fifo). count q f.buffer) f ∙ ground (arith, size))

  -- Where the queue is valid, the dirty trees of every device are in order with each page in the
  -- tree of its index, the evictor's queue has exactly its own pages of the trees, and indices are
  -- below 2^64: a round of an evictor takes nothing and leaves the queue with the same pages, or it
  -- gathers a batch that begins with a page of the queue; the batch has at most 512 pages, their
  -- indices grow strictly within the aligned block of 512 of the first, exactly its pages are newly
  -- locked, each of them has left the queue and the dirty tree of the first page's device, and the
  -- queue and those trees hold every other page as before.
  pub evict-IsEvicted :
      (queue : Fifo)
      → IsWaiting lib ncpus ID pages trees_of queue
      → let (got, f, m) = evict lib ncpus ID queue pages trees_of in
        ((got ≡ none) × ((q : ℕ) → count q f.buffer ≡ count q queue.buffer))
        ⊎ ((g : Gather) × (got ≡ some g) × IsEvicted lib ncpus ID pages trees_of queue g)
  unfolding evict Outcome
  evict-IsEvicted queue w = split queue.buffer refl
    where
      split :
          (xs : List ℕ)
          → queue.buffer ≡ xs
          → Outcome queue (after_dequeue lib ncpus ID trees_of (D.dequeue_if ev_deq queue pages))
      split [] b = empty-Outcome queue w b
      split (p ∷ rest) b = evict-head queue p rest w b
