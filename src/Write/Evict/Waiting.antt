-- ===== src/Write/Evict/Waiting.antt =====
-- What an evictor finds, and its gathering after the first page.
use fast_map.Common.{
  ℕ, ◌+◌, ◌/◌, ◌%◌, ◌^◌, ◌≤◌, ◌<◌, ◌≡◌, refl, sym, ◌∙◌, subst, true, List, [], ◌∷◌, count, length,
  All, some, arith,
}
use fast_map.Fifo.{Fifo, Pages}
use fast_map.Fifo.Valid.{IsValid}
use fast_map.Rbtree.{Tree, inorder, RbLib, tagged_rb_search}
use fast_map.Rbtree.Search.{Increasing, find, tagged_rb_search-find}
use fast_map.Fault.Writable.{index_of}
use fast_map.Write.Flush.Sums.{holds}
use fast_map.Write.Evict.{Gather, ev_deq, owner, max_evict, max_rounds, take_page, gather}
use fast_map.Write.Evict.Found.{search-IsTakenOut}
use fast_map.Write.Evict.Looked.{IsGathering, Moved, taken-Moved, take_page-taken}
use fast_map.Write.Evict.Gathered.{Rising, gather-Gathered, both-Moved, later-Rising}

module _ (index : ℕ → ℕ) where
  above_all : (b p : ℕ) (xs : List ℕ) → 0 < count p xs → All (λ q. b < index q) xs → b < index p
  above_all b p [] h a = absurd (omega arith)
  above_all b p (x ∷ xs) h a = ground (arith, above_all b p xs)

  find_itself :
      (p : ℕ) (xs : List ℕ)
      → Increasing index xs
      → 0 < count p xs
      → find index (index p) xs ≡ some p
  find_itself p [] o h = absurd (omega arith)
  find_itself p (x ∷ xs) o h = ground (arith, above_all (index x) p xs, o.0, find_itself p xs o.1)

  pub search_itself :
      (t : Tree) (p : ℕ)
      → Increasing index (inorder t)
      → 0 < holds p t
      → tagged_rb_search index t (index p) ≡ some p
  search_itself t p o h = tagged_rb_search-find index t (index p) o ∙ find_itself p (inorder t) o h

module _ (lib : RbLib) (ncpus ID : ℕ) (pages : Pages) (trees_of : ℕ → ℕ → Tree) where
  -- The trees of every device are in order, each page in the tree of its index; the evictor's queue has
  -- each of its dirty pages once, and no other page.
  pub record IsWaiting (queue : Fifo) : Type 0 where
    pub valid : IsValid queue
    pub ordered : (d c : ℕ) → Increasing (index_of pages) (inorder (trees_of d c))
    pub homed : (d c q : ℕ) → 0 < holds q (trees_of d c) → (pages q).index % ncpus ≡ c
    pub queued :
        (d c q : ℕ)
        → 0 < holds q (trees_of d c)
        → owner (pages q).index ≡ ID
        → 0 < count q queue.buffer
    pub dirty :
        (q : ℕ)
        → 0 < count q queue.buffer
        → 0 < holds q (trees_of (pages q).pvd ((pages q).index % ncpus))
    pub owned : (q : ℕ) → 0 < count q queue.buffer → owner (pages q).index ≡ ID
    pub word : (q : ℕ) → (pages q).index < 2 ^ 64

  -- The trees of the device of `p`, and the queue, before anything was taken.
  abbrev pub before : Fifo → ℕ → Gather
  before queue p = record { pages = pages; queue = queue; trees = trees_of (pages p).pvd; pgs = [] }

  pub record IsEvicted (queue : Fifo) (g : Gather) : Type 0 where
    pub first : ℕ
    pub rest : List ℕ
    pub batch : g.pgs ≡ first ∷ rest
    pub moved : Moved lib ncpus ID (index_of pages) (before queue first) g g.pgs
    pub rising : Rising (index_of pages) (pages first).index ((pages first).index / 512) g.pgs
    pub fits : length g.pgs ≤ max_evict

  pub before-IsGathering :
      (queue : Fifo) (p : ℕ)
      → IsWaiting queue
      → IsGathering lib ncpus ID (index_of pages) (before queue p)
  before-IsGathering queue p w = record {
    indices = refl;
    ordered = λ c. w.ordered (pages p).pvd c;
    homed = λ c q h. w.homed (pages p).pvd c q h;
    queued = λ c q h o. w.queued (pages p).pvd c q h o;
  }

  -- The gathering after the first page was taken.
  pub taken-IsEvicted :
      (queue : Fifo) (p : ℕ)
      → IsWaiting queue
      → 0 < count p queue.buffer
      → (ev_deq pages p).0 ≡ true
      → let g = take_page lib ncpus ((pages p).index % ncpus) p (before queue p) in
        IsEvicted queue (gather lib ncpus ID max_rounds (((pages p).index + 1) % 2 ^ 64) g)
  taken-IsEvicted queue p w h e =
      let index = index_of pages in
      let v = before-IsGathering queue p w in
      let trees = trees_of (pages p).pvd in
      let id = index p % ncpus in
      let found = search_itself index (trees id) p (w.ordered (pages p).pvd id) (w.dirty p h) in
      let out =
        search-IsTakenOut lib index (trees id) p (index p) (w.ordered (pages p).pvd id) found in
      let start = before queue p in
      let g = take_page lib ncpus id p start in
      let m : Moved lib ncpus ID index start g (p ∷ []) =
        subst (λ x. Moved lib ncpus ID index start x (p ∷ []))
          (sym (take_page-taken lib ncpus ID index start v (index p) p (w.owned p h) out e))
          (taken-Moved lib ncpus ID index start v (index p) p (w.owned p h) out e) in
      let (new, r) =
        gather-Gathered lib ncpus ID index max_rounds ((index p + 1) % 2 ^ 64) g (omega arith)
          m.inv in
      let final = gather lib ncpus ID max_rounds ((index p + 1) % 2 ^ 64) g in
      let both = both-Moved lib ncpus ID index start g final (p ∷ []) new m r.moved in
      let later =
        later-Rising lib ncpus ID index (index p) new (w.word p) (w.owned p h) r.rising r.stopped in
      record {
        first = p;
        rest = new;
        batch = both.batch;
        moved =
            subst (λ ps. Moved lib ncpus ID index start final ps) {x = p ∷ new} {y = final.pgs}
              (sym both.batch) both;
        rising =
            subst (λ ps. Rising index (index p) (index p / 512) ps) {x = p ∷ new} {y = final.pgs}
              (sym both.batch) (omega arith, refl, later);
        fits = r.fits (ground (arith, m.batch));
      }
