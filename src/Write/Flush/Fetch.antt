-- ===== src/Write/Flush/Fetch.antt =====
-- Fetching the next page of a tree succeeds and keeps what is still to be written.
use fast_map.Common.{
  ℕ, ◌+◌, ◌≤◌, ◌<◌, ◌≡◌, refl, ◌∙◌, Bool, true, false, ltb, ◌==◌, if◌then◌else◌, List, [], ◌∷◌,
  count, some, arith, Bool-cases, inl, inr, All, sym, subst,
}
use fast_map.TaggedPage.{trylock_tp}
use fast_map.Fifo.{Pages, update}
use fast_map.Rbtree.{inorder, RbLib}
use fast_map.Rbtree.Search.{Increasing}
use fast_map.Fault.Writable.{set_tree}
use fast_map.Write.Heap.{HeapNode, max_cpus, insert_entry, min_heap_insert}
use fast_map.Write.Heap.Order.{IsHeap}
use fast_map.Write.Heap.Up.{insert_entry_lem}
use fast_map.Write.Flush.{Flush, take_first, fetch}
use fast_map.Write.Flush.Sums.{over-set, over-term, holds, weight, IsFirst, IsFirst-cases}
use fast_map.Write.Flush.Invariant.{
  Inv, and_cpu, of_page, fronts, wrong, in_heap, in_trees, remaining,
}

lock_moves :
    (m : Pages) (p q mine h h' : ℕ) (b : Bool)
    → h' ≡ h + (if p == q then 1 else 0)
    → (m q).locked ≡ (if ltb 0 (mine + h) then true else b)
    → (update m p (record (m p) { locked = true }) q).locked
      ≡ (if ltb 0 (mine + h') then true else b)
lock_moves m p q mine h h' b e l = ground arith

no_lock : (l b : Bool) (n : ℕ) → n ≡ 0 → l ≡ (if ltb 0 n then true else b) → l ≡ b
no_lock l b n e h = ground arith

module _ (lib : RbLib) (ncpus : ℕ) (index : ℕ → ℕ) (before : ℕ → Bool) where
  -- The state after the first page of a tree was taken.
  abbrev took : ℕ → ℕ → Flush → Flush
  took cpu p s = record s {
    buffer = record s.buffer {
      pages = update s.buffer.pages p (record (s.buffer.pages p) { locked = true });
    };
    heap = insert_entry s.heap cpu (s.buffer.pages p).index p;
    trees = set_tree s.trees cpu (lib.rb_erase p (s.trees cpu));
  }

  pub record Fetched (ready : ℕ → Bool) (cpu : ℕ) (s : Flush) (mine : List ℕ) (lo : ℕ) (s' : Flush)
      : Type 0 where
    pub inv : Inv ncpus index before (and_cpu ready cpu) s' mine lo
    pub keeps : (q : ℕ) → in_heap s' q + in_trees ncpus s' q ≡ in_heap s q + in_trees ncpus s q
    pub measure : remaining ncpus s' ≡ remaining ncpus s
    pub same_pages : s'.pages ≡ s.pages
    pub same_written : s'.written ≡ s.written
    pub size : s'.heap.heap_size ≤ s.heap.heap_size + 1

  count-above :
      (p q : ℕ) (ps : List ℕ) → All (λ r. index p < index r) ps → 0 < count q ps → index p < index q
  count-above p q [] a h = absurd (omega arith)
  count-above p q (r ∷ ps) a h = ground (arith, a.0, count-above p q ps a.1)

  -- The page goes from its tree to the heap, and nothing else.
  took-keeps :
      (cpu p : ℕ) (ps : List ℕ) (s : Flush) (q : ℕ)
      → cpu < ncpus
      → IsHeap s.heap.heap_array s.heap.heap_size
      → IsFirst lib (s.trees cpu) p ps
      → (in_heap (took cpu p s) q ≡ in_heap s q + (if p == q then 1 else 0))
        × (in_trees ncpus (took cpu p s) q + (if p == q then 1 else 0) ≡ in_trees ncpus s q)
  took-keeps cpu p ps s q l h f =
      let (heaped, size, sums) = insert_entry_lem s.heap cpu (s.buffer.pages p).index p h in
      let before : holds q (s.trees cpu) ≡ (if p == q then 1 else 0) + count q ps =
        ground (arith, f.sequence) in
      let after : holds q (lib.rb_erase p (s.trees cpu)) ≡ count q ps = ground (arith, f.rest) in
      (
        ground (arith, sums (of_page q)),
        omega (
          arith,
          before,
          after,
          over-set (holds q) s.trees cpu (lib.rb_erase p (s.trees cpu)) ncpus l,
        ),
      )

  took-ordered :
      (cpu p : ℕ) (ps : List ℕ) (s : Flush) (c : ℕ)
      → Increasing index (inorder (s.trees c))
      → IsFirst lib (s.trees cpu) p ps
      → Increasing index (inorder (set_tree s.trees cpu (lib.rb_erase p (s.trees cpu)) c))
  took-ordered cpu p ps s c o f = elim (Bool-cases (c == cpu)) [
    | inl e ↦
        let same : c ≡ cpu = ground (arith, e) in
        let whole : Increasing index (p ∷ ps) =
          subst (λ xs. Increasing index xs) f.sequence
            (subst (λ k. Increasing index (inorder (s.trees k))) same o) in
        let now : inorder (set_tree s.trees cpu (lib.rb_erase p (s.trees cpu)) c) ≡ ps =
          ground (arith, e, f.rest) in
        subst (λ xs. Increasing index xs) (sym now) whole.1
    | inr e ↦
        subst (λ t. Increasing index (inorder t)) {x = s.trees c}
          {y = set_tree s.trees cpu (lib.rb_erase p (s.trees cpu)) c} (ground (arith, e)) o
  ]

  -- What a tree holds afterwards it held before.
  took-held :
      (cpu p : ℕ) (ps : List ℕ) (s : Flush) (c q : ℕ)
      → IsFirst lib (s.trees cpu) p ps
      → 0 < holds q (set_tree s.trees cpu (lib.rb_erase p (s.trees cpu)) c)
      → 0 < holds q (s.trees c)
  took-held cpu p ps s c q f h = ground (arith, f.sequence, f.rest)

  took-Inv :
      (ready : ℕ → Bool) (cpu p : ℕ) (ps : List ℕ) (s : Flush) (mine : List ℕ) (lo : ℕ)
      → cpu < ncpus
      → s.heap.heap_size < max_cpus
      → Inv ncpus index before ready s mine lo
      → IsFirst lib (s.trees cpu) p ps
      → Inv ncpus index before (and_cpu ready cpu) (took cpu p s) mine lo
  took-Inv ready cpu p ps s mine lo l room v f =
      let new : HeapNode = record { cpu = cpu; offset = (s.buffer.pages p).index; page = p } in
      let (heaped, size, sums) = insert_entry_lem s.heap cpu (s.buffer.pages p).index p v.heaped in
      let has : holds p (s.trees cpu) ≡ 1 + count p ps = ground (arith, f.sequence) in
      let tail : Increasing index (p ∷ ps) =
        subst (λ xs. Increasing index xs) f.sequence (v.ordered cpu) in
      record {
        heaped = heaped;
        fits = omega (arith, size, room);
        entries =
            ground
              (arith, sums (wrong index ncpus lo), v.entries, v.indices p, v.above cpu p l, has);
        indices = λ q. ground (arith, v.indices q);
        ordered = λ c. took-ordered cpu p ps s c (v.ordered c) f;
        used = λ c q b h. ground (arith, v.used c q b (took-held cpu p ps s c q f h));
        front = λ c q b r h. ground (
          arith,
          sums (fronts c (index q)),
          v.indices p,
          v.front c q b,
          took-held cpu p ps s c q f h,
          r,
          f.rest,
          count-above p q ps tail.0,
        );
        above = λ c q b h. v.above c q b (took-held cpu p ps s c q f h);
        once =
            λ q. let (a, b) = took-keeps cpu p ps s q l v.heaped f in omega (arith, a, b, v.once q);
        locks = λ q.
            let (a, b) = took-keeps cpu p ps s q l v.heaped f in
            lock_moves s.buffer.pages p q (count q mine) (in_heap s q) _ (before q) a (v.locks q);
        free = λ q h.
            let (a, b) = took-keeps cpu p ps s q l v.heaped f in v.free q (omega (arith, a, b, h));
      }

  took-measure :
      (cpu p : ℕ) (ps : List ℕ) (s : Flush)
      → cpu < ncpus
      → IsHeap s.heap.heap_array s.heap.heap_size
      → IsFirst lib (s.trees cpu) p ps
      → remaining ncpus (took cpu p s) ≡ remaining ncpus s
  took-measure cpu p ps s l h f =
      let (heaped, size, sums) = insert_entry_lem s.heap cpu (s.buffer.pages p).index p h in
      ground (
        arith,
        size,
        over-set weight s.trees cpu (lib.rb_erase p (s.trees cpu)) ncpus l,
        f.sequence,
        f.rest,
      )

  -- A page of a tree is in use and not locked, so its lock is taken.
  take_first-took :
      (ready : ℕ → Bool) (cpu p : ℕ) (ps : List ℕ) (s : Flush) (mine : List ℕ) (lo : ℕ)
      → cpu < ncpus
      → s.heap.heap_size < max_cpus
      → Inv ncpus index before ready s mine lo
      → IsFirst lib (s.trees cpu) p ps
      → fetch lib cpu s ≡ some (took cpu p s)
  unfolding fetch take_first trylock_tp min_heap_insert
  take_first-took ready cpu p ps s mine lo l room v f =
      let has : 0 < holds p (s.trees cpu) = ground (arith, f.sequence) in
      let counted : 0 < in_trees ncpus s p =
        omega (arith, has, over-term (holds p) s.trees ncpus cpu l) in
      let out : count p mine + in_heap s p ≡ 0 = omega (arith, counted, v.once p) in
      let unlocked : (s.buffer.pages p).locked ≡ false =
        no_lock _ (before p) (count p mine + in_heap s p) out (v.locks p)
        ∙ v.free p (omega (arith, counted)) in
      ground (arith, f.not_empty, f.first, v.used cpu p l has, unlocked, room)

  and_cpu-Inv :
      (ready : ℕ → Bool) (cpu : ℕ) (s : Flush) (mine : List ℕ) (lo : ℕ)
      → Inv ncpus index before ready s mine lo
      → inorder (s.trees cpu) ≡ []
      → Inv ncpus index before (and_cpu ready cpu) s mine lo
  and_cpu-Inv ready cpu s mine lo v e = record {
    heaped = v.heaped;
    fits = v.fits;
    entries = v.entries;
    indices = v.indices;
    ordered = v.ordered;
    used = v.used;
    front = λ c q b r h. ground (arith, v.front c q b, r, h, e);
    above = v.above;
    once = v.once;
    locks = v.locks;
    free = v.free;
  }

  pub fetch-Fetched :
      (ready : ℕ → Bool) (cpu : ℕ) (s : Flush) (mine : List ℕ) (lo : ℕ)
      → cpu < ncpus
      → s.heap.heap_size < max_cpus
      → Inv ncpus index before ready s mine lo
      → (s' : Flush) × (fetch lib cpu s ≡ some s') × Fetched ready cpu s mine lo s'
  unfolding fetch
  fetch-Fetched ready cpu s mine lo l room v = elim (IsFirst-cases lib (s.trees cpu)) [
    | inl (e, none_left) ↦ (
      s,
      ground (arith, e),
      record {
        inv = and_cpu-Inv ready cpu s mine lo v none_left;
        keeps = λ q. refl;
        measure = refl;
        same_pages = refl;
        same_written = refl;
        size = omega arith;
      },
    )
    | inr (p, ps, f) ↦ (
      took cpu p s,
      take_first-took ready cpu p ps s mine lo l room v f,
      record {
        inv = took-Inv ready cpu p ps s mine lo l room v f;
        keeps = λ q. omega (arith, took-keeps cpu p ps s q l v.heaped f);
        measure = took-measure cpu p ps s l v.heaped f;
        same_pages = refl;
        same_written = refl;
        size =
            let (heaped, grown, sums) =
              insert_entry_lem s.heap cpu (s.buffer.pages p).index p v.heaped in
            omega (arith, grown);
      },
    )
  ]
