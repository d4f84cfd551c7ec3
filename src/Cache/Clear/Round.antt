-- ===== src/Cache/Clear/Round.antt =====
-- One round of the loop of raw_release: a page leaves its tree and its queue and is freed.
use fast_map.Common.{
  ℕ, ◌%◌, ◌≤◌, ◌≡◌, ◌≢◌, refl, sym, subst, ap, Bool, true, false, ◌==◌, if◌then◌else◌, some, arith,
  Bool-cases, inl, inr, ◌∙◌,
}
use fast_map.TaggedPage.{bi_none, bi_clean, bi_dirty}
use fast_map.Fifo.Lp
use fast_map.Fifo.D
use fast_map.Cache.{Cache, Kernel, pages_of, set_rdx, radix_delete_page}
use fast_map.Cache.Cached.{
  at, IsCached, IsHeld, with_lock, with_lock-IsCached, radix_delete_page-IsCached,
  free_page_lock-IsCached,
}
use fast_map.Cache.Purge.Purged.{IsFree, free_page_lock-IsFree, free_page_lock-other}
use fast_map.Cache.Clear.{remove_clean, remove_dirty, free_page, release_page}
use fast_map.Cache.Clear.Removed.{remove_clean-IsCached, remove_dirty-IsCached}

module _ {R : Type 0} (kernel : Kernel R) (ncpus percpu : ℕ) where
  -- The page leaves its queue, if it is in one.
  abbrev removed : ℕ → Cache R → Cache R
  removed p c =
      let id = (pages_of c p).buffer_id in
      if id == bi_clean then remove_clean p c else (if id == bi_dirty then remove_dirty p c else c)

  record IsRemoved (c c' : Cache R) (p : ℕ) : Type 0 where
    cached : IsCached kernel ncpus percpu c'
    off : (pages_of c' p).buffer_id ≡ bi_none
    same_rdx : c'.rdx ≡ c.rdx
    same_lock : (pages_of c' p).locked ≡ (pages_of c p).locked
    same_use : (pages_of c' p).in_use ≡ (pages_of c p).in_use
    same_pvd : (pages_of c' p).pvd ≡ (pages_of c p).pvd
    same_index : (pages_of c' p).index ≡ (pages_of c p).index
    other_pages : (q : ℕ) → q ≢ p → pages_of c' q ≡ pages_of c q

  removed-IsRemoved :
      (c : Cache R) (p : ℕ)
      → IsCached kernel ncpus percpu c
      → (pages_of c p).buffer_id ≤ bi_dirty
      → IsRemoved c (removed p c) p
  unfolding remove_clean remove_dirty Lp.remove D.remove
  removed-IsRemoved c p v h = elim (Bool-cases ((pages_of c p).buffer_id == bi_clean)) [
    | inl e ↦
        let e' : (pages_of c p).buffer_id ≡ bi_clean = ground (arith, e) in
        let same : removed p c ≡ remove_clean p c = ground (arith, e) in
        subst (λ x. IsRemoved c x p) (sym same)
          (record {
            cached = remove_clean-IsCached kernel ncpus percpu c p v e';
            off = ground arith;
            same_rdx = refl;
            same_lock = ground arith;
            same_use = ground arith;
            same_pvd = ground arith;
            same_index = ground arith;
            other_pages = λ q n. ground (arith, n);
          })
    | inr e ↦ elim (Bool-cases ((pages_of c p).buffer_id == bi_dirty)) [
      | inl f ↦
          let f' : (pages_of c p).buffer_id ≡ bi_dirty = ground (arith, f) in
          let same : removed p c ≡ remove_dirty p c = ground (arith, e, f) in
          subst (λ x. IsRemoved c x p) (sym same)
            (record {
              cached = remove_dirty-IsCached kernel ncpus percpu c p v f';
              off = ground arith;
              same_rdx = refl;
              same_lock = ground arith;
              same_use = ground arith;
              same_pvd = ground arith;
              same_index = ground arith;
              other_pages = λ q n. ground (arith, n);
            })
      | inr f ↦
          let same : removed p c ≡ c = ground (arith, e, f) in
          subst (λ x. IsRemoved c x p) (sym same)
            (record {
              cached = v;
              off = ground (arith, e, f, h);
              same_rdx = refl;
              same_lock = refl;
              same_use = refl;
              same_pvd = refl;
              same_index = refl;
              other_pages = λ q n. refl;
            })
    ]
  ]

  chosen-rdx :
      (b d : Bool) (c : Cache R) (p : ℕ) (rdx : ℕ → ℕ → R)
      → (if b
          then remove_clean p (record c { rdx = rdx })
          else (if d then remove_dirty p (record c { rdx = rdx }) else record c { rdx = rdx }))
        ≡ record (if b then remove_clean p c else (if d then remove_dirty p c else c)) { rdx = rdx }
  unfolding remove_clean remove_dirty
  chosen-rdx true d c p rdx = refl
  chosen-rdx false true c p rdx = refl
  chosen-rdx false false c p rdx = refl

  -- The cache `c'` is `c` without the page `p`.
  pub record IsReleased (c c' : Cache R) (p : ℕ) : Type 0 where
    pub cached : IsCached kernel ncpus percpu c'
    pub free : IsFree (pages_of c' p)
    pub other_pages : (q : ℕ) → q ≢ p → pages_of c' q ≡ pages_of c q
    pub tree_from :
        (d k i q : ℕ)
        → at kernel ncpus percpu c' d k i ≡ some q
        → (at kernel ncpus percpu c d k i ≡ some q) × (q ≢ p)
    pub tree_kept :
        (d k i q : ℕ)
        → at kernel ncpus percpu c d k i ≡ some q
        → q ≢ p
        → at kernel ncpus percpu c' d k i ≡ some q

  without : (ℕ → ℕ → R) → ℕ → ℕ → ℕ → ℕ → ℕ → R
  without rdx d k i = set_rdx rdx d k (kernel.radix.radix_tree_delete (rdx d k) i)

  -- The order of the steps does not matter.
  in_order : Cache R → ℕ → Cache R
  in_order c p =
      free_page p (radix_delete_page kernel (removed p (with_lock kernel ncpus percpu c p)) p)

  in_order-IsReleased :
      (c : Cache R) (d k i p : ℕ)
      → IsCached kernel ncpus percpu c
      → at kernel ncpus percpu c d k i ≡ some p
      → (pages_of c p).buffer_id ≤ bi_dirty
      → IsReleased c (in_order c p) p
  unfolding in_order radix_delete_page
  in_order-IsReleased c d k i p v e h =
      let t = v.in_tree d k i p e in
      let c1 = with_lock kernel ncpus percpu c p in
      let v1 = with_lock-IsCached kernel ncpus percpu c p v t.used in
      let c2 = removed p c1 in
      let r = removed-IsRemoved c1 p v1 (ground (arith, h)) in
      let index = (pages_of c2 p).index in
      let pvd = (pages_of c2 p).pvd in
      let same_pvd : pvd ≡ d = ground (arith, r.same_pvd, t.same_pvd) in
      let same_index : index ≡ i = ground (arith, r.same_index, t.same_index) in
      let id = index % kernel.num_online_cpus in
      let same_id : id ≡ k = ground (arith, same_index, t.own_tree) in
      let e2 : at kernel ncpus percpu c2 pvd id index ≡ some p =
        ground (arith, e, r.same_rdx, same_pvd, same_index, same_id) in
      let deleted = radix_delete_page-IsCached kernel ncpus percpu c2 p r.cached r.off e2 in
      let c3 = radix_delete_page kernel c2 p in
      let lookup_deleted = kernel.radix.lookup-delete (c2.rdx pvd id) index in
      let held : IsHeld kernel ncpus percpu c3 p = record {
        taken = ground (arith, r.same_use, t.used);
        locked = ground (arith, r.same_lock);
        unqueued = r.off;
        out_of_trees = deleted.1;
      } in
      record {
        cached = free_page_lock-IsCached kernel ncpus percpu c3 p deleted.0 held;
        free = free_page_lock-IsFree c3.page_map p;
        other_pages =
            λ q n. ground (arith, free_page_lock-other c3.page_map p q n, r.other_pages q n, n);
        tree_from = λ a b j q f. (
          ground (arith, f, lookup_deleted j, r.same_rdx),
          λ n. deleted.1 a b j (ground (arith, f, n)),
        );
        tree_kept = λ a b j q f n.
            ground
              (arith, f, n, lookup_deleted j, r.same_rdx, e2, same_pvd, same_index, same_id, e);
      }

  -- The round as the code does it: the tree's entry goes first.
  release_page-in_order :
      (c : Cache R) (d k i p : ℕ)
      → IsCached kernel ncpus percpu c
      → at kernel ncpus percpu c d k i ≡ some p
      → (pages_of c p).buffer_id ≤ bi_dirty
      → release_page p (with_lock kernel ncpus percpu (record c { rdx = without c.rdx d k i }) p)
        ≡ in_order c p
  unfolding release_page in_order radix_delete_page without
  release_page-in_order c d k i p v e h =
      let t = v.in_tree d k i p e in
      let c1 = with_lock kernel ncpus percpu c p in
      let r =
        removed-IsRemoved c1 p (with_lock-IsCached kernel ncpus percpu c p v t.used)
          (ground (arith, h)) in
      let u = pages_of (removed p c1) p in
      let id = (pages_of c1 p).buffer_id in
      let pvd : u.pvd ≡ d = ground (arith, r.same_pvd, t.same_pvd) in
      let index : u.index ≡ i = ground (arith, r.same_index, t.same_index) in
      let tree : u.index % kernel.num_online_cpus ≡ k = ground (arith, index, t.own_tree) in
      let X : ℕ → ℕ → R = without c.rdx d k i in
      let same : without (removed p c1).rdx u.pvd (u.index % kernel.num_online_cpus) u.index ≡ X =
        ground (arith, r.same_rdx, pvd, index, tree) in
      ap (free_page p) (chosen-rdx (id == bi_clean) (id == bi_dirty) c1 p X)
      ∙ ap (λ rdx. free_page p (record (removed p c1) { rdx = rdx })) (sym same)

  pub release_page-IsReleased :
      (c : Cache R) (d k i p : ℕ)
      → IsCached kernel ncpus percpu c
      → at kernel ncpus percpu c d k i ≡ some p
      → (pages_of c p).buffer_id ≤ bi_dirty
      → IsReleased c
          (release_page p (
            with_lock kernel ncpus percpu
              (record c { rdx = set_rdx c.rdx d k (kernel.radix.radix_tree_delete (c.rdx d k) i) })
              p))
          p
  unfolding without
  release_page-IsReleased c d k i p v e h =
      subst (λ x. IsReleased c x p) (sym (release_page-in_order c d k i p v e h))
        (in_order-IsReleased c d k i p v e h)
