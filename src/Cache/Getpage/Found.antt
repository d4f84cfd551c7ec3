-- ===== src/Cache/Getpage/Found.antt =====
-- A round of a fault: the page that it finds or puts into the tree.
use fast_map.Common.{
  ℕ, ◌%◌, ◌≡◌, ◌≢◌, refl, sym, subst, false, ◌==◌, ◌&&◌, none, some, arith, Bool-cases, inl, inr,
}
use fast_map.TaggedPage.{bi_none, trylock_tp}
use fast_map.PageMap.{free_page_lock}
use fast_map.Cache.{
  Inserted, done, exists, no_memory, Cache, Kernel, pages_of, fmap_radix_lookup, fmap_radix_insert,
}
use fast_map.Cache.Cached.{at, IsCached, free_page_lock-IsCached, with_lock, with_lock-IsCached}
use fast_map.Cache.Purge.Spaces.{Overran}
use fast_map.Cache.Getpage.{
  VmFault, Moment, looked_up, waiting, Others, Round, again, missed, hit, overrun, find_hit,
  find_insert,
}
use fast_map.Cache.Getpage.Filled.{IsFound}

module _ {R : Type 0} (kernel : Kernel R) (ncpus percpu : ℕ) where
  -- A page that this CPU has just allocated for a fault and no one else can reach.
  pub record IsFresh (vmf : VmFault) (c : Cache R) (p : ℕ) : Type 0 where
    pub used : (pages_of c p).in_use ≡ 1
    pub unlocked : (pages_of c p).locked ≡ false
    pub unqueued : (pages_of c p).buffer_id ≡ bi_none
    pub invalid : (pages_of c p).page_valid ≡ 0
    pub own_pvd : (pages_of c p).pvd ≡ vmf.pvd
    pub own_index : (pages_of c p).index ≡ vmf.pgoff
    pub out_of_trees : (d k i : ℕ) → at kernel ncpus percpu c d k i ≢ some p

  -- What the other CPUs keep while a fault runs: the agreement of the cache, a page that only the
  -- fault can reach, and, between the lookup and the lock, the tree's entry of the page found.
  pub record AreFair (vmf : VmFault) (others : Others R) : Type 0 where
    pub agree :
        (w : Moment) (n : ℕ) (c : Cache R)
        → IsCached kernel ncpus percpu c
        → IsCached kernel ncpus percpu (others w n c)
    pub keep_fresh :
        (n : ℕ) (c : Cache R) (p : ℕ)
        → IsCached kernel ncpus percpu c
        → IsFresh vmf c p
        → IsFresh vmf (others Moment.allocated n c) p
    pub keep_entry :
        (n : ℕ) (c : Cache R) (p : ℕ)
        → IsCached kernel ncpus percpu c
        → fmap_radix_lookup kernel c vmf.pvd vmf.pgoff ≡ some p
        → fmap_radix_lookup kernel (others looked_up n c) vmf.pvd vmf.pgoff ≡ some p

  -- How a round or a loop of rounds ends.
  pub data Ended (vmf : VmFault) : Round R → Type 0 where
    tries : (c : Cache R) → IsCached kernel ncpus percpu c → Ended vmf (again c)
    new :
        (p : ℕ) (c : Cache R)
        → IsCached kernel ncpus percpu c
        → IsFound kernel ncpus percpu vmf c p
        → (pages_of c p).buffer_id ≡ bi_none
        → (pages_of c p).page_valid ≡ 0
        → Ended vmf (missed p c)
    old :
        (p : ℕ) (c : Cache R)
        → IsCached kernel ncpus percpu c
        → IsFound kernel ncpus percpu vmf c p
        → (pages_of c p).page_valid ≡ 1
        → Ended vmf (hit p c)
    overruns :
        (qid : ℕ) (c : Cache R)
        → IsCached kernel ncpus percpu c
        → Overran kernel ncpus percpu qid c
        → Ended vmf (overrun qid c)

  pub find_hit-Ended :
      (vmf : VmFault) (others : Others R) (n : ℕ) (c : Cache R) (p : ℕ)
      → AreFair vmf others
      → IsCached kernel ncpus percpu c
      → fmap_radix_lookup kernel c vmf.pvd vmf.pgoff ≡ some p
      → Ended vmf (find_hit kernel others n p c)
  unfolding find_hit trylock_tp fmap_radix_lookup
  find_hit-Ended vmf others n c p fair v e =
      let t = v.in_tree vmf.pvd (vmf.pgoff % kernel.num_online_cpus) vmf.pgoff p e in
      elim (Bool-cases (pages_of c p).locked) [
        | inl l ↦
            subst (Ended vmf) (sym (ground (arith, l, t.used)))
              (tries (others waiting n c) (fair.agree waiting n c v))
        | inr l ↦
            let valid : (pages_of c p).page_valid ≡ 1 = ground (arith, l, t.readable) in
            let same : find_hit kernel others n p c ≡ hit p (with_lock kernel ncpus percpu c p) =
              ground (arith, l, t.used, valid) in
            subst (Ended vmf) (sym same) (
              old p (with_lock kernel ncpus percpu c p)
                (with_lock-IsCached kernel ncpus percpu c p v t.used)
                (record { locked = ground arith; in_tree = e }) (ground (arith, valid)))
      ]

  pub find_insert-present :
      (vmf : VmFault) (c : Cache R) (p q : ℕ)
      → IsCached kernel ncpus percpu c
      → IsFresh vmf c p
      → fmap_radix_lookup kernel c vmf.pvd vmf.pgoff ≡ some q
      → Ended vmf (find_insert kernel vmf p c)
  unfolding find_insert trylock_tp fmap_radix_insert fmap_radix_lookup
  find_insert-present vmf c p q v f e =
      let c1 = with_lock kernel ncpus percpu c p in
      let v1 = with_lock-IsCached kernel ncpus percpu c p v f.used in
      let (ret, c2) = fmap_radix_insert kernel c1 vmf.pvd vmf.pgoff p in
      let id = vmf.pgoff % kernel.num_online_cpus in
      let ans = kernel.radix.insert-present (c.rdx vmf.pvd id) vmf.pgoff p q e in
      let c3 : Cache R = record c2 { page_map = free_page_lock c2.page_map p } in
      let same : find_insert kernel vmf p c ≡ again c3 = ground (arith, f.used, f.unlocked, ans) in
      let trees : (d k i : ℕ) → at kernel ncpus percpu c2 d k i ≡ at kernel ncpus percpu c1 d k i =
        λ d k i. ground (arith, ans) in
      subst (Ended vmf) (sym same) (
        tries c3 (
          free_page_lock-IsCached kernel ncpus percpu c2 p
            (record {
              homed = v1.homed;
              owned = v1.owned;
              unlocked = v1.unlocked;
              placed = v1.placed;
              in_tree = λ d k i r g. v1.in_tree d k i r (ground (arith, g, trees d k i));
              queued = λ r g. ground (
                arith,
                v1.queued r g,
                trees (pages_of c1 r).pvd ((pages_of c1 r).index % kernel.num_online_cpus)
                    (pages_of c1 r).index,
              );
            })
            (record {
              taken = ground (arith, f.used);
              locked = ground arith;
              unqueued = ground (arith, f.unqueued);
              out_of_trees = λ d k i g. ground (arith, f.out_of_trees d k i, g, trees d k i);
            })))

  -- The tree that a fault looks its page up in.
  abbrev own_tree : VmFault → Cache R → R
  own_tree vmf c = c.rdx vmf.pvd (vmf.pgoff % kernel.num_online_cpus)

  pub find_insert-absent :
      (vmf : VmFault) (c : Cache R) (p : ℕ)
      → IsCached kernel ncpus percpu c
      → IsFresh vmf c p
      → ((t : R) (i q : ℕ) → (kernel.radix.radix_tree_insert t i q).0 ≢ no_memory)
      → fmap_radix_lookup kernel c vmf.pvd vmf.pgoff ≡ none
      → Ended vmf (find_insert kernel vmf p c)
  unfolding find_insert trylock_tp fmap_radix_insert fmap_radix_lookup
  find_insert-absent vmf c p v f memory e =
      from (kernel.radix.radix_tree_insert (own_tree vmf c) vmf.pgoff p).0 refl
    where
      from :
          (ret : Inserted)
          → (kernel.radix.radix_tree_insert (own_tree vmf c) vmf.pgoff p).0 ≡ ret
          → Ended vmf (find_insert kernel vmf p c)
      from exists g = absurd (kernel.radix.insert-absent (own_tree vmf c) vmf.pgoff p e g)
      from no_memory g = absurd (memory (own_tree vmf c) vmf.pgoff p g)
      from done g =
          let c1 = with_lock kernel ncpus percpu c p in
          let v1 = with_lock-IsCached kernel ncpus percpu c p v f.used in
          let (ret, c2) = fmap_radix_insert kernel c1 vmf.pvd vmf.pgoff p in
          let same : find_insert kernel vmf p c ≡ missed p c2 =
            ground (arith, f.used, f.unlocked, g) in
          let inserted = λ (j : ℕ). kernel.radix.lookup-insert (own_tree vmf c) vmf.pgoff p j g in
          subst (Ended vmf) (sym same) (
            new p c2
              (record {
                homed = v1.homed;
                owned = v1.owned;
                unlocked = v1.unlocked;
                placed = v1.placed;
                in_tree = λ d k i q h.
                    elim (Bool-cases (
                      (d == vmf.pvd)
                      && ((k == vmf.pgoff % kernel.num_online_cpus) && (i == vmf.pgoff)))) [
                        | inl b ↦ record {
                          same_pvd = ground (arith, b, h, inserted i, f.own_pvd);
                          same_index = ground (arith, b, h, inserted i, f.own_index);
                          used = ground (arith, b, h, inserted i, f.used);
                          own_tree = ground (arith, b);
                          readable = ground (arith, b, h, inserted i);
                        }
                        | inr b ↦ v1.in_tree d k i q (ground (arith, b, h, inserted i))
                      ];
                queued = λ q h.
                    ground (arith, v1.queued q h, inserted (pages_of c1 q).index, f.unqueued, e);
              })
              (record { locked = ground arith; in_tree = ground (arith, inserted vmf.pgoff) })
              (ground (arith, f.unqueued)) (ground (arith, f.invalid)))
