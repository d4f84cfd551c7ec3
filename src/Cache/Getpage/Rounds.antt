-- ===== src/Cache/Getpage/Rounds.antt =====
-- The rounds of a fault: what any number of them finds.
use fast_map.Common.{
  ℕ, zero, suc, ◌%◌, ◌≡◌, ◌≢◌, sym, subst, true, false, ◌==◌, List, [], ◌∷◌, Option, none, some,
  arith, inl, inr, Option-cases, Bool-cases,
}
use fast_map.TaggedPage.{bi_none}
use fast_map.Buffer.{num_queues}
use fast_map.PageMap.{PageMap, prepare, alloc_page_lock}
use fast_map.PageMap.Alloc.{
  First, Allocated, failed, allocated, alloc_page_lock-Allocated, First-head,
}
use fast_map.PageMap.Homed.{owns, IsHomed}
use fast_map.Cache.{Cache, Kernel, no_memory, pages_of, fmap_radix_lookup}
use fast_map.Cache.Cached.{at, InTree, IsCached}
use fast_map.Cache.Purge.{try_purge_pages_fast}
use fast_map.Cache.Purge.Purged.{Purged, freed, overran, try_purge_pages_fast-Purged}
use fast_map.Cache.Getpage.{
  VmFault, looked_up, purged, waiting, Others, Round, again, missed, hit, overrun, after_purge,
  find_hit, find_insert, find_miss, find_round, find_page,
}
use fast_map.Cache.Getpage
use fast_map.Cache.Getpage.Found.{
  IsFresh, AreFair, Ended, tries, new, old, overruns, find_hit-Ended, find_insert-present,
  find_insert-absent,
}

module _ {R : Type 0} (kernel : Kernel R) (ncpus percpu : ℕ) where
  -- An allocation takes a page that is in no tree and in no queue.
  pub allocated-IsFresh :
      (vmf : VmFault) (c : Cache R) (cpus : List ℕ) (p cpu : ℕ) (l : List ℕ) (pm : PageMap)
      → IsCached kernel ncpus percpu c
      → First c.page_map.fl p cpu l cpus
      → (pages_of c p).in_use ≡ 0
      → pm.pages p ≡ record (prepare vmf.pgoff vmf.pvd (pages_of c p)) { cpuid = cpu }
      → ((q : ℕ) → q ≢ p → pm.pages q ≡ pages_of c q)
      → IsHomed ncpus percpu pm
      → IsCached kernel ncpus percpu (record c { page_map = pm })
        × IsFresh kernel ncpus percpu vmf (record c { page_map = pm }) p
  unfolding fmap_radix_lookup prepare
  allocated-IsFresh vmf c cpus p cpu l pm v first unused e same h =
      let t = pages_of c p in
      let head = First-head c.page_map.fl p cpu l cpus first in
      let own : owns ncpus percpu cpu p ≡ true = ground (arith, head, v.homed.listed cpu p) in
      let off : t.buffer_id ≡ bi_none = elim (Bool-cases (t.buffer_id == bi_none)) [
        | inl b ↦ ground (arith, b)
        | inr b ↦
            let index = t.index in
            let k = index % kernel.num_online_cpus in
            let g = v.queued p (ground (arith, b)) in
            ground (arith, (v.in_tree t.pvd k index p g).used, unused)
      ] in
      let out : (d k i : ℕ) → at kernel ncpus percpu c d k i ≢ some p =
        λ d k i g. ground (arith, (v.in_tree d k i p g).used, unused) in
      let p_buffer : (pm.pages p).buffer_id ≡ bi_none = ground (arith, e) in
      let p_used : (pm.pages p).in_use ≡ 1 = ground (arith, e) in
      let p_cpu : (pm.pages p).cpuid ≡ cpu = ground (arith, e) in
      let p_lock : (pm.pages p).locked ≡ false = ground (arith, e, v.unlocked p, unused) in
      (
        record {
          homed = h;
          owned = λ q n. elim (Bool-cases (q == p)) [
            | inl b ↦ ground (arith, b, own, p_cpu)
            | inr b ↦ ground (arith, b, n, v.owned q, same q)
          ];
          unlocked = λ q n. elim (Bool-cases (q == p)) [
            | inl b ↦ ground (arith, b, p_lock)
            | inr b ↦ ground (arith, b, n, v.unlocked q, same q)
          ];
          placed = record {
            clean_valid = v.placed.clean_valid;
            dirty_valid = v.placed.dirty_valid;
            in_clean = λ q r. elim (Bool-cases (r == p)) [
              | inl b ↦ ground (arith, b, p_buffer, off, v.placed.in_clean q r)
              | inr b ↦ ground (arith, b, v.placed.in_clean q r, same r)
            ];
            in_dirty = λ q r. elim (Bool-cases (r == p)) [
              | inl b ↦ ground (arith, b, p_buffer, off, v.placed.in_dirty q r)
              | inr b ↦ ground (arith, b, v.placed.in_dirty q r, same r)
            ];
          };
          in_tree = λ d k i q g.
              let n : q ≢ p = λ b. out d k i (ground (arith, b, g)) in
              subst (λ u. InTree kernel ncpus percpu u d k i) (sym (same q n))
                (v.in_tree d k i q g);
          queued = λ q n.
              let other : q ≢ p = λ b. n (ground (arith, b, p_buffer)) in
              ground (arith, n, other, same q other, v.queued q);
        },
        record {
          used = p_used;
          unlocked = p_lock;
          unqueued = p_buffer;
          invalid = ground (arith, e);
          own_pvd = ground (arith, e);
          own_index = ground (arith, e);
          out_of_trees = out;
        },
      )

  -- A miss after the allocation.
  abbrev pub miss_after : Others R → VmFault → ℕ → ℕ → Cache R → Option ℕ × PageMap → Round R
  miss_after others vmf random n c x =
      let (found, pm) = x in
      let c' = record c { page_map = pm } in
      elim found [
        | none ↦
            let qid = random % num_queues in
            after_purge kernel others n qid c' (try_purge_pages_fast kernel qid c')
        | some p ↦ find_insert kernel vmf p (others Getpage.allocated n c')
      ]

  find_insert-Ended :
      (vmf : VmFault) (c : Cache R) (p : ℕ)
      → IsCached kernel ncpus percpu c
      → IsFresh kernel ncpus percpu vmf c p
      → ((t : R) (i q : ℕ) → (kernel.radix.radix_tree_insert t i q).0 ≢ no_memory)
      → Ended kernel ncpus percpu vmf (find_insert kernel vmf p c)
  find_insert-Ended vmf c p v f memory =
      elim (Option-cases (fmap_radix_lookup kernel c vmf.pvd vmf.pgoff)) [
        | inl e ↦ find_insert-absent kernel ncpus percpu vmf c p v f memory e
        | inr (q, e) ↦ find_insert-present kernel ncpus percpu vmf c p q v f e
      ]

  after_purge-Ended :
      (others : Others R) (vmf : VmFault) (n qid : ℕ) (c : Cache R) (x : Option (ℕ × Cache R))
      → AreFair kernel ncpus percpu vmf others
      → IsCached kernel ncpus percpu c
      → Purged kernel ncpus percpu qid c x
      → Ended kernel ncpus percpu vmf (after_purge kernel others n qid c x)
  after_purge-Ended others vmf n qid c x fair v (freed pgs c' a) =
      tries (others purged n c') (fair.agree purged n c' a.cached)
  after_purge-Ended others vmf n qid c x fair v (overran h) = overruns qid c v h

  miss_after-Ended :
      (others : Others R) (vmf : VmFault) (random n : ℕ) (c : Cache R) (cpus : List ℕ)
      (found : Option ℕ) (pm : PageMap)
      → AreFair kernel ncpus percpu vmf others
      → ((t : R) (i q : ℕ) → (kernel.radix.radix_tree_insert t i q).0 ≢ no_memory)
      → IsCached kernel ncpus percpu c
      → Allocated ncpus percpu vmf.pgoff vmf.pvd cpus c.page_map found pm
      → Ended kernel ncpus percpu vmf (miss_after others vmf random n c (found, pm))
  unfolding prepare
  miss_after-Ended others vmf random n c cpus found pm fair memory v (failed a) =
      let qid = random % num_queues in
      after_purge-Ended others vmf n qid c (try_purge_pages_fast kernel qid c) fair v
        (try_purge_pages_fast-Purged kernel ncpus percpu qid c v)
  miss_after-Ended others vmf random n c cpus found pm fair memory v
        (allocated p cpu l pm' first unused e same h) =
      let c' : Cache R = record c { page_map = pm' } in
      let both = allocated-IsFresh vmf c cpus p cpu l pm' v first unused e same h in
      find_insert-Ended vmf (others Getpage.allocated n c') p
        (fair.agree Getpage.allocated n c' both.0) (fair.keep_fresh n c' p both.0 both.1) memory

  -- What the result of a fault depends on: a machine of one NUMA node, and memory for the trees.
  pub record IsServed : Type 0 where
    pub node : ℕ
    pub one_node : kernel.nodes ≡ node ∷ []
    pub memory : (t : R) (i q : ℕ) → (kernel.radix.radix_tree_insert t i q).0 ≢ no_memory

  find_miss-Ended :
      (others : Others R) (vmf : VmFault) (random n : ℕ) (c : Cache R)
      → AreFair kernel ncpus percpu vmf others
      → IsServed
      → IsCached kernel ncpus percpu c
      → Ended kernel ncpus percpu vmf (find_miss kernel others vmf random n c)
  unfolding find_miss
  find_miss-Ended others vmf random n c fair served v =
      let mask = kernel.cpumask_of_node in
      let taken =
        alloc_page_lock-Allocated ncpus percpu vmf.pgoff vmf.pvd served.node mask c.page_map
          v.homed in
      let x = alloc_page_lock mask (served.node ∷ []) c.page_map vmf.pgoff vmf.pvd in
      subst
        (λ ns.
          Ended kernel ncpus percpu vmf (
            miss_after others vmf random n c
              (alloc_page_lock mask ns c.page_map vmf.pgoff vmf.pvd)))
        (sym served.one_node)
        (miss_after-Ended others vmf random n c (mask served.node) x.0 x.1 fair served.memory v
          taken)

  -- A round after the lookup.
  abbrev pub round_after : Others R → VmFault → ℕ → ℕ → Cache R → Option ℕ → Round R
  round_after others vmf random n c found = elim found [
    | none ↦ find_miss kernel others vmf random n c
    | some p ↦ find_hit kernel others n p (others looked_up n c)
  ]

  find_round-Ended :
      (others : Others R) (vmf : VmFault) (random n : ℕ) (c : Cache R)
      → AreFair kernel ncpus percpu vmf others
      → IsServed
      → IsCached kernel ncpus percpu c
      → Ended kernel ncpus percpu vmf (find_round kernel others vmf random n c)
  unfolding find_round
  find_round-Ended others vmf random n c fair served v =
      let after : Option ℕ → Type 0 =
        λ found. Ended kernel ncpus percpu vmf (round_after others vmf random n c found) in
      elim (Option-cases (fmap_radix_lookup kernel c vmf.pvd vmf.pgoff)) [
        | inl e ↦ subst after (sym e) (find_miss-Ended others vmf random n c fair served v)
        | inr (p, e) ↦ subst after (sym e) (
            find_hit-Ended kernel ncpus percpu vmf others n (others looked_up n c) p fair
              (fair.agree looked_up n c v) (fair.keep_entry n c p v e))
      ]

  pub find_page-Ended :
      (others : Others R) (vmf : VmFault) (random : ℕ → ℕ) (fuel : ℕ) (c : Cache R)
      → AreFair kernel ncpus percpu vmf others
      → IsServed
      → IsCached kernel ncpus percpu c
      → Ended kernel ncpus percpu vmf (find_page kernel others vmf random fuel c)
  unfolding find_page
  find_page-Ended others vmf random zero c fair served v = tries c v
  find_page-Ended others vmf random (suc n) c fair served v =
      next (find_round kernel others vmf (random n) n c)
        (find_round-Ended others vmf (random n) n c fair served v)
        (λ c' v'. find_page-Ended others vmf random n c' fair served v')
    where
      next :
          (r : Round R)
          → Ended kernel ncpus percpu vmf r
          → ((c' : Cache R)
              → IsCached kernel ncpus percpu c'
              → Ended kernel ncpus percpu vmf (find_page kernel others vmf random n c'))
          → Ended kernel ncpus percpu vmf (elim r [
            | again c' ↦ find_page kernel others vmf random n c'
            | missed p c' ↦ missed p c'
            | hit p c' ↦ hit p c'
            | overrun qid c' ↦ overrun qid c'
          ])
      next r (tries c' v') rest = rest c' v'
      next r (new p c' v' f b z) rest = new p c' v' f b z
      next r (old p c' v' f z) rest = old p c' v' f z
      next r (overruns qid c' v' h) rest = overruns qid c' v' h
