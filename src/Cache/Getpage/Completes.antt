-- ===== src/Cache/Getpage/Completes.antt =====
-- A fault makes progress: on a cache without free pages it purges and then finds one.
use fast_map.Common.{
  ℕ, suc, ◌%◌, ◌≤◌, ◌<◌, ◌≡◌, ◌≢◌, refl, sym, subst, Bool, true, false, ◌==◌, List, [], ◌∷◌, ◌++◌,
  Option, none, arith, count, length, All, Bool-cases, Option-cases, inl, inr, ◌⊎◌, ◌∙◌, ap,
}
use fast_map.TaggedPage.{trylock_tp}
use fast_map.Buffer.{num_queues}
use fast_map.PageMap.{PageMap, prepare, alloc_page_lock}
use fast_map.PageMap.Alloc.{Allocated, failed, allocated, alloc_page_lock-Allocated}
use fast_map.PageMap.Homed.{owns}
use fast_map.Cache.{
  Inserted, done, exists, no_memory, Cache, Kernel, pages_of, fmap_radix_lookup, fmap_radix_insert,
}
use fast_map.Cache.Cached.{at, IsCached}
use fast_map.Cache.Purge.{etlb_entries, try_purge_pages_fast}
use fast_map.Cache.Purge.Rounds.{accepts}
use fast_map.Cache.Purge.Spaces.{AreSpaces}
use fast_map.Cache.Purge.Reached.{try_purge_pages_fast-frees}
use fast_map.Cache.Getpage.{
  VmFault, Others, Round, again, missed, find_insert, find_miss, find_round, find_page, hit,
  overrun, after_purge,
}
use fast_map.Cache.Getpage.Found.{IsFresh}
use fast_map.Cache.Getpage.Rounds.{IsServed, allocated-IsFresh, miss_after, round_after}

-- The other CPUs do nothing.
abbrev pub quiet : {R : Type 0} → Others R
quiet w n c = c

-- The code goes on with a page that it put into the tree.
abbrev pub is_missed : {R : Type 0} → Round R → Bool
is_missed (again c) = false
is_missed (missed p c) = true
is_missed (hit p c) = false
is_missed (overrun qid c) = false

module _ {R : Type 0} (kernel : Kernel R) (ncpus percpu : ℕ) where
  abbrev own_tree : VmFault → Cache R → R
  own_tree vmf c = c.rdx vmf.pvd (vmf.pgoff % kernel.num_online_cpus)

  find_insert-missed :
      (vmf : VmFault) (c : Cache R) (p : ℕ)
      → IsFresh kernel ncpus percpu vmf c p
      → IsServed kernel ncpus percpu
      → fmap_radix_lookup kernel c vmf.pvd vmf.pgoff ≡ none
      → is_missed (find_insert kernel vmf p c) ≡ true
  unfolding find_insert trylock_tp fmap_radix_insert fmap_radix_lookup
  find_insert-missed vmf c p f served e =
      from (kernel.radix.radix_tree_insert (own_tree vmf c) vmf.pgoff p).0 refl
    where
      from :
          (ret : Inserted)
          → (kernel.radix.radix_tree_insert (own_tree vmf c) vmf.pgoff p).0 ≡ ret
          → is_missed (find_insert kernel vmf p c) ≡ true
      from exists g = absurd (kernel.radix.insert-absent (own_tree vmf c) vmf.pgoff p e g)
      from no_memory g = absurd (served.memory (own_tree vmf c) vmf.pgoff p g)
      from done g = ground (arith, f.used, f.unlocked, g)

  -- The round after its purge.
  abbrev pub purged_round : ℕ → ℕ → Cache R → Round R
  purged_round random n c =
      let qid = random % num_queues in
      after_purge kernel quiet n qid c (try_purge_pages_fast kernel qid c)

  -- A round for a page that is not in the tree either finds one or purges.
  miss_after-missed :
      (vmf : VmFault) (random n : ℕ) (c : Cache R) (cpus : List ℕ) (found : Option ℕ) (pm : PageMap)
      → IsServed kernel ncpus percpu
      → IsCached kernel ncpus percpu c
      → fmap_radix_lookup kernel c vmf.pvd vmf.pgoff ≡ none
      → Allocated ncpus percpu vmf.pgoff vmf.pvd cpus c.page_map found pm
      → (is_missed (miss_after kernel ncpus percpu quiet vmf random n c (found, pm)) ≡ true)
        ⊎ (All (λ cpu. c.page_map.fl cpu ≡ []) cpus
            × (miss_after kernel ncpus percpu quiet vmf random n c (found, pm)
                ≡ purged_round random n c))
  unfolding prepare fmap_radix_lookup
  miss_after-missed vmf random n c cpus found pm served v e (failed a) = inr (a, refl)
  miss_after-missed vmf random n c cpus found pm served v e
        (allocated p cpu l pm' first unused q same h) =
      let both =
        allocated-IsFresh kernel ncpus percpu vmf c cpus p cpu l pm' v first unused q same h in
      inl (find_insert-missed vmf (record c { page_map = pm' }) p both.1 served e)

  pub find_miss-missed :
      (vmf : VmFault) (random n : ℕ) (c : Cache R) (served : IsServed kernel ncpus percpu)
      → IsCached kernel ncpus percpu c
      → fmap_radix_lookup kernel c vmf.pvd vmf.pgoff ≡ none
      → (is_missed (find_miss kernel quiet vmf random n c) ≡ true)
        ⊎ (All (λ cpu. c.page_map.fl cpu ≡ []) (kernel.cpumask_of_node served.node)
            × (find_miss kernel quiet vmf random n c ≡ purged_round random n c))
  unfolding find_miss
  find_miss-missed vmf random n c served v e =
      let mask = kernel.cpumask_of_node in
      let x = alloc_page_lock mask (served.node ∷ []) c.page_map vmf.pgoff vmf.pvd in
      let taken =
        alloc_page_lock-Allocated ncpus percpu vmf.pgoff vmf.pvd served.node mask c.page_map
          v.homed in
      subst
        (λ ns.
          let r =
            miss_after kernel ncpus percpu quiet vmf random n c
              (alloc_page_lock mask ns c.page_map vmf.pgoff vmf.pvd) in
          (is_missed r ≡ true)
          ⊎ (All (λ cpu. c.page_map.fl cpu ≡ []) (mask served.node)
              × (r ≡ purged_round random n c)))
        (sym served.one_node)
        (miss_after-missed vmf random n c (mask served.node) x.0 x.1 served v e taken)

  find_round-missed :
      (vmf : VmFault) (random n : ℕ) (c : Cache R)
      → fmap_radix_lookup kernel c vmf.pvd vmf.pgoff ≡ none
      → find_round kernel quiet vmf random n c ≡ find_miss kernel quiet vmf random n c
  unfolding find_round
  find_round-missed vmf random n c e =
      ap (λ found. round_after kernel ncpus percpu quiet vmf random n c found) e

  -- The rounds after the first.
  abbrev pub later : VmFault → (ℕ → ℕ) → ℕ → Round R → Round R
  later vmf random n (again c) = find_page kernel quiet vmf random n c
  later vmf random n (missed p c) = missed p c
  later vmf random n (hit p c) = hit p c
  later vmf random n (overrun qid c) = overrun qid c

  pub find_page-later :
      (vmf : VmFault) (random : ℕ → ℕ) (n : ℕ) (c : Cache R)
      → fmap_radix_lookup kernel c vmf.pvd vmf.pgoff ≡ none
      → find_page kernel quiet vmf random (suc n) c
        ≡ later vmf random n (find_miss kernel quiet vmf (random n) n c)
  unfolding find_page
  find_page-later vmf random n c e =
      later_elim (find_round kernel quiet vmf (random n) n c)
      ∙ ap (later vmf random n) (find_round-missed vmf (random n) n c e)
    where
      later_elim :
          (r : Round R)
          → (elim r [
            | again c' ↦ find_page kernel quiet vmf random n c'
            | missed p c' ↦ missed p c'
            | hit p c' ↦ hit p c'
            | overrun qid c' ↦ overrun qid c'
          ])
            ≡ later vmf random n r
      later_elim (again c') = refl
      later_elim (missed p c') = refl
      later_elim (hit p c') = refl
      later_elim (overrun qid c') = refl

  pub later-missed :
      (vmf : VmFault) (random : ℕ → ℕ) (n : ℕ) (r : Round R)
      → is_missed r ≡ true
      → is_missed (later vmf random n r) ≡ true
  later-missed vmf random n (again c) h = absurd (ground (arith, h))
  later-missed vmf random n (missed p c) h = h
  later-missed vmf random n (hit p c) h = h
  later-missed vmf random n (overrun qid c) h = h

  All-count : (P : ℕ → Type 0) (x : ℕ) (xs : List ℕ) → count x xs ≢ 0 → All P xs → P x
  All-count P x [] h a = absurd (h refl)
  All-count P x (y ∷ ys) h a = elim (Bool-cases (x == y)) [
    | inl e ↦ subst P (ground (arith, e)) a.0
    | inr e ↦ All-count P x ys (ground (arith, h, e)) a.1
  ]

  -- A page of the machine that is free is on the list of its CPU.
  free-listed :
      (c : Cache R) (cpu p : ℕ)
      → IsCached kernel ncpus percpu c
      → owns ncpus percpu cpu p ≡ true
      → (pages_of c p).in_use ≡ 0
      → c.page_map.fl cpu ≢ []
  free-listed c cpu p v o u e = ground (arith, v.homed.listed cpu p, o, u, e)

  -- The purge of the first round frees the page `p`.
  pub purged-missed :
      (vmf : VmFault) (random : ℕ → ℕ) (n : ℕ) (c : Cache R) (mms front : List ℕ) (p : ℕ)
      (back : List ℕ) (served : IsServed kernel ncpus percpu)
      → IsCached kernel ncpus percpu c
      → fmap_radix_lookup kernel c vmf.pvd vmf.pgoff ≡ none
      → (c.clean (random (suc n) % num_queues)).buffer ≡ front ++ p ∷ back
      → length front < 192
      → accepts c.backing (pages_of c p) ≡ true
      → count (pages_of c p).cpuid (kernel.cpumask_of_node served.node) ≢ 0
      → AreSpaces kernel ncpus percpu (random (suc n) % num_queues) mms c
      → length mms ≤ etlb_entries
      → is_missed (later vmf random (suc n) (purged_round (random (suc n)) (suc n) c)) ≡ true
  unfolding fmap_radix_lookup
  purged-missed vmf random n c mms front p back served v e q r a m spaces few =
      let qid = random (suc n) % num_queues in
      let (num, c1, purges, some_pages, freed, pgs, after) =
        try_purge_pages_fast-frees kernel ncpus percpu qid c mms front p back v q r a spaces few in
      let id = vmf.pgoff % kernel.num_online_cpus in
      let e1 : fmap_radix_lookup kernel c1 vmf.pvd vmf.pgoff ≡ none =
        elim (Option-cases (at kernel ncpus percpu c1 vmf.pvd id vmf.pgoff)) [
          | inl z ↦ z
          | inr (s, z) ↦ ground (arith, e, (after.tree_from vmf.pvd id vmf.pgoff s z).0)
        ] in
      let own = v.owned p (ground (arith, a)) in
      let missed_now : is_missed (find_page kernel quiet vmf random (suc n) c1) ≡ true =
        elim (find_miss-missed vmf (random n) n c1 served after.cached e1) [
          | inl z ↦
              subst (λ r. is_missed r ≡ true) (sym (find_page-later vmf random n c1 e1))
                (later-missed vmf random n (find_miss kernel quiet vmf (random n) n c1) z)
          | inr (empty, z) ↦ absurd (
              free-listed c1 (pages_of c p).cpuid p after.cached own freed.unused (
                All-count (λ cpu. c1.page_map.fl cpu ≡ []) (pages_of c p).cpuid
                  (kernel.cpumask_of_node served.node) m empty))
        ] in
      subst
        (λ x.
          is_missed (later vmf random (suc n) (after_purge kernel quiet (suc n) qid c x)) ≡ true)
        (sym purges) missed_now
