-- ===== src/Cache/Clear/Loop.antt =====
-- The loops end, and they clear the device or file.
use fast_map.Common.{
  ℕ, zero, suc, ◌<◌, ◌≤◌, ◌≡◌, refl, sym, subst, true, false, List, Option, none, some, arith,
  erase, length, length-erase,
}
use fast_map.TaggedPage.{TaggedPage, TryLock, bi_dirty, trylock_tp, ulong_max}
use fast_map.Fifo.{Pages, update}
use fast_map.Write.Flush.{is_taken}
use fast_map.Cache.{Cache, Kernel, pages_of, with_pages}
use fast_map.Cache.Cached.{at, IsCached, with_lock}
use fast_map.Cache.Clear.{RadixIter, pop_page, clear_pages, release_page, raw_release_pages}
use fast_map.Cache.Clear.Round.{IsReleased, release_page-IsReleased}
use fast_map.Cache.Clear.Cleared.{
  popped, Popped, nothing, page, pop_page-Popped, AreClearable, Done, done, nothing-IsCleared,
  rest-IsCleared, rest-AreClearable,
}

module _ {R : Type 0} (kernel : Kernel R) (iter : RadixIter kernel.radix) (ncpus percpu : ℕ) where
  -- What a round does, after `pop_page` found `x`.
  abbrev pub round_after :
      (ℕ → Cache R → Cache R) → ℕ → ℕ → Cache R → Option (ℕ × Cache R) → Option (Cache R)
  round_after handle pvd fuel c x = elim x [
    | none ↦ some c
    | some (p, c') ↦
        let (r, t) = trylock_tp (pages_of c' p) ulong_max in
        elim (is_taken r) [
          | true ↦
              clear_pages kernel iter handle pvd fuel
                (handle p (with_pages c' (update (pages_of c') p t)))
          | false ↦ none
        ]
  ]

  trylock-taken :
      (m : Pages) (p : ℕ)
      → (m p).in_use ≡ 1
      → (m p).locked ≡ false
      → trylock_tp (m p) ulong_max ≡ (TryLock.taken, record (m p) { locked = true })
  unfolding trylock_tp
  trylock-taken m p u l = ground (arith, u, l)

  rest-Done :
      (pvd k i p : ℕ) (c c1 : Cache R) (x : Option (Cache R))
      → IsCached kernel ncpus percpu c
      → at kernel ncpus percpu c pvd k i ≡ some p
      → IsReleased kernel ncpus percpu c c1 p
      → Done kernel iter ncpus percpu pvd c1 x
      → Done kernel iter ncpus percpu pvd c x
  rest-Done pvd k i p c c1 x v e r (done c' d) =
      done c' (rest-IsCleared kernel iter ncpus percpu pvd k i p c c1 c' v e r d)

  -- `handle` does on the pages of the device what raw_release does.
  pub clear_pages-Done :
      (handle : ℕ → Cache R → Cache R) (Good : ℕ → Type 0) (pvd fuel : ℕ) (ps : List ℕ)
      (c : Cache R)
      → ((p : ℕ) (c : Cache R) → Good (pages_of c p).buffer_id → handle p c ≡ release_page p c)
      → 0 < kernel.num_online_cpus
      → AreClearable kernel iter ncpus percpu Good pvd ps c
      → length ps < fuel
      → Done kernel iter ncpus percpu pvd c (clear_pages kernel iter handle pvd fuel c)
  unfolding clear_pages
  clear_pages-Done handle Good pvd zero ps c law n a f = absurd (omega (arith, f))
  clear_pages-Done handle Good pvd (suc fuel) ps c law n a f =
      from (pop_page kernel iter pvd 0 kernel.num_online_cpus c)
        (pop_page-Popped kernel iter ncpus percpu pvd 0 kernel.num_online_cpus c)
        (λ c1 qs b g. clear_pages-Done handle Good pvd fuel qs c1 law n b g)
    where
      from :
          (x : Option (ℕ × Cache R))
          → Popped kernel iter ncpus percpu pvd 0 kernel.num_online_cpus c x
          → ((c1 : Cache R) (qs : List ℕ)
              → AreClearable kernel iter ncpus percpu Good pvd qs c1
              → length qs < fuel
              → Done kernel iter ncpus percpu pvd c1 (clear_pages kernel iter handle pvd fuel c1))
          → Done kernel iter ncpus percpu pvd c (round_after handle pvd fuel c x)
      from x (nothing h) rest = done c (
          nothing-IsCleared kernel iter ncpus percpu pvd c n a.cached
            (λ k i l. h k i (omega arith) (omega (arith, l))))
      from x (page k i p e) rest =
          let t = a.cached.in_tree pvd k i p e in
          let c0 = popped kernel iter ncpus percpu pvd k i c in
          let locked = with_lock kernel ncpus percpu c0 p in
          let (low, good) = a.queue k i p e in
          let c1 = release_page p locked in
          let r = release_page-IsReleased kernel ncpus percpu c pvd k i p a.cached e low in
          let known = a.known k i p e in
          let later =
            rest c1 (erase p ps) (rest-AreClearable kernel iter ncpus percpu Good pvd p ps c c1 a r)
              (omega (arith, f, length-erase p ps, known)) in
          let after : TryLock × TaggedPage → Option (Cache R) = λ x. elim (is_taken x.0) [
            | true ↦
                clear_pages kernel iter handle pvd fuel
                  (handle p (with_pages c0 (update (pages_of c0) p x.1)))
            | false ↦ none
          ] in
          let is_done =
            rest-Done pvd k i p c c1 (clear_pages kernel iter handle pvd fuel c1) a.cached e r
              later in
          let handled : Done kernel iter ncpus percpu pvd c
              (clear_pages kernel iter handle pvd fuel (handle p locked)) =
            subst
              (λ x. Done kernel iter ncpus percpu pvd c (clear_pages kernel iter handle pvd fuel x))
              (sym (
                law p locked (
                  subst Good {x = (pages_of c p).buffer_id} {y = (pages_of locked p).buffer_id}
                    (ground arith) good)))
              is_done in
          subst (λ x. Done kernel iter ncpus percpu pvd c (after x))
            (sym (
              trylock-taken (pages_of c0) p (ground (arith, t.used))
                (ground (arith, a.unlocked k i p e))))
            handled

  -- Where no device page is locked, all have a buffer id of BI_NONE, BI_CLEAN or BI_DIRTY and are
  -- on a list that the fuel exceeds, and trees, queues and free lists agree: the loop of
  -- raw_release returns; a lookup then finds no page of the device, each of its pages is free,
  -- every other page and every entry of other devices is as it was, and trees, queues and free
  -- lists agree again.
  pub raw_release_pages-Done :
      (pvd fuel : ℕ) (ps : List ℕ) (c : Cache R)
      → 0 < kernel.num_online_cpus
      → AreClearable kernel iter ncpus percpu (λ id. id ≤ bi_dirty) pvd ps c
      → length ps < fuel
      → Done kernel iter ncpus percpu pvd c (raw_release_pages kernel iter pvd fuel c)
  unfolding raw_release_pages
  raw_release_pages-Done pvd fuel ps c n a f =
      clear_pages-Done release_page (λ id. id ≤ bi_dirty) pvd fuel ps c (λ p c h. refl) n a f
