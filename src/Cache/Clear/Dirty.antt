-- ===== src/Cache/Clear/Dirty.antt =====
-- Dirty pages of a file that is removed.
use fast_map.Common.{
  ℕ, zero, suc, ◌+◌, ◌%◌, ◌<◌, ◌≤◌, ◌≡◌, ◌≢◌, refl, sym, ◌∙◌, subst, true, false, ◌==◌, List,
  Option, none, some, arith, Bool-cases, inl, inr, count, erase, count-erase_ne, length,
  length-erase,
}
use fast_map.TaggedPage.{TaggedPage, TryLock, bi_clean, bi_dirty, trylock_tp, unlock_tp, ulong_max}
use fast_map.Fifo.{update}
use fast_map.Fifo.Lp
use fast_map.PageMap.{free_page_lock}
use fast_map.Write.Flush.{is_taken}
use fast_map.Cache.{Cache, Kernel, pages_of, with_pages, fmap_radix_lookup}
use fast_map.Cache.Cached.{at}
use fast_map.Cache.Clear.{
  RadixIter, remove_clean, free_page, pop_page, clear_pages, unlink_page, unlink_pages, with_unlink,
}
use fast_map.Cache.Clear.Cleared.{popped, Popped, nothing, page, pop_page-Popped}
use fast_map.Cache.Clear.Loop.{round_after}

module _ {R : Type 0} (kernel : Kernel R) (iter : RadixIter kernel.radix) (ncpus percpu : ℕ) where
  -- The dirty pages of `c` are still dirty and in use in `c'`.
  pub record KeepsDirty (c c' : Cache R) : Type 0 where
    pub queues : (q : ℕ) → c'.dirty q ≡ c.dirty q
    pub pages :
        (p : ℕ)
        → (pages_of c p).buffer_id ≡ bi_dirty
        → ((pages_of c' p).buffer_id ≡ bi_dirty)
          × ((pages_of c' p).in_use ≡ (pages_of c p).in_use)
          × ((pages_of c' p).pvd ≡ (pages_of c p).pvd)
          × ((pages_of c' p).index ≡ (pages_of c p).index)

  unlink_page-KeepsDirty : (p : ℕ) (c : Cache R) → KeepsDirty c (unlink_page p c)
  unfolding unlink_page remove_clean Lp.remove free_page_lock unlock_tp
  unlink_page-KeepsDirty p c = elim (Bool-cases ((pages_of c p).buffer_id == bi_clean)) [
    | inl e ↦
        let same : unlink_page p c ≡ free_page p (remove_clean p c) = ground (arith, e) in
        subst (KeepsDirty c) (sym same)
          (record { queues = λ q. refl; pages = λ q h. ground (arith, h, e) })
    | inr e ↦
        let same : unlink_page p c
            ≡ with_pages c (update (pages_of c) p (unlock_tp (pages_of c p))) =
          ground (arith, e) in
        subst (KeepsDirty c) (sym same)
          (record { queues = λ q. refl; pages = λ q h. ground (arith, h) })
  ]

  -- The loop of wrapfs_unlink returns.
  pub data Kept (pvd : ℕ) (c : Cache R) : Option (Cache R) → Type 0 where
    returns :
        (c' : Cache R)
        → KeepsDirty c c'
        → ((i : ℕ) → fmap_radix_lookup kernel c' pvd i ≡ none)
        → Kept pvd c (some c')

  -- The trees of a file: every entry is in the tree of its CPU, at the index of its page and among the
  -- given offsets, and its page is in use and not locked.
  pub record IsUnlinkable (pvd : ℕ) (offsets : List ℕ) (c : Cache R) : Type 0 where
    pub own_tree :
        (k i p : ℕ) → at kernel ncpus percpu c pvd k i ≡ some p → i % kernel.num_online_cpus ≡ k
    pub known : (k i p : ℕ) → at kernel ncpus percpu c pvd k i ≡ some p → count i offsets ≢ 0
    pub same_index :
        (k i p : ℕ) → at kernel ncpus percpu c pvd k i ≡ some p → (pages_of c p).index ≡ i
    pub ready :
        (k i p : ℕ)
        → at kernel ncpus percpu c pvd k i ≡ some p
        → ((pages_of c p).in_use ≡ 1) × ((pages_of c p).locked ≡ false)

  Kept-later :
      (pvd : ℕ) (c c1 : Cache R) (x : Option (Cache R))
      → KeepsDirty c c1
      → Kept pvd c1 x
      → Kept pvd c x
  Kept-later pvd c c1 x k (returns c' l e) =
      returns c'
        (record {
          queues = λ q. l.queues q ∙ k.queues q;
          pages = λ q h. ground (arith, h, k.pages q h, l.pages q);
        })
        e

  -- The cache after a round that took the page `p` from offset `i` of the tree `k`.
  abbrev locked_page : ℕ → ℕ → ℕ → ℕ → Cache R → Cache R
  locked_page pvd k i p c =
      let c0 = popped kernel iter ncpus percpu pvd k i c in
      with_pages c0 (update (pages_of c0) p (record (pages_of c0 p) { locked = true }))

  locked-KeepsDirty : (pvd k i p : ℕ) (c : Cache R) → KeepsDirty c (locked_page pvd k i p c)
  locked-KeepsDirty pvd k i p c = record { queues = λ q. refl; pages = λ q h. ground (arith, h) }

  unlink_page-rdx : (p : ℕ) (c : Cache R) (d k : ℕ) → (unlink_page p c).rdx d k ≡ c.rdx d k
  unfolding unlink_page remove_clean Lp.remove
  unlink_page-rdx p c d k = ground arith

  unlink_page-other : (p q : ℕ) (c : Cache R) → q ≢ p → pages_of (unlink_page p c) q ≡ pages_of c q
  unfolding unlink_page remove_clean Lp.remove free_page_lock
  unlink_page-other p q c n = ground (arith, n)

  -- What the trees have after the round they had before it, at another offset and with another page.
  round-entry :
      (pvd k i p : ℕ) (offsets : List ℕ) (c : Cache R) (l j q : ℕ)
      → IsUnlinkable pvd offsets c
      → at kernel ncpus percpu c pvd k i ≡ some p
      → at kernel ncpus percpu (unlink_page p (locked_page pvd k i p c)) pvd l j ≡ some q
      → (at kernel ncpus percpu c pvd l j ≡ some q) × (j ≢ i) × (q ≢ p)
  round-entry pvd k i p offsets c l j q u e g =
      let tree = unlink_page-rdx p (locked_page pvd k i p c) pvd l in
      let deleted = kernel.radix.lookup-delete (c.rdx pvd k) i j in
      let old : at kernel ncpus percpu c pvd l j ≡ some q = ground (arith, g, tree, deleted) in
      let other : j ≢ i =
        λ z. ground (arith, z, g, tree, deleted, u.own_tree k i p e, u.own_tree l j q old) in
      (old, other, λ z. ground (arith, z, other, u.same_index k i p e, u.same_index l j q old))

  round-IsUnlinkable :
      (pvd k i p : ℕ) (offsets : List ℕ) (c : Cache R)
      → IsUnlinkable pvd offsets c
      → at kernel ncpus percpu c pvd k i ≡ some p
      → IsUnlinkable pvd (erase i offsets) (unlink_page p (locked_page pvd k i p c))
  round-IsUnlinkable pvd k i p offsets c u e =
      let same = λ (q : ℕ) (n : q ≢ p). unlink_page-other p q (locked_page pvd k i p c) n in
      record {
        own_tree = λ l j q g.
            let (old, a, b) = round-entry pvd k i p offsets c l j q u e g in u.own_tree l j q old;
        known = λ l j q g.
            let (old, a, b) = round-entry pvd k i p offsets c l j q u e g in
            ground (arith, u.known l j q old, count-erase_ne j i offsets a);
        same_index = λ l j q g.
            let (old, a, b) = round-entry pvd k i p offsets c l j q u e g in
            ground (arith, u.same_index l j q old, same q b, b);
        ready = λ l j q g.
            let (old, a, b) = round-entry pvd k i p offsets c l j q u e g in
            ground (arith, u.ready l j q old, same q b, b);
      }

  unlink-Kept :
      (pvd fuel : ℕ) (offsets : List ℕ) (c : Cache R)
      → 0 < kernel.num_online_cpus
      → IsUnlinkable pvd offsets c
      → length offsets < fuel
      → Kept pvd c (clear_pages kernel iter unlink_page pvd fuel c)
  unfolding clear_pages fmap_radix_lookup trylock_tp
  unlink-Kept pvd zero offsets c n u f = absurd (omega (arith, f))
  unlink-Kept pvd (suc fuel) offsets c n u f =
      from (pop_page kernel iter pvd 0 kernel.num_online_cpus c)
        (pop_page-Popped kernel iter ncpus percpu pvd 0 kernel.num_online_cpus c)
        (λ c1 is v g. unlink-Kept pvd fuel is c1 n v g)
    where
      none_left :
          ((k i : ℕ)
            → 0 ≤ k
            → k < 0 + kernel.num_online_cpus
            → at kernel ncpus percpu c pvd k i ≡ none)
          → (i : ℕ) → fmap_radix_lookup kernel c pvd i ≡ none
      none_left h i = h (i % kernel.num_online_cpus) i (omega arith) (omega (arith, n))

      from :
          (x : Option (ℕ × Cache R))
          → Popped kernel iter ncpus percpu pvd 0 kernel.num_online_cpus c x
          → ((c1 : Cache R) (is : List ℕ)
              → IsUnlinkable pvd is c1
              → length is < fuel
              → Kept pvd c1 (clear_pages kernel iter unlink_page pvd fuel c1))
          → Kept pvd c (round_after kernel iter ncpus percpu unlink_page pvd fuel c x)
      from x (nothing h) rest =
          returns c (record { queues = λ q. refl; pages = λ q h. ground (arith, h) }) (none_left h)
      from x (page k i p e) rest =
          let c0 = popped kernel iter ncpus percpu pvd k i c in
          let c1 = locked_page pvd k i p c in
          let later = clear_pages kernel iter unlink_page pvd fuel (unlink_page p c1) in
          let known = u.known k i p e in
          let kept =
            rest (unlink_page p c1) (erase i offsets) (round-IsUnlinkable pvd k i p offsets c u e)
              (omega (arith, f, length-erase i offsets, known)) in
          let taken : trylock_tp (pages_of c0 p) ulong_max
              ≡ (TryLock.taken, record (pages_of c0 p) { locked = true }) =
            ground (arith, u.ready k i p e) in
          let after : TryLock × TaggedPage → Option (Cache R) = λ x. elim (is_taken x.0) [
            | true ↦
                clear_pages kernel iter unlink_page pvd fuel
                  (unlink_page p (with_pages c0 (update (pages_of c0) p x.1)))
            | false ↦ none
          ] in
          subst (λ x. Kept pvd c (after x)) (sym taken)
            (Kept-later pvd c c1 later (locked-KeepsDirty pvd k i p c)
              (Kept-later pvd c1 (unlink_page p c1) later (unlink_page-KeepsDirty p c1) kept))

  -- On at least one CPU, where the fuel exceeds the length of a list of all offsets at which the trees
  -- of the file have entries, every entry is in the tree of its CPU and at the index of its page, and
  -- its page is in use and not locked: the loop of wrapfs_unlink returns; a lookup then finds no page of the file, but every
  -- dirty queue is as it was, and every page that was dirty is still dirty, in use as before and of
  -- the same device and index.
  pub unlink_pages-Kept :
      (pvd fuel : ℕ) (offsets : List ℕ) (c : Cache R)
      → 0 < kernel.num_online_cpus
      → IsUnlinkable pvd offsets c
      → length offsets < fuel
      → Kept pvd (with_unlink pvd c) (unlink_pages kernel iter pvd fuel c)
  unfolding unlink_pages
  unlink_pages-Kept pvd fuel offsets c n u f =
      unlink-Kept pvd fuel offsets (with_unlink pvd c) n
        (record {
          own_tree = u.own_tree;
          known = u.known;
          same_index = u.same_index;
          ready = u.ready;
        })
        f
