-- ===== src/Cache/Clear.antt =====
-- The loops that take all pages of a device or file out of the cache: in raw_release of driver/main.c,
-- in __clear_pvd of driver/dmapfs_file.c and in wrapfs_unlink of driver/dmapfs_inode.c. A loop runs
-- alone; where another thread holds the lock of a page it waits, which is no result.
pub mod Removed
pub mod Round
pub mod Cleared
pub mod Loop
pub mod Files
pub mod Dirty
use fast_map.Common.{
  ℕ, zero, suc, ◌+◌, ◌%◌, ◌≡◌, true, false, ◌==◌, if◌then◌else◌, Option, none, some,
}
use fast_map.TaggedPage.{bi_clean, bi_dirty, trylock_tp, unlock_tp, ulong_max}
use fast_map.Fifo.{update}
use fast_map.Fifo.Lp
use fast_map.Fifo.D
use fast_map.Buffer.{set_queue, clean_id, dirty_id}
use fast_map.PageMap.{free_page_lock}
use fast_map.Write.Flush.{is_taken}
use fast_map.Cache.{RadixLib, Cache, Kernel, pages_of, with_pages, set_rdx}

-- The first entry of a tree, as `radix_tree_for_each_slot` from 0 on and its `break` find it.
pub record RadixIter {R : Type 0} (radix : RadixLib R) : Type 0 where
  pub first : R → Option (ℕ × ℕ)
  pub first-some : (t : R) (i p : ℕ) → first t ≡ some (i, p) → radix.radix_tree_lookup t i ≡ some p
  pub first-none : (t : R) (i : ℕ) → first t ≡ none → radix.radix_tree_lookup t i ≡ none

module _ {R : Type 0} where
  -- `lpfifo_ops->remove` from the queue of the page's index.
  unfoldable pub remove_clean : ℕ → Cache R → Cache R
  unfolding Lp.remove
  remove_clean p c =
      let id = clean_id (pages_of c p) in
      let (f, m) = Lp.remove (c.clean id) (pages_of c) p in
      record (with_pages c m) { clean = set_queue c.clean id f }

  -- `dfifo_ops->remove`, as raw_release has it.
  unfoldable pub remove_dirty : ℕ → Cache R → Cache R
  unfolding D.remove
  remove_dirty p c =
      let id = dirty_id (pages_of c p) in
      let (f, m) = D.remove (c.dirty id) (pages_of c) p in
      record (with_pages c m) { dirty = set_queue c.dirty id f }

  -- `atomic64_set(&pvd->during_unlink, 1)`
  abbrev pub with_unlink : ℕ → Cache R → Cache R
  with_unlink pvd c = record c {
    backing = λ d. if d == pvd then record (c.backing d) { during_unlink = 1 } else c.backing d;
  }

  abbrev pub free_page : ℕ → Cache R → Cache R
  free_page p c = record c { page_map = free_page_lock c.page_map p }

  -- What each loop does with a page that it has locked.
  unfoldable pub release_page : ℕ → Cache R → Cache R
  unfolding remove_clean remove_dirty
  release_page p c =
      let id = (pages_of c p).buffer_id in
      free_page p (
        if id == bi_clean
        then remove_clean p c
        else (if id == bi_dirty then remove_dirty p c else c))

  -- The page is taken to be in a clean queue; `list_del` of another is not described by this.
  unfoldable pub clear_page : ℕ → Cache R → Cache R
  unfolding remove_clean
  clear_page p c = free_page p (remove_clean p c)

  unfoldable pub unlink_page : ℕ → Cache R → Cache R
  unfolding remove_clean unlock_tp
  unlink_page p c =
      if (pages_of c p).buffer_id == bi_clean
      then free_page p (remove_clean p c)
      else with_pages c (update (pages_of c) p (unlock_tp (pages_of c p)))

module _ {R : Type 0} (kernel : Kernel R) (iter : RadixIter kernel.radix) where
  -- `for(cpu = 0; cpu < num_online_cpus(); cpu++)`, with `n` CPUs left: the first entry of the first
  -- tree that has one is deleted.
  unfoldable pub pop_page : ℕ → ℕ → ℕ → Cache R → Option (ℕ × Cache R)
  pop_page pvd cpu zero c = none
  pop_page pvd cpu (suc n) c = elim (iter.first (c.rdx pvd cpu)) [
    | none ↦ pop_page pvd (suc cpu) n c
    | some (i, p) ↦ some (
      p,
      record c { rdx = set_rdx c.rdx pvd cpu (kernel.radix.radix_tree_delete (c.rdx pvd cpu) i) },
    )
  ]

  -- `while(true)`, with at most `fuel` rounds; `none` where they are not enough or the loop waits for
  -- the lock of a page.
  unfoldable pub clear_pages : (ℕ → Cache R → Cache R) → ℕ → ℕ → Cache R → Option (Cache R)
  unfolding pop_page trylock_tp
  clear_pages handle pvd zero c = none
  clear_pages handle pvd (suc fuel) c = elim (pop_page pvd 0 kernel.num_online_cpus c) [
    | none ↦ some c
    | some (p, c') ↦
        let (r, t) = trylock_tp (pages_of c' p) ulong_max in
        elim (is_taken r) [
          | true ↦ clear_pages handle pvd fuel (handle p (with_pages c' (update (pages_of c') p t)))
          | false ↦ none
        ]
  ]

  -- In raw_release, after `write_dirty_pages`.
  unfoldable pub raw_release_pages : ℕ → ℕ → Cache R → Option (Cache R)
  unfolding release_page clear_pages
  raw_release_pages pvd fuel c = clear_pages release_page pvd fuel c

  unfoldable pub clear_pvd : ℕ → ℕ → Cache R → Option (Cache R)
  unfolding clear_page clear_pages
  clear_pvd pvd fuel c = clear_pages clear_page pvd fuel c

  -- In wrapfs_unlink, after the `pvd` was taken out of the inode cache.
  unfoldable pub unlink_pages : ℕ → ℕ → Cache R → Option (Cache R)
  unfolding unlink_page clear_pages
  unlink_pages pvd fuel c = clear_pages unlink_page pvd fuel (with_unlink pvd c)
