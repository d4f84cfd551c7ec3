-- ===== src/Cache/Clear/Files.antt =====
-- The loops of the stacked file system, for a file whose pages are all clean.
use fast_map.Common.{ℕ, ◌<◌, ◌≡◌, List, arith, length}
use fast_map.TaggedPage.{bi_clean}
use fast_map.Cache.{Cache, Kernel, pages_of, fmap_radix_lookup}
use fast_map.Cache.Clear.{
  RadixIter, release_page, clear_page, unlink_page, clear_pvd, unlink_pages, with_unlink,
}
use fast_map.Cache.Clear.Cleared.{AreClearable, Done}
use fast_map.Cache.Clear.Loop.{clear_pages-Done}

clear_page-release_page :
    {R : Type 0} (p : ℕ) (c : Cache R)
    → (pages_of c p).buffer_id ≡ bi_clean
    → clear_page p c ≡ release_page p c
unfolding clear_page release_page
clear_page-release_page p c h = ground (arith, h)

unlink_page-release_page :
    {R : Type 0} (p : ℕ) (c : Cache R)
    → (pages_of c p).buffer_id ≡ bi_clean
    → unlink_page p c ≡ release_page p c
unfolding unlink_page release_page
unlink_page-release_page p c h = ground (arith, h)

module _ {R : Type 0} (kernel : Kernel R) (iter : RadixIter kernel.radix) (ncpus percpu : ℕ) where
  with_unlink-AreClearable :
      (Good : ℕ → Type 0) (pvd : ℕ) (ps : List ℕ) (c : Cache R)
      → AreClearable kernel iter ncpus percpu Good pvd ps c
      → AreClearable kernel iter ncpus percpu Good pvd ps (with_unlink pvd c)
  unfolding fmap_radix_lookup
  with_unlink-AreClearable Good pvd ps c a = record {
    cached = record {
      homed = a.cached.homed;
      owned = a.cached.owned;
      unlocked = a.cached.unlocked;
      placed = a.cached.placed;
      in_tree = a.cached.in_tree;
      queued = a.cached.queued;
    };
    unlocked = a.unlocked;
    known = a.known;
    queue = a.queue;
  }

  -- Where no page of a file is locked, all are in clean queues and on a list that the fuel exceeds,
  -- and trees, queues and free lists agree: the loops of __clear_pvd and of wrapfs_unlink return; a
  -- lookup then finds no page of the file, each of its pages is free, every other page and every
  -- entry of other files is as it was, and trees, queues and free lists agree again.
  pub clear_file-Done :
      (pvd fuel : ℕ) (ps : List ℕ) (c : Cache R)
      → 0 < kernel.num_online_cpus
      → AreClearable kernel iter ncpus percpu (λ id. id ≡ bi_clean) pvd ps c
      → length ps < fuel
      → Done kernel iter ncpus percpu pvd c (clear_pvd kernel iter pvd fuel c)
        × Done kernel iter ncpus percpu pvd
            (with_unlink pvd c)
            (unlink_pages kernel iter pvd fuel c)
  unfolding clear_pvd unlink_pages
  clear_file-Done pvd fuel ps c n a f = (
    clear_pages-Done kernel iter ncpus percpu clear_page (λ id. id ≡ bi_clean) pvd fuel ps c
        clear_page-release_page n a f,
    clear_pages-Done kernel iter ncpus percpu unlink_page (λ id. id ≡ bi_clean) pvd fuel ps
        (with_unlink pvd c) unlink_page-release_page n
        (with_unlink-AreClearable (λ id. id ≡ bi_clean) pvd ps c a) f,
  )
