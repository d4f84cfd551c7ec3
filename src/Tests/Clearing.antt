-- ===== src/Tests/Clearing.antt =====
-- Releasing a device and removing a file, with a cache of one page.
use fast_map.Common.{◌==◌, if◌then◌else◌, arith, [], ◌∷◌}
use fast_map.TaggedPage.{bi_dirty}
use fast_map.Cache.{Cache}
use fast_map.Cache.Clear.{with_unlink, raw_release_pages, clear_pvd, unlink_pages}
use fast_map.Cache.Drain.{cleanup_params}
use fast_map.Cache.Drain.Emptied.{Ends}
use fast_map.Cache.Drain.Cleaned.{AreEmptied, cleanup_params-Ends}
use fast_map.Cache.Clear.Cleared.{Done}
use fast_map.Cache.Clear.Loop.{raw_release_pages-Done}
use fast_map.Cache.Clear.Files.{clear_file-Done}
use fast_map.Cache.Clear.Dirty.{Kept, unlink_pages-Kept}
use fast_map.Tests.Machine.{Entries, machine, first_entry, cached_page, full, full-IsCached}

raw_release_pages-Done_example :
    Done machine first_entry 1 1 1 full (raw_release_pages machine first_entry 1 2 full)
raw_release_pages-Done_example =
    raw_release_pages-Done machine first_entry 1 1 1 2 (0 ∷ []) full (omega arith)
      (record {
        cached = full-IsCached;
        unlocked = λ k i p e. ground (arith, e);
        known = λ k i p e. ground (arith, e);
        queue = λ k i p e. (ground (arith, e), ground (arith, e));
      })
      (omega arith)

clear_file-Done_example :
    Done machine first_entry 1 1 1 full (clear_pvd machine first_entry 1 2 full)
    × Done machine first_entry 1 1 1
        (with_unlink 1 full)
        (unlink_pages machine first_entry 1 2 full)
clear_file-Done_example =
    clear_file-Done machine first_entry 1 1 1 2 (0 ∷ []) full (omega arith)
      (record {
        cached = full-IsCached;
        unlocked = λ k i p e. ground (arith, e);
        known = λ k i p e. ground (arith, e);
        queue = λ k i p e. (ground (arith, e), ground (arith, e));
      })
      (omega arith)

-- Page 0 is dirty.
abbrev dirty : Cache Entries
dirty = record full {
  clean = λ q. record { buffer = []; max_size = 9; size = 0 };
  dirty = λ q.
      if q == 0
      then record { buffer = 0 ∷ []; max_size = 9; size = 1 }
      else record { buffer = []; max_size = 9; size = 0 };
  page_map = record full.page_map {
    pages = λ p. record cached_page { buffer_id = bi_dirty; is_dirty = 1 };
  };
}

unlink_pages-Kept_example :
    Kept machine first_entry 1 1 1
      (with_unlink 1 dirty)
      (unlink_pages machine first_entry 1 2 dirty)
unlink_pages-Kept_example =
    unlink_pages-Kept machine first_entry 1 1 1 2 (3 ∷ []) dirty (omega arith)
      (record {
        own_tree = λ k i p e. ground (arith, e);
        known = λ k i p e. ground (arith, e);
        same_index = λ k i p e. ground (arith, e);
        ready = λ k i p e. ground (arith, e);
      })
      (omega arith)

cleanup_params-Ends_example :
    Ends machine 1 1 (AreEmptied machine 1 1 0 32 full) (cleanup_params machine 2 full)
cleanup_params-Ends_example =
    cleanup_params-Ends machine 1 1 2 full
      (record { cached = full-IsCached; unlocked = λ q h. ground arith; short = λ j. ground arith })
