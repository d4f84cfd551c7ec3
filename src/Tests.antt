-- ===== src/Tests.antt =====
-- The theorems applied to concrete buffers, pages, trees and requests.
mod Queues
mod Trees
mod Pages
mod Requests
mod Frames
mod Faults
mod Flushes
mod Devices
mod Rounds
mod Bindings
mod Evictions
mod Machine
mod Caching
mod Clearing
use fast_map.Common.{ℕ, Bool, true, false, List, [], ◌∷◌}
use fast_map.TaggedPage.{TaggedPage, bi_none}
use fast_map.TaggedPage.Mapping.{Rmap}

abbrev pub no_rmap : Rmap
no_rmap = record { vma = 0; vaddr = 0 }

-- A page in use with the given index, unlocked and in no queue.
abbrev pub blank : ℕ → TaggedPage
blank index = record {
  rmap = no_rmap ∷ no_rmap ∷ no_rmap ∷ [];
  page = 1;
  index = index;
  locked = false;
  page_dirty = false;
  reserved = true;
  pvd = 1;
  page_valid = 0;
  is_dirty = 0;
  buffer_id = bi_none;
  in_use = 1;
  priority = 0;
  cpuid = 0;
}
