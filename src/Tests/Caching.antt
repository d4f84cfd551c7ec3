-- ===== src/Tests/Caching.antt =====
-- Faults and purges on a cache of one page, on a machine of one CPU.
use fast_map.Common.{ℕ, ◌≡◌, refl, false, ◌==◌, if◌then◌else◌, [], ◌∷◌, some, arith, count}
use fast_map.TaggedPage.{bi_clean, each_rmap, reset_rmap}
use fast_map.TaggedPage.Mapping.{
  pvr_is_valid, pvr_set_idx, pvr_set_cpu, pvr_set_vma, pvr_set_vaddr, pvr_mk_invalid,
}
use fast_map.Buffer.{init_params}
use fast_map.Cache.{Cache, pages_of, fmap_radix_lookup}
use fast_map.Cache.Purge.{try_purge_pages_fast}
use fast_map.Cache.Purge.Spaces.{AreSpaces}
use fast_map.Cache.Purge.Purged.{Purged, try_purge_pages_fast-Purged}
use fast_map.Cache.Getpage.{
  VmFault, Others, looked_up, Answer, efault, null_page, too_many_pages, rmaps_full, etlb_full,
  retrying, vm_fault_locked, dev_pgs, find_page, perma_getpage,
}
use fast_map.Cache.Getpage.Stale.{with_lock, with_rmap, perma_getpage-stale}
use fast_map.Cache.Steps.{IsNew, initial, Reached, made, faulted, one_page_per_offset}
use fast_map.Fault.Rmaps.{dmap_add_or_update_rmap, find_slot, map_entry}
use fast_map.Cache.Getpage.Found.{AreFair}
use fast_map.Cache.Getpage.Answered.{Answered, perma_getpage-Answered, perma_getpage-null}
use fast_map.Cache.Getpage.Completes.{quiet}
use fast_map.Cache.Getpage.Progress.{is_stuck, perma_getpage-returns}
use fast_map.Tests.{blank, no_rmap}
use fast_map.Tests.Machine.{
  Entries, entries_insert, machine, machine-IsServed, cached_page, full, full-IsCached,
}

-- A fault at page 40 of the device; the vma is at 2^20.
abbrev fault : VmFault
fault = record {
  address = 1048576;
  pgoff = 40;
  vm_start = 1048576;
  vm_end = 2097152;
  vma = 4096;
  pvd = 1;
  cpu = 0;
}

quiet-AreFair : AreFair machine 1 1 fault quiet
quiet-AreFair = record {
  agree = λ w n c v. v;
  keep_fresh = λ n c p v f. f;
  keep_entry = λ n c p v e. e;
}

try_purge_pages_fast-Purged_example :
    Purged machine 1 1 3 full (try_purge_pages_fast machine 3 full)
try_purge_pages_fast-Purged_example = try_purge_pages_fast-Purged machine 1 1 3 full full-IsCached

full-pages : dev_pgs (full.backing 1) ≡ 1000
unfolding dev_pgs
full-pages = refl

perma_getpage-Answered_example :
    Answered machine 1 1 fault
      (find_page machine quiet fault (λ i. 35) 2 full)
      (perma_getpage machine quiet (λ i. 0) fault (λ i. 35) 2 full)
perma_getpage-Answered_example =
    perma_getpage-Answered machine 1 1 quiet (λ i. 0) fault (λ i. 35) 2 full quiet-AreFair
      machine-IsServed full-IsCached (omega (arith, full-pages)) (omega (arith, full-pages))

perma_getpage-null_example :
    perma_getpage machine quiet (λ i. 0) (record fault { pgoff = 1005 }) (λ i. 35) 2 full
    ≡ null_page
perma_getpage-null_example =
    perma_getpage-null machine 1 1 quiet (λ i. 0) (record fault { pgoff = 1005 }) (λ i. 35) 2 full
      refl (omega (arith, full-pages)) (omega (arith, full-pages)) (omega arith)

full-AreSpaces : AreSpaces machine 1 1 3 [] full
unfolding pvr_is_valid
full-AreSpaces p b i a = ground (arith, b)

perma_getpage-returns_example :
    is_stuck (perma_getpage machine quiet (λ i. 0) fault (λ i. 35) 2 full) ≡ false
unfolding fmap_radix_lookup
perma_getpage-returns_example =
    perma_getpage-returns machine 1 1 (λ i. 0) fault (λ i. 35) 0 full [] [] 0 [] machine-IsServed
      full-IsCached refl refl (omega arith) refl (λ e. ground (arith, e)) full-AreSpaces
      (omega arith)

-- Between the lookup and the lock, page 0 is given to page 99 of device 2.
abbrev reuse : Others Entries
reuse looked_up n c = record full {
  page_map = record full.page_map {
    pages = λ p.
        if p == 0
        then record cached_page { pvd = 2; index = 99 }
        else record (blank 0) { in_use = 0 };
  };
}
reuse w n c = c

unfolded_map :
    dmap_add_or_update_rmap 4096 1048576 0 cached_page.rmap
    ≡ some (no_rmap ∷ no_rmap ∷ map_entry 4096 1048576 2 0 no_rmap ∷ [])
unfolding dmap_add_or_update_rmap find_slot map_entry pvr_is_valid
unfolded_map = refl

perma_getpage-stale_example :
    perma_getpage machine reuse (λ i. 0) (record fault { pgoff = 3 }) (λ i. 35) 1 full
    ≡ vm_fault_locked 0 (
        with_rmap machine
          (with_lock machine (reuse looked_up 0 full) 0)
          0
          (no_rmap ∷ no_rmap ∷ map_entry 4096 1048576 2 0 no_rmap ∷ []))
unfolding fmap_radix_lookup
perma_getpage-stale_example =
    perma_getpage-stale machine reuse (λ i. 0) (record fault { pgoff = 3 }) (λ i. 35) 0 full
      (reuse looked_up 0 full) 0 (no_rmap ∷ no_rmap ∷ map_entry 4096 1048576 2 0 no_rmap ∷ []) refl
      (omega (arith, full-pages)) (omega (arith, full-pages)) refl refl refl refl refl unfolded_map

-- A new cache of one page.
abbrev fresh : Cache Entries
fresh = record full {
  clean = λ q. record { buffer = []; max_size = 0; size = 0 };
  page_map = record {
    fl = λ cpu. if cpu == 0 then 0 ∷ [] else [];
    pages = λ p. record (blank 0) { in_use = 0 };
    total_num_pages = 1;
  };
  rdx = λ d k. [];
}

fresh-IsNew : IsNew machine 1 1 fresh
fresh-IsNew = record {
  homed = record { listed = λ c p. ground arith; home = λ c p o u. ground (arith, o, u) };
  unused = λ p. refl;
  unlocked = λ p. refl;
  unqueued = λ p. refl;
  no_entries = λ d k i. refl;
}

-- The cache after the fault.
abbrev answered : Answer Entries → Cache Entries
answered (vm_fault_locked p c) = c
answered (efault) = full
answered (null_page) = full
answered (too_many_pages) = full
answered (rmaps_full p) = full
answered (etlb_full qid c) = c
answered (retrying c) = c

abbrev faulted_cache : Cache Entries
faulted_cache =
    answered
      (perma_getpage machine quiet (λ i. 0) fault (λ i. 35) 1 (initial machine 1 1 1 1 fresh))

faulted_cache-filled :
    perma_getpage machine quiet (λ i. 0) fault (λ i. 35) 1 (initial machine 1 1 1 1 fresh)
    ≡ vm_fault_locked 0 faulted_cache
unfolding perma_getpage entries_insert init_params each_rmap pvr_is_valid reset_rmap pvr_set_idx
    pvr_set_cpu pvr_set_vma pvr_set_vaddr pvr_mk_invalid
faulted_cache-filled = refl

faulted_cache-queued : (pages_of faulted_cache 0).buffer_id ≡ bi_clean
unfolding perma_getpage entries_insert init_params each_rmap pvr_is_valid reset_rmap pvr_set_idx
    pvr_set_cpu pvr_set_vma pvr_set_vaddr pvr_mk_invalid
faulted_cache-queued = refl

faulted_cache-Reached : Reached machine 1 1 faulted_cache
unfolding init_params
faulted_cache-Reached =
    faulted quiet (λ i. 0) fault (λ i. 35) 1 (initial machine 1 1 1 1 fresh) 0 faulted_cache
      quiet-AreFair (made 1 1 fresh fresh-IsNew (omega arith)) (omega (arith, full-pages))
      (omega (arith, full-pages)) faulted_cache-filled

one_page_per_offset_example :
    let p : ℕ = 0 in
    (p ≡ p)
    × ((pages_of faulted_cache 0).in_use ≡ 1)
    × (fmap_radix_lookup machine faulted_cache
          (pages_of faulted_cache 0).pvd
          (pages_of faulted_cache 0).index
        ≡ some 0)
    × ((cpu : ℕ) → count 0 (faulted_cache.page_map.fl cpu) ≡ 0)
one_page_per_offset_example =
    one_page_per_offset machine 1 1 faulted_cache 0 0 machine-IsServed faulted_cache-Reached
      (λ e. ground (arith, e, faulted_cache-queued)) (λ e. ground (arith, e, faulted_cache-queued))
      refl refl
