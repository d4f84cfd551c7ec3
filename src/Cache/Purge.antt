-- ===== src/Cache/Purge.antt =====
-- `try_purge_pages_fast` of driver/mmap_generational_fifo_buffer.c: clean pages leave a queue, the
-- radix trees and the page tables, and go back to the free lists. It runs as one step.
pub mod Rounds
pub mod Detached
pub mod Room
pub mod Spaces
pub mod Purged
pub mod Reached
use fast_map.Common.{
  ℕ, zero, suc, Bool, false, ◌==◌, if◌then◌else◌, List, [], ◌∷◌, ◌++◌, Option, none, some, length,
  replicate,
}
use fast_map.TaggedPage.{trylock_tp, ulong_max}
use fast_map.TaggedPage.Mapping.{Rmap, pvr_is_valid, pvr_mk_invalid, pvr_get_vma, pvr_get_vaddr}
use fast_map.Fifo.{Pages, update}
use fast_map.Fifo.Lp
use fast_map.Buffer.{set_queue}
use fast_map.Buffer.Etlb.{EtlbEntry, no_entry, etlb_record}
use fast_map.PageMap.{PageMap, free_page_lock}
use fast_map.Write.Flush.{is_taken}
use fast_map.Cache.{Backing, Cache, Kernel, pages_of, with_pages, radix_delete_page}

abbrev pub etlb_entries : ℕ
etlb_entries = 16

-- The value that the function gives its parameter `N`, and the length of `pgs`.
abbrev pub purge_rounds : ℕ
purge_rounds = 192

-- `etlb` is `none` once the code has written outside the array.
abbrev record_mapping : ℕ → ℕ → Option (List EtlbEntry) → Option (List EtlbEntry)
record_mapping vm_mm vaddr none = none
record_mapping vm_mm vaddr (some etlb) = etlb_record vm_mm vaddr etlb

-- The loop over the rmaps of a page, with an etlb: the valid ones are noted and made invalid. The
-- page table entry and the list of the vma are the kernel's.
unfoldable pub remove_mappings :
    (ℕ → ℕ) → List Rmap → Option (List EtlbEntry) → List Rmap × Option (List EtlbEntry)
unfolding etlb_record
remove_mappings vm_mm [] etlb = ([], etlb)
remove_mappings vm_mm (pvr ∷ rest) etlb =
    let noted = record_mapping (vm_mm (pvr_get_vma pvr)) (pvr_get_vaddr pvr) etlb in
    let (skipped, etlb') = remove_mappings vm_mm rest etlb in
    let (removed, etlb'') = remove_mappings vm_mm rest noted in
    if pvr_is_valid pvr then (pvr_mk_invalid pvr ∷ removed, etlb'') else (pvr ∷ skipped, etlb')

-- The condition of `dequeue_if`; it leaves the page that it accepts locked.
unfoldable pub deq : (ℕ → Backing) → Pages → ℕ → Bool × Pages
unfolding trylock_tp
deq backing m p =
    let (r, t) = trylock_tp (m p) ulong_max in
    if (backing (m p).pvd).during_unlink == 1 then (false, m) else (is_taken r, update m p t)

-- The local variables of the loop with the cache: `etlb` and `pgs[0..num_pgs)`.
pub record Purge (R : Type 0) : Type 0 where
  pub cache : Cache R
  pub etlb : Option (List EtlbEntry)
  pub pgs : List ℕ

-- `for(i = 0; i < num_pgs; ++i)`: the pages are unlocked and go back to the free lists.
unfoldable pub free_pages : List ℕ → PageMap → PageMap
unfolding free_page_lock
free_pages [] pm = pm
free_pages (p ∷ ps) pm = free_pages ps (free_page_lock pm p)

module _ {R : Type 0} where
  -- What the loop does with the page that it took off the queue.
  unfoldable pub detach : Kernel R → ℕ → Purge R → Purge R
  unfolding radix_delete_page remove_mappings
  detach kernel p s =
      let c = radix_delete_page kernel s.cache p in
      let t = pages_of c p in
      let (rmap, etlb) = remove_mappings kernel.vm_mm t.rmap s.etlb in
      record {
        cache = with_pages c (update (pages_of c) p (record t { rmap = rmap }));
        etlb = etlb;
        pgs = s.pgs ++ p ∷ [];
      }

  unfoldable pub purge_round : Kernel R → ℕ → Purge R → Purge R
  unfolding Lp.dequeue_if deq detach
  purge_round kernel qid s =
      let c = s.cache in
      let (got, f, m) = Lp.dequeue_if (deq c.backing) (c.clean qid) (pages_of c) in
      let s' = record s { cache = record (with_pages c m) { clean = set_queue c.clean qid f } } in
      elim got [ none ↦ s' | some p ↦ detach kernel p s' ]

  -- `for(i = 0; i < N; ++i)`, with `n` rounds left.
  unfoldable pub purge : Kernel R → ℕ → ℕ → Purge R → Purge R
  unfolding purge_round
  purge kernel qid zero s = s
  purge kernel qid (suc n) s = purge kernel qid n (purge_round kernel qid s)

  abbrev pub no_purge : Cache R → Purge R
  no_purge c = record { cache = c; etlb = some (replicate etlb_entries no_entry); pgs = [] }

  -- The number of pages and the cache afterwards; `none` where the code has written to etlb[-1], since
  -- the check for a free entry is compiled out.
  unfoldable pub try_purge_pages_fast : Kernel R → ℕ → Cache R → Option (ℕ × Cache R)
  unfolding purge free_pages
  try_purge_pages_fast kernel qid c =
      let s = purge kernel qid purge_rounds (no_purge c) in
      elim s.etlb [
        | none ↦ none
        | some etlb ↦
            some (length s.pgs, record s.cache { page_map = free_pages s.pgs s.cache.page_map })
      ]
