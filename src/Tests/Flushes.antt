-- ===== src/Tests/Flushes.antt =====
-- The address ranges for the TLB flush: two pages of one vma, one of another. The arrays that can be
-- full: the etlb of a purge, and the heap of the write-back.
use fast_map.Common.{
  ℕ, zero, suc, ◌+◌, ◌*◌, ◌≡◌, ◌≢◌, refl, Bool, true, false, List, [], ◌∷◌, Option, none, some,
  arith, replicate,
}
use fast_map.TaggedPage.Mapping.{Rmap, pvr_is_valid, pvr_get_vma, pvr_get_vaddr}
use fast_map.Buffer.Etlb.{EtlbEntry, no_entry, etlb_record_all, range, extremes}
use fast_map.Cache.Purge.{etlb_entries, remove_mappings}
use fast_map.Write.Heap.{MinHeap, max_cpus, min_heap_create, min_heap_insert}
use fast_map.Buffer.Etlb.Ranges.{etlb_record_all-extremes}

abbrev records : List (ℕ × ℕ)
records = (7, 4096) ∷ (9, 40960) ∷ (7, 8192) ∷ []

etlb_record_all-extremes_example :
    (etlb : List EtlbEntry) × (etlb_record_all records (replicate 16 no_entry) ≡ some etlb)
    × ((v : ℕ) → v ≢ 0 → range v etlb ≡ extremes v records none)
etlb_record_all-extremes_example = etlb_record_all-extremes 16 records (omega arith)

-- Valid mappings of `n` vmas, each in an address space of its own.
abbrev mapped : ℕ → List Rmap
mapped zero = []
mapped (suc n) = record { vma = 2 * n + 3; vaddr = 4096 } ∷ mapped n

abbrev is_within : Option (List EtlbEntry) → Bool
is_within none = false
is_within (some es) = true

abbrev empty_etlb : Option (List EtlbEntry)
empty_etlb = some (replicate etlb_entries no_entry)

sixteen_spaces : is_within (remove_mappings (λ vma. vma) (mapped 16) empty_etlb).1 ≡ true
unfolding remove_mappings pvr_is_valid pvr_get_vma pvr_get_vaddr
sixteen_spaces = refl

seventeen_spaces : is_within (remove_mappings (λ vma. vma) (mapped 17) empty_etlb).1 ≡ false
unfolding remove_mappings pvr_is_valid pvr_get_vma pvr_get_vaddr
seventeen_spaces = refl

-- The heap after `n` insertions.
abbrev insertions : ℕ → Option MinHeap
insertions zero = some min_heap_create
insertions (suc n) = elim (insertions n) [ none ↦ none | some mh ↦ min_heap_insert mh n n n ]

abbrev is_heap : Option MinHeap → Bool
is_heap none = false
is_heap (some mh) = true

heap_of_64 : is_heap (insertions max_cpus) ≡ true
unfolding min_heap_create min_heap_insert
heap_of_64 = refl

heap_of_65 : is_heap (insertions (suc max_cpus)) ≡ false
unfolding min_heap_create min_heap_insert
heap_of_65 = refl
