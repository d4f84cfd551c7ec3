-- ===== src/Buffer/Etlb.antt =====
-- `struct evictor_tlb`: the ranges that `clear_mappings` and `remove_mappings` of
-- driver/mmap_generational_fifo_buffer.c gather for the TLB flush, one entry for each vma. A vma is
-- its address, 0 where the entry is free.
pub mod Ranges
use fast_map.Common.{
  ℕ, zero, suc, ◌+◌, ◌-◌, ◌≤◌, ◌<◌, ◌≡◌, ◌≢◌, refl, sym, subst, Bool, true, false, ltb, ◌==◌,
  if◌then◌else◌, List, [], ◌∷◌, Option, none, some, arith, Bool-cases, inl, inr, ◌⊎◌, length,
  replicate,
}

pub record EtlbEntry : Type 0 where
  pub vma : ℕ
  pub start : ℕ
  pub end : ℕ

-- The entries as the loops `for(k = 0; k < ETLB_ENTRIES; k++)` clear them; `end` is UINT_MAX.
abbrev pub no_entry : EtlbEntry
no_entry = record { vma = 0; start = 0; end = 4294967295 }

-- An entry of the vma, after an address of it.
abbrev pub widen : ℕ → EtlbEntry → EtlbEntry
widen vaddr e =
    let start = if ltb e.start vaddr then vaddr else e.start in
    let end = if ltb vaddr e.end then vaddr else e.end in record e { start = start; end = end }

-- The search for the vma; `none` where `done` stays false.
unfoldable pub widen_vma : ℕ → ℕ → List EtlbEntry → Option (List EtlbEntry)
widen_vma vma vaddr [] = none
widen_vma vma vaddr (e ∷ es) =
    let rest : Option (List EtlbEntry) = elim (widen_vma vma vaddr es) [
      | none ↦ none
      | some es' ↦ some (e ∷ es')
    ] in
    if e.vma == vma then some (widen vaddr e ∷ es) else rest

-- The first free entry is taken; `none` where the code writes to entry -1.
unfoldable pub take_entry : ℕ → ℕ → List EtlbEntry → Option (List EtlbEntry)
take_entry vma vaddr [] = none
take_entry vma vaddr (e ∷ es) =
    let rest : Option (List EtlbEntry) = elim (take_entry vma vaddr es) [
      | none ↦ none
      | some es' ↦ some (e ∷ es')
    ] in
    if e.vma == 0 then some (record { vma = vma; start = vaddr; end = vaddr } ∷ es) else rest

-- The update for one reverse mapping.
unfoldable pub etlb_record : ℕ → ℕ → List EtlbEntry → Option (List EtlbEntry)
unfolding widen_vma take_entry
etlb_record vma vaddr etlb = elim (widen_vma vma vaddr etlb) [
  | none ↦ take_entry vma vaddr etlb
  | some etlb' ↦ some etlb'
]

-- The updates for the reverse mappings of the pages, in order.
unfoldable pub etlb_record_all : List (ℕ × ℕ) → List EtlbEntry → Option (List EtlbEntry)
unfolding etlb_record
etlb_record_all [] etlb = some etlb
etlb_record_all ((vma, vaddr) ∷ rs) etlb = elim (etlb_record vma vaddr etlb) [
  | none ↦ none
  | some etlb' ↦ etlb_record_all rs etlb'
]

-- `start` and `end` of the entry of a vma.
abbrev pub range : ℕ → List EtlbEntry → Option (ℕ × ℕ)
range vma [] = none
range vma (e ∷ es) = if e.vma == vma then some (e.start, e.end) else range vma es

abbrev pub free_entries : List EtlbEntry → ℕ
free_entries [] = 0
free_entries (e ∷ es) = (if e.vma == 0 then 1 else 0) + free_entries es

-- The largest and the least address of a vma, over what is known of it.
abbrev pub extend : ℕ → Option (ℕ × ℕ) → Option (ℕ × ℕ)
extend vaddr none = some (vaddr, vaddr)
extend vaddr (some (high, low)) =
    some (if ltb high vaddr then vaddr else high, if ltb vaddr low then vaddr else low)

abbrev pub extremes : ℕ → List (ℕ × ℕ) → Option (ℕ × ℕ) → Option (ℕ × ℕ)
extremes vma [] known = known
extremes vma ((v, vaddr) ∷ rs) known =
    extremes vma rs (if v == vma then extend vaddr known else known)
