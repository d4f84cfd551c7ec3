-- ===== src/TaggedPage/Mapping/Sequences.antt =====
-- The reverse mapping after the sequences of setters that unmap and that map an entry.
use fast_map.Common.{ℕ, ◌%◌, ◌^◌, ◌<◌, ◌≡◌, true, false, arith, refl}
use fast_map.TaggedPage.Mapping.{
  Rmap, pvr_mk_valid, pvr_mk_invalid, pvr_set_cpu, pvr_set_idx, pvr_set_vaddr, pvr_set_vma,
}
use fast_map.TaggedPage.Mapping.Fields.{
  View, view, IsWord, set_cpu_lem, set_idx_lem, set_vaddr_lem, set_vma_lem, mk_valid_lem,
  mk_invalid_lem, set_cpu-view, set_idx-view, set_vaddr-view, set_vma-view, mk_valid-view,
  mk_invalid-view,
}

-- Setting and clearing keep both words below 2^64.
mk_invalid-IsWord : (p : Rmap) → IsWord p → IsWord (pvr_mk_invalid p)
mk_invalid-IsWord p w = rw (mk_invalid_lem p w) (omega arith)

set_vaddr-IsWord :
    (p : Rmap) (v : ℕ) → IsWord p → v < 2 ^ 64 → v % 4096 ≡ 0 → IsWord (pvr_set_vaddr p v)
set_vaddr-IsWord p v w b h = rw (set_vaddr_lem p w v h) (omega arith)

set_vma-IsWord : (p : Rmap) (v : ℕ) → IsWord p → v < 2 ^ 64 → v % 2 ≡ 0 → IsWord (pvr_set_vma p v)
set_vma-IsWord p v w b h = rw (set_vma_lem p w v h) (omega arith)

mk_valid-IsWord : (p : Rmap) → IsWord p → IsWord (pvr_mk_valid p)
mk_valid-IsWord p w = rw (mk_valid_lem p w) (omega arith)

set_cpu-IsWord : (p : Rmap) → IsWord p → IsWord (pvr_set_cpu p 0)
set_cpu-IsWord p w = rw (set_cpu_lem p w 0 (omega arith)) (omega arith)

set_idx-IsWord : (p : Rmap) (i : ℕ) → IsWord p → i < 32 → IsWord (pvr_set_idx p i)
set_idx-IsWord p i w h = rw (set_idx_lem p w i h) (omega arith)

-- The bodies of the loops that unmap an entry leave all its fields zero, and its own index.
unfoldable pub unmapped : ℕ → View
unmapped i = record { vma = 0; valid = false; vaddr = 0; idx = i; cpu = 0 }

pub reset-view :
    (p : Rmap) (i : ℕ)
    → IsWord p
    → i < 32
    → view (pvr_set_idx (pvr_set_cpu (pvr_set_vma (pvr_set_vaddr (pvr_mk_invalid p) 0) 0) 0) i)
      ≡ unmapped i
unfolding unmapped
reset-view p i w h =
    let w1 = mk_invalid-IsWord p w in
    let w2 = set_vaddr-IsWord _ 0 w1 (omega arith) (omega arith) in
    let w3 = set_vma-IsWord _ 0 w2 (omega arith) (omega arith) in
    let w4 = set_cpu-IsWord _ w3 in
    rw
      (
        set_idx-view _ i w4 h,
        set_cpu-view _ 0 w3 (omega arith),
        set_vma-view _ 0 w2 (omega arith) (omega arith),
        set_vaddr-view _ 0 w1 (omega arith) (omega arith),
        mk_invalid-view p w,
      )
      refl

pub clear-view :
    (p : Rmap) (i : ℕ)
    → IsWord p
    → i < 32
    → view (pvr_set_cpu (pvr_set_vma (pvr_set_vaddr (pvr_set_idx (pvr_mk_invalid p) i) 0) 0) 0)
      ≡ unmapped i
unfolding unmapped
clear-view p i w h =
    let w1 = mk_invalid-IsWord p w in
    let w2 = set_idx-IsWord _ i w1 h in
    let w3 = set_vaddr-IsWord _ 0 w2 (omega arith) (omega arith) in
    let w4 = set_vma-IsWord _ 0 w3 (omega arith) (omega arith) in
    rw
      (
        set_cpu-view _ 0 w4 (omega arith),
        set_vma-view _ 0 w3 (omega arith) (omega arith),
        set_vaddr-view _ 0 w2 (omega arith) (omega arith),
        set_idx-view _ i w1 h,
        mk_invalid-view p w,
      )
      refl

-- The setters of a new mapping, in the order of `dmap_add_or_update_rmap`.
pub map-view :
    (p : Rmap) (vma vaddr i cpu : ℕ)
    → IsWord p
    → vma < 2 ^ 64
    → vma % 2 ≡ 0
    → vaddr < 2 ^ 64
    → vaddr % 4096 ≡ 0
    → i < 32
    → cpu < 128
    → view (
        pvr_set_cpu
          (pvr_mk_valid (pvr_set_cpu (pvr_set_vma (pvr_set_vaddr (pvr_set_idx p i) vaddr) vma) 0))
          cpu)
      ≡ record { vma = vma; valid = true; vaddr = vaddr; idx = i; cpu = cpu }
map-view p vma vaddr i cpu w bv ev ba ea hi hc =
    let w1 = set_idx-IsWord p i w hi in
    let w2 = set_vaddr-IsWord _ vaddr w1 ba ea in
    let w3 = set_vma-IsWord _ vma w2 bv ev in
    let w4 = set_cpu-IsWord _ w3 in
    let w5 = mk_valid-IsWord _ w4 in
    rw
      (
        set_cpu-view _ cpu w5 hc,
        mk_valid-view _ w4,
        set_cpu-view _ 0 w3 (omega arith),
        set_vma-view _ vma w2 bv ev,
        set_vaddr-view _ vaddr w1 ba ea,
        set_idx-view p i w hi,
      )
      refl
