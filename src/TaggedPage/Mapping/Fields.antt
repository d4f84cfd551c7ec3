-- ===== src/TaggedPage/Mapping/Fields.antt =====
-- The packed words of a reverse mapping behave as five separate fields.
use fast_map.Common.{
  ℕ, ◌+◌, ◌-◌, ◌*◌, ◌/◌, ◌%◌, ◌^◌, ◌<◌, ◌≡◌, ap, ◌∙◌, Bool, true, false, arith, ◌==◌,
}
use fast_map.Common.Bits.{bit_or_aligned, bit_or-one, bit_and_mask, bit_and_high}
use fast_map.TaggedPage.Mapping.{
  Rmap, lnot, pvr_is_valid, pvr_mk_valid, pvr_mk_invalid, pvr_get_cpu, pvr_set_cpu, pvr_get_idx,
  pvr_set_idx, pvr_get_vaddr, pvr_set_vaddr, pvr_get_vma, pvr_set_vma, rmap_size, pvr_get_owner,
}
use Prim.Native.Nat.{bit_and, bit_or}

-- What the accessors read of a reverse mapping.
pub record View : Type 0 where
  pub vma : ℕ
  pub valid : Bool
  pub vaddr : ℕ
  pub idx : ℕ
  pub cpu : ℕ

unfoldable pub view : Rmap → View
view p = record {
  vma = pvr_get_vma p;
  valid = pvr_is_valid p;
  vaddr = pvr_get_vaddr p;
  idx = pvr_get_idx p;
  cpu = pvr_get_cpu p;
}

-- Both words are unsigned longs.
pub record IsWord (p : Rmap) : Type 0 where
  pub vma_word : p.vma < 2 ^ 64
  pub vaddr_word : p.vaddr < 2 ^ 64

low_1 : (x : ℕ) → bit_and x 0x01 ≡ x % 2
low_1 x = bit_and_mask 1 x

low_7 : (x : ℕ) → bit_and x 0x7F ≡ x % 128
low_7 x = bit_and_mask 7 x

low_12 : (x : ℕ) → bit_and x 0xFFF ≡ x % 4096
low_12 x = bit_and_mask 12 x

mid_5 : (x : ℕ) → bit_and x 0x0F80 ≡ x / 128 % 32 * 128
mid_5 x = omega (arith, bit_and_high 7 x 31, bit_and_mask 5 (x / 128))

high_1 : (x : ℕ) → x < 2 ^ 64 → bit_and x (lnot 0x01) ≡ x / 2 * 2
high_1 x h = omega (arith, bit_and_high 1 x (2 ^ 63 - 1), bit_and_mask 63 (x / 2))

high_7 : (x : ℕ) → x < 2 ^ 64 → bit_and x (lnot 0x7F) ≡ x / 128 * 128
high_7 x h = omega (arith, bit_and_high 7 x (2 ^ 57 - 1), bit_and_mask 57 (x / 128))

high_12 : (x : ℕ) → x < 2 ^ 64 → bit_and x (lnot 0xFFF) ≡ x / 4096 * 4096
high_12 x h = omega (arith, bit_and_high 12 x (2 ^ 52 - 1), bit_and_mask 52 (x / 4096))

-- The accessors in arithmetic.
module _ (p : Rmap) (w : IsWord p) where
  get_cpu_lem : pvr_get_cpu p ≡ p.vaddr % 128
  unfolding pvr_get_cpu
  get_cpu_lem = low_7 p.vaddr

  get_idx_lem : pvr_get_idx p ≡ p.vaddr / 128 % 32
  unfolding pvr_get_idx
  get_idx_lem = omega (arith, mid_5 p.vaddr)

  get_vaddr_lem : pvr_get_vaddr p ≡ p.vaddr / 4096 * 4096
  unfolding pvr_get_vaddr
  get_vaddr_lem = high_12 p.vaddr w.vaddr_word

  get_vma_lem : pvr_get_vma p ≡ p.vma / 2 * 2
  unfolding pvr_get_vma
  get_vma_lem = high_1 p.vma w.vma_word

  is_valid_lem : pvr_is_valid p ≡ (p.vma % 2 == 1)
  unfolding pvr_is_valid
  is_valid_lem = ap (λ (t : ℕ). t == 1) (low_1 p.vma)

  pub set_cpu_lem :
      (cpu : ℕ) → cpu < 128 → pvr_set_cpu p cpu ≡ record p { vaddr = p.vaddr / 128 * 128 + cpu }
  unfolding pvr_set_cpu
  set_cpu_lem cpu h =
      ap (λ (t : ℕ). record p { vaddr = t })
        (ap (λ (t : ℕ). bit_or t cpu) (high_7 p.vaddr w.vaddr_word)
          ∙ bit_or_aligned 7 (p.vaddr / 128 * 128) cpu (omega arith) h)

  pub set_idx_lem :
      (idx : ℕ)
      → idx < 32
      → pvr_set_idx p idx ≡ record p { vaddr = p.vaddr / 4096 * 4096 + idx * 128 + p.vaddr % 128 }
  unfolding pvr_set_idx
  set_idx_lem idx h =
      let small : idx * 2 ^ 7 % 2 ^ 64 ≡ idx * 128 = omega arith in
      let high = p.vaddr / 4096 * 4096 in
      ap (λ (t : ℕ). record p { vaddr = t })
        (rw (low_7 p.vaddr, high_12 p.vaddr w.vaddr_word, small)
          (ap (λ (t : ℕ). bit_or t (p.vaddr % 128))
              (bit_or_aligned 12 high (idx * 128) (omega arith) (omega arith))
            ∙ bit_or_aligned 7 (high + idx * 128) (p.vaddr % 128) (omega arith) (omega arith)))

  pub set_vaddr_lem :
      (v : ℕ) → v % 4096 ≡ 0 → pvr_set_vaddr p v ≡ record p { vaddr = v + p.vaddr % 4096 }
  unfolding pvr_set_vaddr
  set_vaddr_lem v h =
      ap (λ (t : ℕ). record p { vaddr = t })
        (rw (low_12 p.vaddr) (bit_or_aligned 12 v (p.vaddr % 4096) h (omega arith)))

  pub set_vma_lem : (v : ℕ) → v % 2 ≡ 0 → pvr_set_vma p v ≡ record p { vma = v + p.vma % 2 }
  unfolding pvr_set_vma
  set_vma_lem v h =
      ap (λ (t : ℕ). record p { vma = t })
        (rw (low_1 p.vma) (bit_or_aligned 1 v (p.vma % 2) h (omega arith)))

  pub mk_valid_lem : pvr_mk_valid p ≡ record p { vma = p.vma / 2 * 2 + 1 }
  unfolding pvr_mk_valid
  mk_valid_lem = ap (λ (t : ℕ). record p { vma = t }) (bit_or-one p.vma)

  pub mk_invalid_lem : pvr_mk_invalid p ≡ record p { vma = p.vma / 2 * 2 }
  unfolding pvr_mk_invalid
  mk_invalid_lem = ap (λ (t : ℕ). record p { vma = t }) (high_1 p.vma w.vma_word)

-- The view in arithmetic.
abbrev view_of : Rmap → View
view_of p = record {
  vma = p.vma / 2 * 2;
  valid = p.vma % 2 == 1;
  vaddr = p.vaddr / 4096 * 4096;
  idx = p.vaddr / 128 % 32;
  cpu = p.vaddr % 128;
}

view_lem : (p : Rmap) → IsWord p → view p ≡ view_of p
unfolding view
view_lem p w =
    ground (
      arith,
      get_cpu_lem p w,
      get_idx_lem p w,
      get_vaddr_lem p w,
      get_vma_lem p w,
      is_valid_lem p w,
    )

pub set_cpu-view :
    (p : Rmap) (cpu : ℕ)
    → IsWord p
    → cpu < 128
    → view (pvr_set_cpu p cpu) ≡ record (view p) { cpu = cpu }
set_cpu-view p cpu w h =
    rw
      (
        set_cpu_lem p w cpu h,
        view_lem p w,
        view_lem (record p { vaddr = p.vaddr / 128 * 128 + cpu }) (omega arith),
      )
      (ground arith)

pub set_idx-view :
    (p : Rmap) (idx : ℕ)
    → IsWord p
    → idx < 32
    → view (pvr_set_idx p idx) ≡ record (view p) { idx = idx }
set_idx-view p idx w h =
    rw
      (
        set_idx_lem p w idx h,
        view_lem p w,
        view_lem (record p { vaddr = p.vaddr / 4096 * 4096 + idx * 128 + p.vaddr % 128 })
            (omega arith),
      )
      (ground arith)

pub set_vaddr-view :
    (p : Rmap) (v : ℕ)
    → IsWord p
    → v < 2 ^ 64
    → v % 4096 ≡ 0
    → view (pvr_set_vaddr p v) ≡ record (view p) { vaddr = v }
set_vaddr-view p v w b h =
    rw
      (
        set_vaddr_lem p w v h,
        view_lem p w,
        view_lem (record p { vaddr = v + p.vaddr % 4096 }) (omega arith),
      )
      (ground arith)

pub set_vma-view :
    (p : Rmap) (v : ℕ)
    → IsWord p
    → v < 2 ^ 64
    → v % 2 ≡ 0
    → view (pvr_set_vma p v) ≡ record (view p) { vma = v }
set_vma-view p v w b h =
    rw
      (set_vma_lem p w v h, view_lem p w, view_lem (record p { vma = v + p.vma % 2 }) (omega arith))
      (ground arith)

pub mk_valid-view : (p : Rmap) → IsWord p → view (pvr_mk_valid p) ≡ record (view p) { valid = true }
mk_valid-view p w =
    rw
      (
        mk_valid_lem p w,
        view_lem p w,
        view_lem (record p { vma = p.vma / 2 * 2 + 1 }) (omega arith),
      )
      (ground arith)

pub mk_invalid-view :
    (p : Rmap) → IsWord p → view (pvr_mk_invalid p) ≡ record (view p) { valid = false }
mk_invalid-view p w =
    rw (mk_invalid_lem p w, view_lem p w, view_lem (record p { vma = p.vma / 2 * 2 }) (omega arith))
      (ground arith)

-- On two machine words, every setter of a reverse mapping changes the field that it is named for
-- and no other: an even vma, the valid flag, a page-aligned address, an index below 32 and a CPU
-- below 128.
pub setters-view :
    (p : Rmap) (vma vaddr idx cpu : ℕ)
    → IsWord p
    → vma < 2 ^ 64
    → vma % 2 ≡ 0
    → vaddr < 2 ^ 64
    → vaddr % 4096 ≡ 0
    → idx < 32
    → cpu < 128
    → (view (pvr_set_vma p vma) ≡ record (view p) { vma = vma })
      × (view (pvr_mk_valid p) ≡ record (view p) { valid = true })
      × (view (pvr_mk_invalid p) ≡ record (view p) { valid = false })
      × (view (pvr_set_vaddr p vaddr) ≡ record (view p) { vaddr = vaddr })
      × (view (pvr_set_idx p idx) ≡ record (view p) { idx = idx })
      × (view (pvr_set_cpu p cpu) ≡ record (view p) { cpu = cpu })
setters-view p vma vaddr idx cpu w bv ev ba ea hi hc = (
  set_vma-view p vma w bv ev,
  mk_valid-view p w,
  mk_invalid-view p w,
  set_vaddr-view p vaddr w ba ea,
  set_idx-view p idx w hi,
  set_cpu-view p cpu w hc,
)

-- For a reverse mapping of two machine words, an index below 32 and an address of the entry below
-- 2^64: once the index is set, pvr_get_owner leads from the entry's address to the start of the
-- array.
pub get_owner-set_idx :
    (p : Rmap) (base i : ℕ)
    → IsWord p
    → i < 32
    → base + i * rmap_size < 2 ^ 64
    → pvr_get_owner (base + i * rmap_size) (pvr_set_idx p i) ≡ base
unfolding pvr_get_owner
get_owner-set_idx p base i w h room =
    let stored : pvr_get_idx (pvr_set_idx p i) ≡ i = rw (set_idx_lem p w i h) (
      get_idx_lem (record p { vaddr = p.vaddr / 4096 * 4096 + i * 128 + p.vaddr % 128 })
        (omega arith)
      ∙ omega arith) in
    rw stored (omega arith)
