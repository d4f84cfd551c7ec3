-- ===== src/TaggedPage/Mapping.antt =====
-- `struct pr_vma_rmap` of driver/tagged_page.h: one reverse mapping, packed into two words. The
-- vma pointer carries the valid bit; the page-aligned address carries the rmap index and the CPU.
-- The accessors are those of driver/tagged_page.c.
pub mod Fields
pub mod Sequences
use Prim.Native.Nat.{bit_and, bit_or}
use fast_map.Common.{ℕ, ◌+◌, ◌-◌, ◌*◌, ◌/◌, ◌%◌, ◌^◌, Bool, ◌==◌}

pub record Rmap : Type 0 where
  -- `__vma`: the vma's address, with the valid flag in bit 0
  pub vma : ℕ
  -- `__vaddr`: bits 63:12 the address, 11:7 the index, 6:0 the CPU
  pub vaddr : ℕ

-- `~(mask)` as an unsigned long
abbrev lnot : ℕ → ℕ
lnot mask = 2 ^ 64 - 1 - mask

unfoldable pub pvr_is_valid : Rmap → Bool
pvr_is_valid p = bit_and p.vma 0x01 == 1

unfoldable pub pvr_mk_valid : Rmap → Rmap
pvr_mk_valid p = record p { vma = bit_or p.vma 0x01 }

unfoldable pub pvr_mk_invalid : Rmap → Rmap
pvr_mk_invalid p = record p { vma = bit_and p.vma (lnot 0x01) }

unfoldable pub pvr_get_cpu : Rmap → ℕ
pvr_get_cpu p = bit_and p.vaddr 0x7F

unfoldable pub pvr_set_cpu : Rmap → ℕ → Rmap
pvr_set_cpu p cpu = record p { vaddr = bit_or (bit_and p.vaddr (lnot 0x7F)) cpu }

unfoldable pub pvr_get_idx : Rmap → ℕ
pvr_get_idx p = bit_and p.vaddr 0x0F80 / 2 ^ 7

unfoldable pub pvr_set_idx : Rmap → ℕ → Rmap
pvr_set_idx p idx =
    let cpu = bit_and p.vaddr 0x7F in
    let vaddr = bit_and p.vaddr (lnot 0xFFF) in
    record p { vaddr = bit_or (bit_or vaddr (idx * 2 ^ 7 % 2 ^ 64)) cpu }

unfoldable pub pvr_get_vaddr : Rmap → ℕ
pvr_get_vaddr p = bit_and p.vaddr (lnot 0xFFF)

unfoldable pub pvr_set_vaddr : Rmap → ℕ → Rmap
pvr_set_vaddr p vaddr = let meta = bit_and p.vaddr 0xFFF in record p { vaddr = bit_or vaddr meta }

unfoldable pub pvr_get_vma : Rmap → ℕ
pvr_get_vma p = bit_and p.vma (lnot 0x01)

unfoldable pub pvr_set_vma : Rmap → ℕ → Rmap
pvr_set_vma p vma = let valid = bit_and p.vma 0x01 in record p { vma = bit_or vma valid }

-- `sizeof(struct pr_vma_rmap)`: two words and a list head
abbrev pub rmap_size : ℕ
rmap_size = 32

-- `at` is the address of the rmap itself, a member of the array that heads its tagged page.
unfoldable pub pvr_get_owner : ℕ → Rmap → ℕ
pvr_get_owner at p = (at + 2 ^ 64 - pvr_get_idx p * rmap_size % 2 ^ 64) % 2 ^ 64
