-- ===== src/RawDevice/Bitmap.antt =====
-- lib/bitmap.c and asm/bitops.h of the kernel, as what they promise. A bitmap is its bits, those after
-- its end included: bit `i` is bit `i % 64` of word `i / 64` of the memory from its address on.
use fast_map.Common.{
  ℕ, ◌+◌, ◌*◌, ◌/◌, ◌^◌, ◌≤◌, ◌<◌, ◌≡◌, Bool, true, false, ltb, leb, not, ◌&&◌, ◌==◌, if◌then◌else◌,
}

abbrev pub Bits : Type 0
Bits = ℕ → Bool

-- The end of the last word of a bitmap of `n` bits, `BITS_TO_LONGS(n) * 64`.
abbrev pub words_end : ℕ → ℕ
words_end n = (n + 63) / 64 * 64

abbrev pub in_range : ℕ → ℕ → ℕ → Bool
in_range start len j = leb start j && ltb j (start + len)

-- Ranges have an unsigned int as their start and an int as their length; for other arguments nothing
-- is promised. Zeroing and filling may change the rest of the last word.
pub record BitmapLib : Type 0 where
  pub set_bit : ℕ → Bits → Bits
  pub clear_bit : ℕ → Bits → Bits
  pub change_bit : ℕ → Bits → Bits
  pub bitmap_zero : Bits → ℕ → Bits
  pub bitmap_fill : Bits → ℕ → Bits
  pub bitmap_set : Bits → ℕ → ℕ → Bits
  pub bitmap_clear : Bits → ℕ → ℕ → Bits
  pub set_bit_lem : (i : ℕ) (b : Bits) (j : ℕ) → set_bit i b j ≡ (if j == i then true else b j)
  pub clear_bit_lem : (i : ℕ) (b : Bits) (j : ℕ) → clear_bit i b j ≡ (if j == i then false else b j)
  pub change_bit_lem :
      (i : ℕ) (b : Bits) (j : ℕ) → change_bit i b j ≡ (if j == i then not (b j) else b j)
  pub bitmap_zero-inside : (b : Bits) (n j : ℕ) → j < n → bitmap_zero b n j ≡ false
  pub bitmap_zero-outside : (b : Bits) (n j : ℕ) → words_end n ≤ j → bitmap_zero b n j ≡ b j
  pub bitmap_fill-inside : (b : Bits) (n j : ℕ) → j < n → bitmap_fill b n j ≡ true
  pub bitmap_fill-outside : (b : Bits) (n j : ℕ) → words_end n ≤ j → bitmap_fill b n j ≡ b j
  pub bitmap_set_lem :
      (b : Bits) (start len j : ℕ)
      → start < 2 ^ 32
      → len < 2 ^ 31
      → bitmap_set b start len j ≡ (if in_range start len j then true else b j)
  pub bitmap_clear_lem :
      (b : Bits) (start len j : ℕ)
      → start < 2 ^ 32
      → len < 2 ^ 31
      → bitmap_clear b start len j ≡ (if in_range start len j then false else b j)
