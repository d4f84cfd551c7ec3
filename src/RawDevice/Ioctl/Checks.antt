-- ===== src/RawDevice/Ioctl/Checks.antt =====
-- Arguments that the checks of `raw_ioctl` let through.
use fast_map.Common.{ℕ, ◌+◌, ◌^◌, ◌%◌, ◌≤◌, ◌<◌, ◌≡◌, Bool, false, [], ◌∷◌, some, arith}
use fast_map.RawDevice.Bitmap.{BitmapLib}
use fast_map.RawDevice.Ioctl.{
  Device, zero_range, fill_range, zero_pages, value, raw_ioctl, zero_loop, with_bitmap,
}

module _ (lib : BitmapLib) (cached : ℕ → Bool) (d : Device) where
  -- Where a range begins inside the bitmap and offset + length wraps past 2^64, the commands that
  -- zero and that fill a range pass their check and hand the range to the bitmap library.
  pub raw_ioctl-wrapped :
      (offset len : ℕ)
      → d.bitmap_size < 2 ^ 64
      → offset < d.bitmap_size
      → len < 2 ^ 64
      → 2 ^ 64 ≤ offset + len
      → (raw_ioctl lib cached (zero_range (some (offset, len))) d
          ≡ with_bitmap d (lib.bitmap_clear d.bitmap offset len))
        × (raw_ioctl lib cached (fill_range (some (offset, len))) d
            ≡ with_bitmap d (lib.bitmap_set d.bitmap offset len))
  unfolding raw_ioctl
  raw_ioctl-wrapped offset len s h b w =
      let sum : (offset + len) % 2 ^ 64 < d.bitmap_size = omega arith in
      (ground (arith, h, sum), ground (arith, h, sum))

  -- FAKE_BLK_IOC_ZERO_PAGES of the page just after the last one succeeds and clears the bit after
  -- the end of the bitmap.
  pub raw_ioctl-zero_pages :
      ((raw_ioctl lib cached (zero_pages (some (d.bitmap_size ∷ []))) d).0 ≡ value 0)
      × ((raw_ioctl lib cached (zero_pages (some (d.bitmap_size ∷ []))) d).1.bitmap d.bitmap_size
          ≡ false)
  unfolding raw_ioctl zero_loop
  raw_ioctl-zero_pages = ground (arith, lib.clear_bit_lem d.bitmap_size d.bitmap d.bitmap_size)
