-- ===== src/Tests/Devices.antt =====
-- Raw devices with a bitmap of 100 pages.
use fast_map.Common.{
  ◌<◌, ◌≤◌, ℕ, ◌≡◌, refl, arith, Bool, true, false, not, ◌==◌, ltb, if◌then◌else◌, [], ◌∷◌, some,
}
use fast_map.RawDevice.Bitmap.{BitmapLib, in_range, words_end}
use fast_map.RawDevice.Ioctl.{
  Device, zero_range, fill_range, zero_pages, value, raw_ioctl, with_bitmap,
}
use fast_map.RawDevice.Ioctl.Effect.{Effected, raw_ioctl-Effected}
use fast_map.RawDevice.Ioctl.Checks.{raw_ioctl-wrapped, raw_ioctl-zero_pages}

pub below : (x y : Bool) (n j : ℕ) → j < n → (if ltb j n then x else y) ≡ x
below x y n j h = ground arith

pub above : (x y : Bool) (n j : ℕ) → words_end n ≤ j → (if ltb j n then x else y) ≡ y
above x y n j h = ground arith

-- Each function changes its bits and no others.
abbrev pub exact : BitmapLib
exact = record {
  set_bit = λ i b j. if j == i then true else b j;
  clear_bit = λ i b j. if j == i then false else b j;
  change_bit = λ i b j. if j == i then not (b j) else b j;
  bitmap_zero = λ b n j. if ltb j n then false else b j;
  bitmap_fill = λ b n j. if ltb j n then true else b j;
  bitmap_set = λ b start len j. if in_range start len j then true else b j;
  bitmap_clear = λ b start len j. if in_range start len j then false else b j;
  set_bit_lem = λ i b j. refl;
  clear_bit_lem = λ i b j. refl;
  change_bit_lem = λ i b j. refl;
  bitmap_zero-inside = λ b n j h. below false (b j) n j h;
  bitmap_zero-outside = λ b n j h. above false (b j) n j h;
  bitmap_fill-inside = λ b n j h. below true (b j) n j h;
  bitmap_fill-outside = λ b n j h. above true (b j) n j h;
  bitmap_set_lem = λ b start len j h k. refl;
  bitmap_clear_lem = λ b start len j h k. refl;
}

abbrev pub hundred : Device
hundred = record {
  priority = λ p. 0;
  device_size_in_pages = 100;
  bitmap = λ j. true;
  bitmap_size = 100;
  capacity = 800;
}

abbrev uncached : ℕ → Bool
uncached p = false

raw_ioctl-Effected_example :
    let (r, d') = raw_ioctl exact uncached (zero_range (some (3, 4))) hundred in
    Effected exact (zero_range (some (3, 4))) hundred r d'
raw_ioctl-Effected_example =
    raw_ioctl-Effected exact uncached (zero_range (some (3, 4))) hundred (omega arith) (omega arith)
      tt

raw_ioctl-wrapped_example :
    (raw_ioctl exact uncached (zero_range (some (8, 18446744073709551612))) hundred
      ≡ with_bitmap hundred (exact.bitmap_clear hundred.bitmap 8 18446744073709551612))
    × (raw_ioctl exact uncached (fill_range (some (8, 18446744073709551612))) hundred
        ≡ with_bitmap hundred (exact.bitmap_set hundred.bitmap 8 18446744073709551612))
raw_ioctl-wrapped_example =
    raw_ioctl-wrapped exact uncached hundred 8 18446744073709551612 (omega arith) (omega arith)
      (omega arith) (omega arith)

raw_ioctl-zero_pages_example :
    ((raw_ioctl exact uncached (zero_pages (some (100 ∷ []))) hundred).0 ≡ value 0)
    × ((raw_ioctl exact uncached (zero_pages (some (100 ∷ []))) hundred).1.bitmap 100 ≡ false)
raw_ioctl-zero_pages_example = raw_ioctl-zero_pages exact uncached hundred
