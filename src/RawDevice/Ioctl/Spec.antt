-- ===== src/RawDevice/Ioctl/Spec.antt =====
-- What the commands mean for the bitmap of a device.
use fast_map.Common.{
  ℕ, ◌+◌, ◌-◌, ◌^◌, ◌<◌, Bool, true, false, not, ◌||◌, ◌==◌, if◌then◌else◌, List, [], ◌∷◌, some,
  All,
}
use fast_map.RawDevice.Bitmap.{Bits, in_range}
use fast_map.RawDevice.Ioctl.{
  Device, Request, change_page_priority, zero_full, fill_full, zero_page, fill_page, zero_range,
  fill_range, flip_copy_bitmap, zero_pages, Reply, value, copied, copied_bits,
}

abbrev pub is_ok : Reply → Bool
is_ok (value n) = true
is_ok (copied n) = true
is_ok _ = false

abbrev pub among : ℕ → List ℕ → Bool
among j [] = false
among j (x ∷ xs) = (j == x) || among j xs

-- The bit of page `j` after a command that succeeds.
abbrev pub bit_after : Request → Bits → ℕ → Bool
bit_after zero_full b j = false
bit_after fill_full b j = true
bit_after (zero_page (some num)) b j = if j == num then false else b j
bit_after (fill_page (some num)) b j = if j == num then true else b j
bit_after (zero_range (some (offset, length))) b j = if in_range offset length j then false else b j
bit_after (fill_range (some (offset, length))) b j = if in_range offset length j then true else b j
bit_after (flip_copy_bitmap (some (offset, bpage))) b j =
    if in_range offset copied_bits j then not (bpage (j - offset)) else b j
bit_after (zero_pages (some blocks)) b j = if among j blocks then false else b j
bit_after _ b j = b j

-- No sum of the request's numbers wraps.
abbrev pub NoWrap : Request → Type 0
NoWrap (zero_range (some (offset, length))) = offset + length < 2 ^ 64
NoWrap (fill_range (some (offset, length))) = offset + length < 2 ^ 64
NoWrap (flip_copy_bitmap (some (offset, bpage))) = offset + copied_bits < 2 ^ 64
NoWrap _ = Unit

-- A change of priority, whose page number is not checked, is one of a page of the device.
abbrev pub WritesInside : Request → Device → Type 0
WritesInside (change_page_priority (some (page, prio))) d = page < d.device_size_in_pages
WritesInside _ d = Unit

-- `FAKE_BLK_IOC_ZERO_PAGES` names pages of the device only.
abbrev pub PagesInside : Request → ℕ → Type 0
PagesInside (zero_pages (some blocks)) size = All (λ p. p < size) blocks
PagesInside _ size = Unit

abbrev pub is_zero_pages : Request → Bool
is_zero_pages (zero_pages o) = true
is_zero_pages _ = false
