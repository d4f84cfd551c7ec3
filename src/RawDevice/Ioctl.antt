-- ===== src/RawDevice/Ioctl.antt =====
-- `raw_ioctl` of driver/main.c. A `Request` is a command with what `copy_from_user` reads for it, `none`
-- where that fails; a Boolean says whether `copy_to_user` succeeds. The bitmap functions are the
-- kernel's. A uint64_t sum wraps.
pub mod Spec
pub mod Effect
pub mod Checks
use fast_map.Common.{
  ℕ, zero, suc, ◌+◌, ◌-◌, ◌/◌, ◌%◌, ◌^◌, Bool, true, false, ltb, leb, ◌==◌, if◌then◌else◌, List, [],
  ◌∷◌, Option, none, some,
}
use fast_map.RawDevice.Bitmap.{Bits, BitmapLib}

abbrev pub max_priorities : ℕ
max_priorities = 16

-- `BYTES_TO_BITS(4088)`
abbrev pub copied_bits : ℕ
copied_bits = 32704

-- The fields of `struct raw_device_data` that the commands use: `meta[]` is the priority of each page,
-- and has `device_size_in_pages` entries.
pub record Device : Type 0 where
  pub priority : ℕ → ℕ
  pub device_size_in_pages : ℕ
  pub bitmap : Bits
  pub bitmap_size : ℕ
  -- `get_capacity(bdev->bd_disk)`, in sectors
  pub capacity : ℕ

pub data Request : Type 0 where
  -- Another magic number, with what `blkdev_ioctl` of the bound device returns for it.
  foreign : Option ℕ → Request
  out_of_range : Request
  set_page_priority : Option (ℕ × ℕ) → Request
  change_page_priority : Option (ℕ × ℕ) → Request
  getpage_stats : Option ℕ → Bool → Request
  dontneed prefetch test_cap reset_stats get_stats : Request
  zero_full fill_full : Request
  zero_page fill_page test_page : Option ℕ → Request
  zero_range fill_range : Option (ℕ × ℕ) → Request
  get_devpgnum : Bool → Request
  -- The offset and the bits of `bpage`.
  flip_copy_bitmap : Option (ℕ × Bits) → Request
  -- The first `num` entries of `blocks`.
  zero_pages : Option (List ℕ) → Request
  unknown : Request

pub data Reply : Type 0 where
  value : ℕ → Reply
  -- 0, and the number is copied to the user.
  copied : ℕ → Reply
  enotty efault einval : Reply
  -- BUG()
  bug : Reply
  -- The code writes after `meta[]`; what the memory of the device holds then is not described.
  overrun : Reply

abbrev pub Outcome : Type 0
Outcome = Reply × Device

abbrev pub with_bitmap : Device → Bits → Outcome
with_bitmap d b = (value 0, record d { bitmap = b })

abbrev pub set_priority : Device → ℕ → ℕ → Device
set_priority d page prio = record d { priority = λ p. if p == page then prio else d.priority p }

module _ (lib : BitmapLib) where
  -- `for(i = 0; i < BYTES_TO_BITS(4088); i++)`, with `n` rounds left.
  unfoldable pub flip_loop : ℕ → ℕ → ℕ → Bits → Bits → Bits
  flip_loop zero i offset bpage bits = bits
  flip_loop (suc n) i offset bpage bits =
      let bpage' = lib.change_bit i bpage in
      let at = (offset + i) % 2 ^ 64 in
      let bits' = if bpage' i then lib.set_bit at bits else lib.clear_bit at bits in
      flip_loop n (suc i) offset bpage' bits'

  -- `FAKE_BLK_IOC_FLIP_COPY_BITMAP` for `n` bits.
  unfoldable pub flip_copy : ℕ → ℕ → Bits → Device → Outcome
  unfolding flip_loop
  flip_copy n offset bpage d =
      if ltb d.bitmap_size ((offset + n) % 2 ^ 64)
      then (einval, d)
      else with_bitmap d (flip_loop n 0 offset bpage d.bitmap)

  -- `for(i = 0; i < __topgs->num; i++)`: an entry that is too large ends the loop, and those before
  -- it stay cleared.
  unfoldable pub zero_loop : List ℕ → Device → Outcome
  zero_loop [] d = (value 0, d)
  zero_loop (block ∷ blocks) d =
      let rest = zero_loop blocks (record d { bitmap = lib.clear_bit block d.bitmap }) in
      if ltb d.bitmap_size block then (einval, d) else rest

  -- `cached` says of a page whether `change_page_priority` finds it in the radix tree of the device;
  -- the queue's `change_priority` is then BUG().
  unfoldable pub raw_ioctl : (ℕ → Bool) → Request → Device → Outcome
  unfolding flip_copy zero_loop
  raw_ioctl cached (foreign none) d = (enotty, d)
  raw_ioctl cached (foreign (some r)) d = (value r, d)
  raw_ioctl cached out_of_range d = (enotty, d)
  raw_ioctl cached (set_page_priority none) d = (efault, d)
  raw_ioctl cached (set_page_priority (some (page, prio))) d =
      if leb d.device_size_in_pages page
      then (efault, d)
      else (value 0, set_priority d page (if leb max_priorities prio then 0 else prio))
  raw_ioctl cached (change_page_priority none) d = (efault, d)
  raw_ioctl cached (change_page_priority (some (page, prio))) d =
      let d' = set_priority d page prio in
      let changed : Outcome = if cached page then (bug, d') else (value 0, d') in
      if leb d.device_size_in_pages page then (overrun, d) else changed
  raw_ioctl cached (getpage_stats none ok) d = (efault, d)
  raw_ioctl cached (getpage_stats (some page) ok) d = if ok then (copied page, d) else (efault, d)
  raw_ioctl cached dontneed d = (value 0, d)
  raw_ioctl cached prefetch d = (value 0, d)
  raw_ioctl cached test_cap d = (value 0, d)
  raw_ioctl cached reset_stats d = (value 0, d)
  raw_ioctl cached get_stats d = (value 0, d)
  raw_ioctl cached zero_full d = with_bitmap d (lib.bitmap_zero d.bitmap d.bitmap_size)
  raw_ioctl cached fill_full d = with_bitmap d (lib.bitmap_fill d.bitmap d.bitmap_size)
  raw_ioctl cached (zero_page none) d = (efault, d)
  raw_ioctl cached (zero_page (some num)) d =
      if leb d.bitmap_size num then (einval, d) else with_bitmap d (lib.clear_bit num d.bitmap)
  raw_ioctl cached (fill_page none) d = (efault, d)
  raw_ioctl cached (fill_page (some num)) d =
      if leb d.bitmap_size num then (einval, d) else with_bitmap d (lib.set_bit num d.bitmap)
  raw_ioctl cached (test_page none) d = (efault, d)
  raw_ioctl cached (test_page (some num)) d =
      if leb d.bitmap_size num then (einval, d) else (value (if d.bitmap num then 1 else 0), d)
  raw_ioctl cached (zero_range none) d = (efault, d)
  raw_ioctl cached (zero_range (some (offset, length))) d =
      if leb d.bitmap_size offset
      then (einval, d)
      else if ltb d.bitmap_size ((offset + length) % 2 ^ 64)
      then (einval, d)
      else with_bitmap d (lib.bitmap_clear d.bitmap offset length)
  raw_ioctl cached (fill_range none) d = (efault, d)
  raw_ioctl cached (fill_range (some (offset, length))) d =
      if leb d.bitmap_size offset
      then (einval, d)
      else if ltb d.bitmap_size ((offset + length) % 2 ^ 64)
      then (einval, d)
      else with_bitmap d (lib.bitmap_set d.bitmap offset length)
  raw_ioctl cached (get_devpgnum ok) d =
      if ok then (copied (d.capacity / 2 ^ 3), d) else (efault, d)
  raw_ioctl cached (flip_copy_bitmap none) d = (efault, d)
  raw_ioctl cached (flip_copy_bitmap (some (offset, bpage))) d =
      flip_copy copied_bits offset bpage d
  raw_ioctl cached (zero_pages none) d = (efault, d)
  raw_ioctl cached (zero_pages (some blocks)) d = zero_loop blocks d
  raw_ioctl cached unknown d = (einval, d)
