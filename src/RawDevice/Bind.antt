-- ===== src/RawDevice/Bind.antt =====
-- The control device of driver/main.c binds raw devices to block devices: `bind_set`, `bind_get` and
-- `raw_ctl_ioctl`, with `raw_open` and the end of `raw_release`. Each runs under `raw_mutex`, so it is one
-- step. Block devices are named by their addresses.
pub mod Step
pub mod Accepted
pub mod Kept
pub mod Numbers
use fast_map.Common.{
  ℕ, ◌+◌, ◌-◌, ◌*◌, ◌/◌, ◌%◌, ◌^◌, ◌≡◌, ◌<◌, Bool, true, false, ltb, leb, not, ◌&&◌, ◌||◌, ◌==◌,
  if◌then◌else◌, Option, none, some,
}
use fast_map.RawDevice.Bitmap.{Bits, BitmapLib}
use fast_map.RawDevice.Ioctl.{Device}

-- linux/kdev_t.h and fs/block_dev.c: `bdget` finds the block device of a number, or fails.
pub record BlockLib : Type 0 where
  pub mkdev : ℕ → ℕ → ℕ
  pub major : ℕ → ℕ
  pub minor : ℕ → ℕ
  pub bdget : ℕ → Option ℕ
  pub bd_dev : ℕ → ℕ
  -- in sectors
  pub get_capacity : ℕ → ℕ
  pub major-mkdev : (ma mi : ℕ) → ma < 2 ^ 12 → mi < 2 ^ 20 → major (mkdev ma mi) ≡ ma
  pub minor-mkdev : (ma mi : ℕ) → ma < 2 ^ 12 → mi < 2 ^ 20 → minor (mkdev ma mi) ≡ mi
  pub bdget-bd_dev : (dev bdev : ℕ) → bdget dev ≡ some bdev → bd_dev bdev ≡ dev

-- What the rest of the kernel answers during a call.
pub record Answers : Type 0 where
  pub capable : Bool
  -- `blkdev_get` and `set_blocksize`, 0 for success
  pub blkdev_get : ℕ
  pub set_blocksize : ℕ
  -- whether each `vmalloc` succeeds, and what its memory holds
  pub meta : Bool
  pub bits : Option Bits

-- `struct raw_device_data`, with the `i_mapping` of its node where that is a block device's.
pub record Raw : Type 0 where
  pub inuse : ℕ
  pub dev_id : ℕ
  pub binding : Option ℕ
  pub i_mapping : Option ℕ
  pub device : Device

pub record Driver : Type 0 where
  pub raw_devices : ℕ → Raw
  -- The references to the module that bindings hold.
  pub module_refs : ℕ
  -- How often each block device was opened by `blkdev_get` and not put back.
  pub opened : ℕ → ℕ

pub data Result : Type 0 where
  done : Result
  einval eperm ebusy enodev efault : Result
  -- The major and the minor number, copied to the user.
  found : ℕ → ℕ → Result
  error : ℕ → Result
  -- A null pointer is used.
  oops : Result

abbrev pub set_raw : Driver → ℕ → Raw → ℕ → Raw
set_raw drv n r = λ m. if m == n then r else drv.raw_devices m

abbrev pub blkdev_opened : Driver → ℕ → ℕ → ℕ
blkdev_opened drv bdev = λ b. if b == bdev then drv.opened b + 1 else drv.opened b

abbrev pub blkdev_put : Driver → ℕ → ℕ → ℕ
blkdev_put drv bdev = λ b. if b == bdev then drv.opened b - 1 else drv.opened b

-- `bdput(rawdev->binding); module_put(THIS_MODULE);` where the device is bound, the reference to the
-- block device aside.
abbrev pub unref : Driver → Raw → ℕ
unref drv raw = elim raw.binding [ none ↦ drv.module_refs | some b ↦ drv.module_refs - 1 ]

abbrev pub unbound : ℕ → ℕ → Driver → Driver
unbound n bdev drv = record {
  raw_devices = set_raw drv n (record (drv.raw_devices n) { binding = none });
  module_refs = unref drv (drv.raw_devices n);
  opened = blkdev_put drv bdev;
}

-- The binding is replaced, and `blkdev_get` may have opened the block device.
abbrev pub bound_to : Answers → ℕ → ℕ → ℕ → Device → Driver → Driver
bound_to ans n dev bdev device drv = record {
  raw_devices =
      set_raw drv n
        (record (drv.raw_devices n) { dev_id = dev; binding = some bdev; device = device });
  module_refs = unref drv (drv.raw_devices n) + 1;
  opened = if ans.blkdev_get == 0 then blkdev_opened drv bdev else drv.opened;
}

abbrev pub negative : ℕ → Bool
negative n = leb (2 ^ 31) n

module _ (lib : BlockLib) (bitmaps : BitmapLib) (max_raw_minors : ℕ) where
  -- A number of the wrong range; an int below 0 is a word from 2^31 on.
  abbrev pub bad_number : ℕ → Bool
  bad_number n = (n == 0) || (negative n || leb max_raw_minors n)

  -- The device's data for a block device: no priorities, and a bitmap of zeroes. `some` is it, and the
  -- allocations must not fail, unless the device has no page.
  unfoldable pub new_device : Answers → ℕ → Option Device
  new_device ans bdev =
      let pages = lib.get_capacity bdev / 2 ^ 3 in
      let device : Bits → Device = λ b. record {
        priority = λ p. 0;
        device_size_in_pages = pages;
        bitmap = bitmaps.bitmap_zero b pages;
        bitmap_size = pages;
        capacity = lib.get_capacity bdev;
      } in
      if ans.meta || (pages == 0)
      then (elim ans.bits [
        | none ↦ (if pages == 0 then some (device (λ j. false)) else none)
        | some b ↦ some (device b)
      ])
      else none

  -- `dev` is 0.
  unfoldable pub unbind : ℕ → Driver → Result × Driver
  unbind n drv = elim (drv.raw_devices n).binding [
    | none ↦ (oops, drv)
    | some bdev ↦ (done, unbound n bdev drv)
  ]

  -- `ret` of `blkdev_get` is only printed.
  unfoldable pub rebind : Answers → ℕ → ℕ → Driver → Result × Driver
  unfolding new_device
  rebind ans n dev drv = elim (lib.bdget dev) [
    | none ↦ (oops, drv)
    | some bdev ↦ elim (new_device ans bdev) [
      | none ↦ (oops, drv)
      | some device ↦ (done, bound_to ans n dev bdev device drv)
    ]
  ]

  unfoldable pub bind_set : Answers → ℕ → ℕ → ℕ → Driver → Result × Driver
  unfolding unbind rebind
  bind_set ans n ma mi drv =
      let dev = lib.mkdev ma mi in
      let set = if dev == 0 then unbind n drv else rebind ans n dev drv in
      let raw = drv.raw_devices n in
      if bad_number n
      then (einval, drv)
      else if not (lib.major dev == ma) || not (lib.minor dev == mi)
      then (einval, drv)
      else if not ans.capable
      then (eperm, drv)
      else if (lib.major dev == 0) && not (dev == 0)
      then (einval, drv)
      else if raw.inuse == 0
      then set
      else (ebusy, drv)

  abbrev pub bound_dev : Option ℕ → ℕ
  bound_dev none = 0
  bound_dev (some bdev) = lib.bd_dev bdev

  unfoldable pub bind_get : ℕ → Driver → Option ℕ
  bind_get n drv = if bad_number n then none else some (bound_dev (drv.raw_devices n).binding)

  -- `raw_ctl_ioctl`: `DMAP_SETBIND` and `DMAP_GETBIND` with the request read from the user, `none` where
  -- that fails.
  pub data Control : Type 0 where
    setbind : Option (ℕ × ℕ × ℕ) → Control
    getbind : Option ℕ → Bool → Control
    unknown : Control

  unfoldable pub raw_ctl_ioctl : Answers → Control → Driver → Result × Driver
  unfolding bind_set bind_get
  raw_ctl_ioctl ans (setbind none) drv = (efault, drv)
  raw_ctl_ioctl ans (setbind (some (n, ma, mi))) drv = bind_set ans n ma mi drv
  raw_ctl_ioctl ans (getbind none ok) drv = (efault, drv)
  raw_ctl_ioctl ans (getbind (some n) ok) drv = elim (bind_get n drv) [
    | none ↦ (einval, drv)
    | some dev ↦ (if ok then (found (lib.major dev) (lib.minor dev), drv) else (efault, drv))
  ]
  raw_ctl_ioctl ans unknown drv = (einval, drv)

  -- `raw_open` of the node with this minor: `done` is a new file. The control device is minor 0.
  unfoldable pub raw_open : Answers → ℕ → Driver → Result × Driver
  raw_open ans n drv =
      let raw = drv.raw_devices n in
      let inuse = (raw.inuse + 1) % 2 ^ 32 in
      if n == 0 then (done, drv) else elim raw.binding [
        | none ↦ (enodev, drv)
        | some bdev ↦
            (if not (ans.blkdev_get == 0)
              then (error ans.blkdev_get, drv)
              else if not (ans.set_blocksize == 0)
              then (
                error ans.set_blocksize,
                record drv {
                  opened = blkdev_put (record drv { opened = blkdev_opened drv bdev }) bdev;
                },
              )
              else (
                done,
                record drv {
                  raw_devices = set_raw drv n (record raw {
                    inuse = inuse;
                    i_mapping = if inuse == 1 then some bdev else raw.i_mapping;
                  });
                  opened = blkdev_opened drv bdev;
                },
              ))
      ]

  -- The end of `raw_release`, after the pages were written and freed.
  unfoldable pub raw_release_node : ℕ → Driver → Result × Driver
  raw_release_node n drv =
      let raw = drv.raw_devices n in
      let inuse = (raw.inuse + 2 ^ 32 - 1) % 2 ^ 32 in
      elim raw.binding [
        | none ↦ (oops, drv)
        | some bdev ↦ (
          done,
          record drv {
            raw_devices = set_raw drv n (record raw {
              inuse = inuse;
              i_mapping = if inuse == 0 then none else raw.i_mapping;
            });
            opened = blkdev_put drv bdev;
          },
        )
      ]
