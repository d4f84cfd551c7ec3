-- ===== src/Tests/Bindings.antt =====
-- Raw devices bound to block devices, each of which is at the address that is its number.
use fast_map.Common.{
  ℕ, ◌+◌, ◌*◌, ◌/◌, ◌%◌, ◌^◌, ◌<◌, ◌≡◌, ◌≤◌, refl, arith, if◌then◌else◌, ◌==◌, true, none, some,
}
use fast_map.RawDevice.Bind.{
  BlockLib, Answers, Driver, found, Control, setbind, getbind, raw_ctl_ioctl, raw_open,
}
use fast_map.RawDevice.Bind.Step.{start, next, control, opens, IsBoundRight}
use fast_map.RawDevice.Bind.Kept.{IsFresh, bindings_kept, raw_ctl_ioctl-busy}
use fast_map.RawDevice.Bind.Numbers.{setbind-getbind, setbind-keeps_opened}
use fast_map.Tests.Devices.{exact, hundred}

major-mkdev_lem : (ma mi : ℕ) → ma < 2 ^ 12 → mi < 2 ^ 20 → (ma * 2 ^ 20 + mi) / 2 ^ 20 ≡ ma
major-mkdev_lem ma mi h k = omega arith

minor-mkdev_lem : (ma mi : ℕ) → ma < 2 ^ 12 → mi < 2 ^ 20 → (ma * 2 ^ 20 + mi) % 2 ^ 20 ≡ mi
minor-mkdev_lem ma mi h k = omega arith

bdget-bd_dev_lem : (dev bdev : ℕ) → some dev ≡ some bdev → bdev ≡ dev
bdget-bd_dev_lem dev bdev h = ground arith

abbrev blocks : BlockLib
blocks = record {
  mkdev = λ ma mi. ma * 2 ^ 20 + mi;
  major = λ d. d / 2 ^ 20;
  minor = λ d. d % 2 ^ 20;
  bdget = λ d. some d;
  bd_dev = λ b. b;
  get_capacity = λ b. 800;
  major-mkdev = major-mkdev_lem;
  minor-mkdev = minor-mkdev_lem;
  bdget-bd_dev = bdget-bd_dev_lem;
}

abbrev all_well : Answers
all_well = record {
  capable = true;
  blkdev_get = 0;
  set_blocksize = 0;
  meta = true;
  bits = some (λ j. true);
}

abbrev fresh : Driver
fresh = record {
  raw_devices =
      λ n. record { inuse = 0; dev_id = 0; binding = none; i_mapping = none; device = hundred };
  module_refs = 0;
  opened = λ b. 0;
}

fresh-IsFresh : IsFresh blocks exact 16 fresh
fresh-IsFresh = record {
  unused = λ n. refl;
  not_bound = λ n. refl;
  not_mapped = λ n. refl;
  no_refs = refl;
}

-- Raw device 1 is bound to block device 8:3.
abbrev bind_one : Control blocks exact 16
bind_one = setbind (some (1, 8, 3))

abbrev bound : Driver
bound = (raw_ctl_ioctl blocks exact 16 all_well bind_one fresh).1

abbrev opened_once : Driver
opened_once = (raw_open blocks exact 16 all_well 1 bound).1

bindings_kept_example : IsBoundRight blocks exact 16 opened_once (λ m. if m == 1 then 1 else 0)
unfolding raw_ctl_ioctl raw_open
bindings_kept_example =
    bindings_kept blocks exact 16 fresh (opened_once, λ m. if m == 1 then 1 else 0) fresh-IsFresh
      (next
        (next start
          (control {drv = fresh} {files = λ n. 0} all_well bind_one (λ e. ground (arith, e))))
        (opens {drv = bound} {files = λ n. 0} all_well 1
          (λ e. omega (arith, e), omega arith, omega arith) refl))

raw_ctl_ioctl-busy_example :
    (raw_ctl_ioctl blocks exact 16 all_well (setbind (some (1, 8, 4))) opened_once).1.raw_devices 1
    ≡ opened_once.raw_devices 1
unfolding raw_ctl_ioctl raw_open
raw_ctl_ioctl-busy_example =
    raw_ctl_ioctl-busy blocks exact 16 all_well (setbind (some (1, 8, 4))) opened_once 1
      (omega arith)

setbind-getbind_example :
    raw_ctl_ioctl blocks exact 16 all_well (getbind (some 1) true) bound ≡ (found 8 3, bound)
unfolding raw_ctl_ioctl
setbind-getbind_example = setbind-getbind blocks exact 16 all_well all_well 1 8 3 fresh refl

setbind-keeps_opened_example :
    let drv' = (raw_ctl_ioctl blocks exact 16 all_well (setbind (some (1, 8, 4))) bound).1 in
    ((drv'.raw_devices 1).binding ≡ some 8388612) × (bound.opened 8388611 ≤ drv'.opened 8388611)
unfolding raw_ctl_ioctl
setbind-keeps_opened_example =
    setbind-keeps_opened blocks exact 16 all_well 1 8 4 8388611 bound refl (λ e. omega (arith, e))
      refl
