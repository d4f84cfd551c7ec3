-- ===== src/RawDevice/Bind/Numbers.antt =====
-- Binding a raw device and asking for its binding; binding it a second time.
use fast_map.Common.{ℕ, ◌≤◌, ◌≡◌, ◌≢◌, true, false, some, arith, inl, inr, Option-cases, Bool-cases}
use fast_map.RawDevice.Bitmap.{BitmapLib}
use fast_map.RawDevice.Bind.{
  BlockLib, Answers, Driver, done, found, setbind, getbind, unbind, rebind, bind_set, bind_get,
  raw_ctl_ioctl, bound_dev, bad_number,
}
use fast_map.RawDevice.Bind.Accepted.{accepted, bind_set-accepted, bind_set-refused}

module _ (lib : BlockLib) (bitmaps : BitmapLib) (max_raw_minors : ℕ) where
  -- The number of the binding after a request that succeeds.
  unbind-number :
      (n : ℕ) (drv : Driver)
      → (unbind lib bitmaps max_raw_minors n drv).0 ≡ done
      → bound_dev lib bitmaps max_raw_minors
          ((unbind lib bitmaps max_raw_minors n drv).1.raw_devices n).binding
        ≡ 0
  unfolding unbind
  unbind-number n drv e = ground (arith, e)

  rebind-number :
      (ans : Answers) (n dev : ℕ) (drv : Driver)
      → (rebind lib bitmaps max_raw_minors ans n dev drv).0 ≡ done
      → bound_dev lib bitmaps max_raw_minors
          ((rebind lib bitmaps max_raw_minors ans n dev drv).1.raw_devices n).binding
        ≡ dev
  unfolding rebind
  rebind-number ans n dev drv e = elim (Option-cases (lib.bdget dev)) [
    | inl f ↦ absurd (ground (arith, e, f))
    | inr (bdev, f) ↦ ground (arith, e, f, lib.bdget-bd_dev dev bdev f)
  ]

  bind_set-number :
      (ans : Answers) (n ma mi : ℕ) (drv : Driver)
      → (bind_set lib bitmaps max_raw_minors ans n ma mi drv).0 ≡ done
      → bound_dev lib bitmaps max_raw_minors
          ((bind_set lib bitmaps max_raw_minors ans n ma mi drv).1.raw_devices n).binding
        ≡ lib.mkdev ma mi
  bind_set-number ans n ma mi drv e =
      elim (Bool-cases (accepted lib bitmaps max_raw_minors ans n ma mi drv)) [
        | inr h ↦ absurd ((bind_set-refused lib bitmaps max_raw_minors ans n ma mi drv h).1 e)
        | inl h ↦ ground (
          arith,
          e,
          bind_set-accepted lib bitmaps max_raw_minors ans n ma mi drv h,
          unbind-number n drv,
          rebind-number ans n (lib.mkdev ma mi) drv,
        )
      ]

  -- After a request to bind or to unbind that succeeds, a request for the binding of the same raw
  -- device returns exactly the major and minor number that were set, and changes nothing.
  pub setbind-getbind :
      (ans ans' : Answers) (n ma mi : ℕ) (drv : Driver)
      → let (r, drv') =
          raw_ctl_ioctl lib bitmaps max_raw_minors ans (setbind (some (n, ma, mi))) drv in
        r ≡ done
        → raw_ctl_ioctl lib bitmaps max_raw_minors ans' (getbind (some n) true) drv'
          ≡ (found ma mi, drv')
  unfolding raw_ctl_ioctl bind_get
  setbind-getbind ans ans' n ma mi drv e =
      elim (Bool-cases (accepted lib bitmaps max_raw_minors ans n ma mi drv)) [
        | inr h ↦ absurd ((bind_set-refused lib bitmaps max_raw_minors ans n ma mi drv h).1 e)
        | inl h ↦
            let right : (lib.major (lib.mkdev ma mi) ≡ ma) × (lib.minor (lib.mkdev ma mi) ≡ mi) =
              ground (arith, h) in
            let good : bad_number lib bitmaps max_raw_minors n ≡ false = ground (arith, h) in
            ground (arith, good, bind_set-number ans n ma mi drv e, right)
      ]

  -- Binding a bound device anew, where it succeeds, replaces the binding but does not put the old
  -- block device back: it stays opened at least as often as before.
  pub setbind-keeps_opened :
      (ans : Answers) (n ma mi old : ℕ) (drv : Driver)
      → (drv.raw_devices n).binding ≡ some old
      → lib.mkdev ma mi ≢ 0
      → let (r, drv') =
          raw_ctl_ioctl lib bitmaps max_raw_minors ans (setbind (some (n, ma, mi))) drv in
        r ≡ done
        → ((drv'.raw_devices n).binding ≡ lib.bdget (lib.mkdev ma mi))
          × (drv.opened old ≤ drv'.opened old)
  unfolding raw_ctl_ioctl bind_set unbind rebind
  setbind-keeps_opened ans n ma mi old drv b z e = ground (arith, b, z, e)
