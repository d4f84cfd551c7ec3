-- ===== src/RawDevice/Bind/Kept.antt =====
-- Every call keeps the use counts, the bindings of open devices and the references to the module.
use fast_map.Common.{
  ℕ, zero, suc, ◌+◌, ◌-◌, ◌^◌, ◌<◌, ◌≡◌, ◌≢◌, refl, sym, ap, ◌∙◌, subst, none, some, arith,
}
use fast_map.RawDevice.Bitmap.{BitmapLib}
use fast_map.RawDevice.Bind.{
  BlockLib, Answers, Raw, Driver, done, Control, setbind, getbind, unknown, unbind, rebind,
  bind_set, raw_ctl_ioctl, raw_open, raw_release_node,
}
use fast_map.RawDevice.Bind.Step.{
  set_files, State, bound_below, Step, control, opens, open_fails, closes, Reach, start, next,
  IsBoundRight,
}
use fast_map.RawDevice.Bind.Accepted.{bound_below-same, quiet-IsBoundRight, bind_set-IsBoundRight}

module _ (lib : BlockLib) (bitmaps : BitmapLib) (max_raw_minors : ℕ) where
  opened-IsBoundRight :
      (ans : Answers) (drv : Driver) (files : ℕ → ℕ) (n : ℕ)
      → n ≢ 0
      → n < max_raw_minors
      → files n + 1 < 2 ^ 31
      → IsBoundRight lib bitmaps max_raw_minors drv files
      → (raw_open lib bitmaps max_raw_minors ans n drv).0 ≡ done
      → IsBoundRight lib bitmaps max_raw_minors
          (raw_open lib bitmaps max_raw_minors ans n drv).1
          (set_files files n (files n + 1))
  unfolding raw_open
  opened-IsBoundRight ans drv files n nz l few v e =
      let drv' = (raw_open lib bitmaps max_raw_minors ans n drv).1 in
      let same_refs : drv'.module_refs ≡ drv.module_refs = ground arith in
      let same_binding : (m : ℕ) → (drv'.raw_devices m).binding ≡ (drv.raw_devices m).binding =
        λ m. ground arith in
      record {
        counted = λ m. ground (arith, v.counted m, v.counted n, e, nz, few);
        few = λ m. ground (arith, v.few m, few);
        open_bound = λ m h. ground (arith, v.counted m, v.open_bound m, v.closed m, e, nz, few);
        closed = λ m h. ground (arith, v.closed m, h);
        refs =
            same_refs
            ∙ v.refs
            ∙ sym (bound_below-same drv.raw_devices (drv'.raw_devices) max_raw_minors same_binding);
      }

  open_failed-IsBoundRight :
      (ans : Answers) (drv : Driver) (files : ℕ → ℕ) (n : ℕ)
      → IsBoundRight lib bitmaps max_raw_minors drv files
      → (raw_open lib bitmaps max_raw_minors ans n drv).0 ≢ done
      → IsBoundRight lib bitmaps max_raw_minors
          (raw_open lib bitmaps max_raw_minors ans n drv).1
          files
  unfolding raw_open
  open_failed-IsBoundRight ans drv files n v e =
      let drv' = (raw_open lib bitmaps max_raw_minors ans n drv).1 in
      let same : drv'.raw_devices ≡ drv.raw_devices = ground (arith, e) in
      let same_refs : drv'.module_refs ≡ drv.module_refs = ground arith in
      quiet-IsBoundRight lib bitmaps max_raw_minors drv drv' files v
        (λ m. ap (λ (r : ℕ → Raw). (r m).inuse) same)
        (λ m. ap (λ (r : ℕ → Raw). (r m).i_mapping) same)
        (λ m h. ap (λ (r : ℕ → Raw). (r m).binding) same)
        (same_refs ∙ v.refs ∙ ap (λ (r : ℕ → Raw). bound_below r max_raw_minors) (sym same))

  closed-IsBoundRight :
      (drv : Driver) (files : ℕ → ℕ) (n : ℕ)
      → 0 < files n
      → IsBoundRight lib bitmaps max_raw_minors drv files
      → IsBoundRight lib bitmaps max_raw_minors
          (raw_release_node lib bitmaps max_raw_minors n drv).1
          (set_files files n (files n - 1))
  unfolding raw_release_node
  closed-IsBoundRight drv files n p v =
      let drv' = (raw_release_node lib bitmaps max_raw_minors n drv).1 in
      let bound = (v.open_bound n p).0 in
      let same_refs : drv'.module_refs ≡ drv.module_refs = ground arith in
      let same_binding : (m : ℕ) → (drv'.raw_devices m).binding ≡ (drv.raw_devices m).binding =
        λ m. ground arith in
      record {
        counted = λ m. ground (arith, v.counted m, v.counted n, v.few n, bound, p);
        few = λ m. ground (arith, v.few m);
        open_bound = λ m h. ground (arith, v.counted m, v.open_bound m, v.few n, bound, p, h);
        closed = λ m h. ground (arith, v.counted m, v.closed m, v.few n, bound, p, h);
        refs =
            same_refs
            ∙ v.refs
            ∙ sym (bound_below-same drv.raw_devices (drv'.raw_devices) max_raw_minors same_binding);
      }

  control-IsBoundRight :
      (ans : Answers) (c : Control lib bitmaps max_raw_minors) (drv : Driver) (files : ℕ → ℕ)
      → IsBoundRight lib bitmaps max_raw_minors drv files
      → IsBoundRight lib bitmaps max_raw_minors
          (raw_ctl_ioctl lib bitmaps max_raw_minors ans c drv).1
          files
  unfolding raw_ctl_ioctl
  control-IsBoundRight ans (setbind none) drv files v = v
  control-IsBoundRight ans (setbind (some (n, ma, mi))) drv files v =
      bind_set-IsBoundRight lib bitmaps max_raw_minors ans n ma mi drv files v
  control-IsBoundRight ans (getbind none ok) drv files v = v
  control-IsBoundRight ans (getbind (some n) ok) drv files v =
      subst (λ d. IsBoundRight lib bitmaps max_raw_minors d files) {x = drv} (ground arith) v
  control-IsBoundRight ans unknown drv files v = v

  Step-IsBoundRight :
      {s s' : State}
      → Step lib bitmaps max_raw_minors s s'
      → IsBoundRight lib bitmaps max_raw_minors s.0 s.1
      → IsBoundRight lib bitmaps max_raw_minors s'.0 s'.1
  Step-IsBoundRight (control {drv} {files} ans c h) v = control-IsBoundRight ans c drv files v
  Step-IsBoundRight (opens {drv} {files} ans n (nz, l, few) e) v =
      opened-IsBoundRight ans drv files n nz l few v e
  Step-IsBoundRight (open_fails {drv} {files} ans n e) v =
      open_failed-IsBoundRight ans drv files n v e
  Step-IsBoundRight (closes {drv} {files} n p) v = closed-IsBoundRight drv files n p v

  -- `init` of the driver: `raw_devices` are zeroes, and no file is open.
  pub record IsFresh (drv : Driver) : Type 0 where
    pub unused : (n : ℕ) → (drv.raw_devices n).inuse ≡ 0
    pub not_bound : (n : ℕ) → (drv.raw_devices n).binding ≡ none
    pub not_mapped : (n : ℕ) → (drv.raw_devices n).i_mapping ≡ none
    pub no_refs : drv.module_refs ≡ 0

  none_below :
      (raws : ℕ → Raw) (k : ℕ) → ((n : ℕ) → (raws n).binding ≡ none) → bound_below raws k ≡ 0
  none_below raws zero h = refl
  none_below raws (suc k) h = ground (arith, h k, none_below raws k h)

  fresh-IsBoundRight :
      (drv : Driver) → IsFresh drv → IsBoundRight lib bitmaps max_raw_minors drv (λ n. 0)
  fresh-IsBoundRight drv f = record {
    counted = f.unused;
    few = λ n. omega arith;
    open_bound = λ n h. absurd (omega (arith, h));
    closed = λ n h. f.not_mapped n;
    refs = f.no_refs ∙ sym (none_below drv.raw_devices max_raw_minors f.not_bound);
  }

  pub Reach-IsBoundRight :
      {s s' : State}
      → Reach lib bitmaps max_raw_minors s s'
      → IsBoundRight lib bitmaps max_raw_minors s.0 s.1
      → IsBoundRight lib bitmaps max_raw_minors s'.0 s'.1
  Reach-IsBoundRight start v = v
  Reach-IsBoundRight (next r s) v = Step-IsBoundRight s (Reach-IsBoundRight r v)

  -- From devices that are not in use, bound or mapped and no reference to the module, after any
  -- sequence of control requests that use no null pointer, opens of raw devices with fewer than
  -- 2^31 files each, and closes: the use count of each device is the number of its open files, a
  -- device with an open file is bound and its node has the mapping of that block device, the node
  -- of one without has its own, and the module has one reference for each bound device.
  pub bindings_kept :
      (drv : Driver) (s : State)
      → IsFresh drv
      → Reach lib bitmaps max_raw_minors (drv, λ n. 0) s
      → IsBoundRight lib bitmaps max_raw_minors s.0 s.1
  bindings_kept drv s f r = Reach-IsBoundRight r (fresh-IsBoundRight drv f)

  -- No request to the control device, whatever it is and whatever the kernel answers, changes any
  -- data of a raw device that is in use.
  pub raw_ctl_ioctl-busy :
      (ans : Answers) (c : Control lib bitmaps max_raw_minors) (drv : Driver) (n : ℕ)
      → 0 < (drv.raw_devices n).inuse
      → ((raw_ctl_ioctl lib bitmaps max_raw_minors ans c drv).1).raw_devices n ≡ drv.raw_devices n
  unfolding raw_ctl_ioctl bind_set unbind rebind
  raw_ctl_ioctl-busy ans (setbind none) drv n h = refl
  raw_ctl_ioctl-busy ans (setbind (some (m, ma, mi))) drv n h = ground (arith, h)
  raw_ctl_ioctl-busy ans (getbind none ok) drv n h = refl
  raw_ctl_ioctl-busy ans (getbind (some m) ok) drv n h = ground arith
  raw_ctl_ioctl-busy ans unknown drv n h = refl
