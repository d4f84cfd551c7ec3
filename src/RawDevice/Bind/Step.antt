-- ===== src/RawDevice/Bind/Step.antt =====
-- Calls on the control device, and files of the raw devices that are opened and closed. `files` is the
-- number of open files of each minor.
use fast_map.Common.{ℕ, zero, suc, ◌+◌, ◌-◌, ◌^◌, ◌<◌, ◌≡◌, ◌≢◌, ◌==◌, if◌then◌else◌, none, some}
use fast_map.RawDevice.Bitmap.{BitmapLib}
use fast_map.RawDevice.Bind.{
  BlockLib, Answers, Raw, Driver, done, oops, Control, raw_ctl_ioctl, raw_open, raw_release_node,
}

abbrev pub set_files : (ℕ → ℕ) → ℕ → ℕ → ℕ → ℕ
set_files files n k = λ m. if m == n then k else files m

abbrev pub State : Type 0
State = Driver × (ℕ → ℕ)

abbrev pub is_bound : Raw → ℕ
is_bound raw = elim raw.binding [ none ↦ 0 | some b ↦ 1 ]

-- How many of the first `n` devices are bound.
abbrev pub bound_below : (ℕ → Raw) → ℕ → ℕ
bound_below raws zero = 0
bound_below raws (suc n) = bound_below raws n + is_bound (raws n)

module _ (lib : BlockLib) (bitmaps : BitmapLib) (max_raw_minors : ℕ) where
  pub data Step : State → State → Type 0 where
    control :
        {drv : Driver} {files : ℕ → ℕ} (ans : Answers) (c : Control lib bitmaps max_raw_minors)
        → (raw_ctl_ioctl lib bitmaps max_raw_minors ans c drv).0 ≢ oops
        → Step (drv, files) ((raw_ctl_ioctl lib bitmaps max_raw_minors ans c drv).1, files)
    opens :
        {drv : Driver} {files : ℕ → ℕ} (ans : Answers) (n : ℕ)
        → (n ≢ 0) × (n < max_raw_minors) × (files n + 1 < 2 ^ 31)
        → (raw_open lib bitmaps max_raw_minors ans n drv).0 ≡ done
        → Step
            (drv, files)
            ((raw_open lib bitmaps max_raw_minors ans n drv).1, set_files files n (files n + 1))
    open_fails :
        {drv : Driver} {files : ℕ → ℕ} (ans : Answers) (n : ℕ)
        → (raw_open lib bitmaps max_raw_minors ans n drv).0 ≢ done
        → Step (drv, files) ((raw_open lib bitmaps max_raw_minors ans n drv).1, files)
    closes :
        {drv : Driver} {files : ℕ → ℕ} (n : ℕ)
        → 0 < files n
        → Step
            (drv, files)
            ((raw_release_node lib bitmaps max_raw_minors n drv).1, set_files files n (files n - 1))

  pub data Reach (s : State) : State → Type 0 where
    start : Reach s s
    next : {s' s'' : State} → Reach s s' → Step s' s'' → Reach s s''

  -- The use count is the number of open files; an open device stays bound and its node has the mapping
  -- of the block device; the module has a reference for each bound device.
  pub record IsBoundRight (drv : Driver) (files : ℕ → ℕ) : Type 0 where
    pub counted : (n : ℕ) → (drv.raw_devices n).inuse ≡ files n
    pub few : (n : ℕ) → files n < 2 ^ 31
    pub open_bound :
        (n : ℕ)
        → 0 < files n
        → ((drv.raw_devices n).binding ≢ none)
          × ((drv.raw_devices n).i_mapping ≡ (drv.raw_devices n).binding)
    pub closed : (n : ℕ) → files n ≡ 0 → (drv.raw_devices n).i_mapping ≡ none
    pub refs : drv.module_refs ≡ bound_below drv.raw_devices max_raw_minors
