-- ===== src/RawDevice/Bind/Accepted.antt =====
-- Control requests that are refused, and those that bind or unbind an idle device.
use fast_map.Common.{
  ℕ, zero, suc, ◌+◌, ◌-◌, ◌≤◌, ◌<◌, ◌≡◌, ◌≢◌, refl, sym, ◌∙◌, subst, Bool, true, false, not, ◌&&◌,
  ◌==◌, if◌then◌else◌, none, some, arith, inl, inr, Option-cases, Bool-cases,
}
use fast_map.RawDevice.Bitmap.{BitmapLib}
use fast_map.RawDevice.Ioctl.{Device}
use fast_map.RawDevice.Bind.{
  BlockLib, Answers, Raw, Driver, Result, done, bad_number, new_device, unref, unbound, bound_to,
  unbind, rebind, bind_set, set_raw,
}
use fast_map.RawDevice.Bind.Step.{is_bound, bound_below, IsBoundRight}

bound_below-above :
    (raws : ℕ → Raw) (n : ℕ) (r : Raw) (k : ℕ)
    → k ≤ n
    → bound_below (λ m. if m == n then r else raws m) k ≡ bound_below raws k
bound_below-above raws n r zero h = refl
bound_below-above raws n r (suc k) h = ground (arith, bound_below-above raws n r k)

bound_below-set :
    (raws : ℕ → Raw) (n : ℕ) (r : Raw) (k : ℕ)
    → n < k
    → bound_below (λ m. if m == n then r else raws m) k + is_bound (raws n)
      ≡ bound_below raws k + is_bound r
bound_below-set raws n r zero h = absurd (omega arith)
bound_below-set raws n r (suc k) h =
    ground (arith, bound_below-set raws n r k, bound_below-above raws n r k)

pub bound_below-same :
    (raws raws' : ℕ → Raw) (k : ℕ)
    → ((m : ℕ) → (raws' m).binding ≡ (raws m).binding)
    → bound_below raws' k ≡ bound_below raws k
bound_below-same raws raws' zero h = refl
bound_below-same raws raws' (suc k) h = ground (arith, h k, bound_below-same raws raws' k h)

module _ (lib : BlockLib) (bitmaps : BitmapLib) (max_raw_minors : ℕ) where
  -- A call that leaves the use counts and mappings, and the open devices altogether.
  pub quiet-IsBoundRight :
      (drv drv' : Driver) (files : ℕ → ℕ)
      → IsBoundRight lib bitmaps max_raw_minors drv files
      → ((n : ℕ) → (drv'.raw_devices n).inuse ≡ (drv.raw_devices n).inuse)
      → ((n : ℕ) → (drv'.raw_devices n).i_mapping ≡ (drv.raw_devices n).i_mapping)
      → ((n : ℕ)
          → 0 < (drv.raw_devices n).inuse
          → (drv'.raw_devices n).binding ≡ (drv.raw_devices n).binding)
      → drv'.module_refs ≡ bound_below drv'.raw_devices max_raw_minors
      → IsBoundRight lib bitmaps max_raw_minors drv' files
  quiet-IsBoundRight drv drv' files v u m b r = record {
    counted = λ n. u n ∙ v.counted n;
    few = v.few;
    open_bound = λ n h.
        let same = b n (ground (arith, v.counted n, h)) in
        ground (arith, v.open_bound n h, m n, same);
    closed = λ n h. m n ∙ v.closed n h;
    refs = r;
  }

  -- The references after the binding of one device was replaced.
  refs-set :
      (drv : Driver) (n : ℕ) (raw : Raw) (k : ℕ)
      → n < max_raw_minors
      → drv.module_refs ≡ bound_below drv.raw_devices max_raw_minors
      → k + is_bound (drv.raw_devices n) ≡ drv.module_refs + is_bound raw
      → k ≡ bound_below (set_raw drv n raw) max_raw_minors
  refs-set drv n raw k l r e = omega (arith, bound_below-set drv.raw_devices n raw max_raw_minors l)

  at_least : (raws : ℕ → Raw) (n k : ℕ) → n < k → is_bound (raws n) ≤ bound_below raws k
  at_least raws n zero h = absurd (omega arith)
  at_least raws n (suc k) h = ground (arith, at_least raws n k)

  unbound-IsBoundRight :
      (drv : Driver) (files : ℕ → ℕ) (n bdev : ℕ)
      → n < max_raw_minors
      → IsBoundRight lib bitmaps max_raw_minors drv files
      → (drv.raw_devices n).inuse ≡ 0
      → (drv.raw_devices n).binding ≡ some bdev
      → IsBoundRight lib bitmaps max_raw_minors (unbound n bdev drv) files
  unbound-IsBoundRight drv files n bdev l v z e =
      let one : is_bound (drv.raw_devices n) ≡ 1 = ground (arith, e) in
      let refs : unref drv (drv.raw_devices n) ≡ drv.module_refs - 1 = ground (arith, e) in
      quiet-IsBoundRight drv (unbound n bdev drv) files v (λ m. ground arith) (λ m. ground arith)
        (λ m h. ground (arith, z, h))
        (refs-set drv n (record (drv.raw_devices n) { binding = none })
          (unref drv (drv.raw_devices n)) l v.refs
          (omega (arith, one, refs, v.refs, at_least drv.raw_devices n max_raw_minors l)))

  bound_to-IsBoundRight :
      (ans : Answers) (drv : Driver) (files : ℕ → ℕ) (n dev bdev : ℕ) (device : Device)
      → n < max_raw_minors
      → IsBoundRight lib bitmaps max_raw_minors drv files
      → (drv.raw_devices n).inuse ≡ 0
      → IsBoundRight lib bitmaps max_raw_minors (bound_to ans n dev bdev device drv) files
  bound_to-IsBoundRight ans drv files n dev bdev device l v z =
      let refs : unref drv (drv.raw_devices n) + is_bound (drv.raw_devices n) ≡ drv.module_refs =
        ground (arith, v.refs, at_least drv.raw_devices n max_raw_minors l) in
      quiet-IsBoundRight drv (bound_to ans n dev bdev device drv) files v (λ m. ground arith)
        (λ m. ground arith) (λ m h. ground (arith, z, h))
        (refs-set drv n
          (record (drv.raw_devices n) { dev_id = dev; binding = some bdev; device = device })
          (unref drv (drv.raw_devices n) + 1) l v.refs (omega (arith, refs)))

  unbind-IsBoundRight :
      (drv : Driver) (files : ℕ → ℕ) (n : ℕ)
      → n < max_raw_minors
      → IsBoundRight lib bitmaps max_raw_minors drv files
      → (drv.raw_devices n).inuse ≡ 0
      → IsBoundRight lib bitmaps max_raw_minors (unbind lib bitmaps max_raw_minors n drv).1 files
  unfolding unbind
  unbind-IsBoundRight drv files n l v z = elim (Option-cases (drv.raw_devices n).binding) [
    | inl e ↦
        subst (λ d. IsBoundRight lib bitmaps max_raw_minors d files) {x = drv} (ground (arith, e)) v
    | inr (bdev, e) ↦
        subst (λ d. IsBoundRight lib bitmaps max_raw_minors d files) {x = unbound n bdev drv}
          (ground (arith, e)) (unbound-IsBoundRight drv files n bdev l v z e)
  ]

  rebind-IsBoundRight :
      (ans : Answers) (drv : Driver) (files : ℕ → ℕ) (n dev : ℕ)
      → n < max_raw_minors
      → IsBoundRight lib bitmaps max_raw_minors drv files
      → (drv.raw_devices n).inuse ≡ 0
      → IsBoundRight lib bitmaps max_raw_minors
          (rebind lib bitmaps max_raw_minors ans n dev drv).1
          files
  unfolding rebind
  rebind-IsBoundRight ans drv files n dev l v z = elim (Option-cases (lib.bdget dev)) [
    | inl e ↦
        subst (λ d. IsBoundRight lib bitmaps max_raw_minors d files) {x = drv} (ground (arith, e)) v
    | inr (bdev, e) ↦ elim (Option-cases (new_device lib bitmaps max_raw_minors ans bdev)) [
      | inl f ↦
          subst (λ d. IsBoundRight lib bitmaps max_raw_minors d files) {x = drv}
            (ground (arith, e, f)) v
      | inr (device, f) ↦
          subst (λ d. IsBoundRight lib bitmaps max_raw_minors d files)
            {x = bound_to ans n dev bdev device drv} (ground (arith, e, f))
            (bound_to-IsBoundRight ans drv files n dev bdev device l v z)
    ]
  ]

  -- The request names a raw device and a block device, and the raw device is idle.
  abbrev pub accepted : Answers → ℕ → ℕ → ℕ → Driver → Bool
  accepted ans n ma mi drv =
      not (bad_number lib bitmaps max_raw_minors n)
      && ((lib.major (lib.mkdev ma mi) == ma)
          && ((lib.minor (lib.mkdev ma mi) == mi)
              && (ans.capable
                  && (not ((ma == 0) && not (lib.mkdev ma mi == 0))
                      && ((drv.raw_devices n).inuse == 0)))))

  pub bind_set-refused :
      (ans : Answers) (n ma mi : ℕ) (drv : Driver)
      → accepted ans n ma mi drv ≡ false
      → ((bind_set lib bitmaps max_raw_minors ans n ma mi drv).1 ≡ drv)
        × ((bind_set lib bitmaps max_raw_minors ans n ma mi drv).0 ≢ done)
  unfolding bind_set
  bind_set-refused ans n ma mi drv h = ground arith

  pub bind_set-accepted :
      (ans : Answers) (n ma mi : ℕ) (drv : Driver)
      → accepted ans n ma mi drv ≡ true
      → bind_set lib bitmaps max_raw_minors ans n ma mi drv ≡ (
          if lib.mkdev ma mi == 0
          then unbind lib bitmaps max_raw_minors n drv
          else rebind lib bitmaps max_raw_minors ans n (lib.mkdev ma mi) drv)
  unfolding bind_set
  bind_set-accepted ans n ma mi drv h = ground arith

  pub bind_set-IsBoundRight :
      (ans : Answers) (n ma mi : ℕ) (drv : Driver) (files : ℕ → ℕ)
      → IsBoundRight lib bitmaps max_raw_minors drv files
      → IsBoundRight lib bitmaps max_raw_minors
          (bind_set lib bitmaps max_raw_minors ans n ma mi drv).1
          files
  bind_set-IsBoundRight ans n ma mi drv files v = elim (Bool-cases (accepted ans n ma mi drv)) [
    | inr h ↦
        subst (λ d. IsBoundRight lib bitmaps max_raw_minors d files)
          (sym (bind_set-refused ans n ma mi drv h).0) v
    | inl h ↦
        let idle : (drv.raw_devices n).inuse ≡ 0 = ground (arith, h) in
        let few : n < max_raw_minors = ground (arith, h) in
        subst (λ r. IsBoundRight lib bitmaps max_raw_minors r.1 files)
          {x = if lib.mkdev ma mi == 0 then _ else _} (sym (bind_set-accepted ans n ma mi drv h))
          (either (lib.mkdev ma mi == 0) _ _ (unbind-IsBoundRight drv files n few v idle)
            (rebind-IsBoundRight ans drv files n (lib.mkdev ma mi) few v idle))
  ]
    where
      either :
          (b : Bool) (x y : Result × Driver)
          → IsBoundRight lib bitmaps max_raw_minors x.1 files
          → IsBoundRight lib bitmaps max_raw_minors y.1 files
          → IsBoundRight lib bitmaps max_raw_minors (if b then x else y).1 files
      either true x y vx vy = vx
      either false x y vx vy = vy
