-- ===== src/RawDevice/Ioctl/Effect.antt =====
-- `raw_ioctl` does to the bitmap what the command means, and nothing outside.
use fast_map.Common.{
  ℕ, zero, suc, ◌+◌, ◌-◌, ◌%◌, ◌^◌, ◌≤◌, ◌<◌, ◌≡◌, refl, sym, Bool, true, false, not, if◌then◌else◌,
  List, [], ◌∷◌, none, some, arith, All,
}
use fast_map.RawDevice.Bitmap.{Bits, BitmapLib, in_range, words_end}
use fast_map.RawDevice.Ioctl.{
  Device, Request, foreign, out_of_range, set_page_priority, change_page_priority, getpage_stats,
  dontneed, prefetch, test_cap, reset_stats, get_stats, zero_full, fill_full, zero_page, fill_page,
  test_page, zero_range, fill_range, get_devpgnum, flip_copy_bitmap, zero_pages, unknown, Reply,
  copied_bits, flip_loop, flip_copy, zero_loop, raw_ioctl,
}
use fast_map.RawDevice.Ioctl.Spec.{
  is_ok, among, bit_after, NoWrap, WritesInside, PagesInside, is_zero_pages,
}

module _ (lib : BitmapLib) where
  flip_loop_lem :
      (n i offset : ℕ) (bpage bits : Bits) (j : ℕ)
      → offset + i + n < 2 ^ 64
      → flip_loop lib n i offset bpage bits j
        ≡ (if in_range (offset + i) n j then not (bpage (j - offset)) else bits j)
  unfolding flip_loop
  flip_loop_lem zero i offset bpage bits j h = ground arith
  flip_loop_lem (suc n) i offset bpage bits j h =
      let at : (offset + i) % 2 ^ 64 ≡ offset + i = omega arith in
      ground (
        arith,
        at,
        lib.change_bit_lem i bpage i,
        lib.change_bit_lem i bpage (j - offset),
        lib.set_bit_lem (offset + i) bits j,
        lib.clear_bit_lem (offset + i) bits j,
        flip_loop_lem n (suc i) offset (lib.change_bit i bpage) (lib.set_bit (offset + i) bits) j,
        flip_loop_lem n (suc i) offset (lib.change_bit i bpage) (lib.clear_bit (offset + i) bits) j,
      )

  zero_loop-bits :
      (blocks : List ℕ) (d : Device) (j : ℕ)
      → let (r, d') = zero_loop lib blocks d in
        is_ok r ≡ true → d'.bitmap j ≡ (if among j blocks then false else d.bitmap j)
  unfolding zero_loop
  zero_loop-bits [] d j = λ h. refl
  zero_loop-bits (b ∷ blocks) d j = ground (
    arith,
    lib.clear_bit_lem b d.bitmap j,
    zero_loop-bits blocks (record d { bitmap = lib.clear_bit b d.bitmap }) j,
  )

  zero_loop-outside :
      (blocks : List ℕ) (d : Device) (j size : ℕ)
      → All (λ p. p < size) blocks
      → size ≤ j
      → (zero_loop lib blocks d).1.bitmap j ≡ d.bitmap j
  unfolding zero_loop
  zero_loop-outside [] d j size a h = refl
  zero_loop-outside (b ∷ blocks) d j size a h = ground (
    arith,
    a.0,
    lib.clear_bit_lem b d.bitmap j,
    zero_loop-outside blocks (record d { bitmap = lib.clear_bit b d.bitmap }) j size a.1 h,
  )

  zero_loop-size :
      (blocks : List ℕ) (d : Device) → (zero_loop lib blocks d).1.bitmap_size ≡ d.bitmap_size
  unfolding zero_loop
  zero_loop-size [] d = refl
  zero_loop-size (b ∷ blocks) d =
      ground (arith, zero_loop-size blocks (record d { bitmap = lib.clear_bit b d.bitmap }))

  words_end_above : (n : ℕ) → n ≤ words_end n
  words_end_above n = omega arith

  flip_copy_lem :
      (n offset : ℕ) (bpage : Bits) (d : Device)
      → offset + n < 2 ^ 64
      → let (r, d') = flip_copy lib n offset bpage d in
        (is_ok r ≡ true
          → (j : ℕ) → j < d.bitmap_size
          → d'.bitmap j ≡ (if in_range offset n j then not (bpage (j - offset)) else d.bitmap j))
        × ((j : ℕ) → d.bitmap_size ≤ j → d'.bitmap j ≡ d.bitmap j)
        × (is_ok r ≡ false → d'.bitmap ≡ d.bitmap)
        × (d'.bitmap_size ≡ d.bitmap_size)
  unfolding flip_copy
  flip_copy_lem n offset bpage d w =
      let sum : (offset + n) % 2 ^ 64 ≡ offset + n = omega arith in
      let flipped = λ (j : ℕ). flip_loop_lem n 0 offset bpage d.bitmap j (omega arith) in
      (
        λ o j l. ground (arith, o, l, sum, flipped j),
        λ j l. ground (arith, l, sum, flipped j),
        λ f. ground (arith, f),
        ground arith,
      )

  -- What a command does to the bitmap, by its reply: inside, after the last word, and on errors.
  pub record Effected (req : Request) (d : Device) (r : Reply) (d' : Device) : Type 0 where
    pub inside :
        is_ok r ≡ true → (j : ℕ) → j < d.bitmap_size → d'.bitmap j ≡ bit_after req d.bitmap j
    pub outside :
        PagesInside req d.bitmap_size
        → (j : ℕ) → words_end d.bitmap_size ≤ j
        → d'.bitmap j ≡ d.bitmap j
    pub failed : is_ok r ≡ false → is_zero_pages req ≡ false → d'.bitmap ≡ d.bitmap
    pub size : d'.bitmap_size ≡ d.bitmap_size

  unchanged :
      (req : Request) (d : Device) (r : Reply)
      → (is_ok r ≡ true → (b : Bits) (j : ℕ) → bit_after req b j ≡ b j)
      → Effected req d r d
  unchanged req d r h = record {
    inside = λ o j l. sym (h o d.bitmap j);
    outside = λ q j l. refl;
    failed = λ f z. refl;
    size = refl;
  }

  -- For a bitmap of less than 2^31 bits, where offset + length or offset + 32704 of the request does
  -- not wrap and a DMAP_CHANGE_PAGE_PRIORITY names a page of the device: every command that succeeds leaves each bit of the device's pages as the command
  -- means it, a command that names only pages of the device leaves the memory after the last word
  -- of the bitmap as it was, a command that fails leaves the bitmap unchanged, except
  -- FAKE_BLK_IOC_ZERO_PAGES, and the size of the bitmap never changes.
  pub raw_ioctl-Effected :
      (cached : ℕ → Bool) (req : Request) (d : Device)
      → d.bitmap_size < 2 ^ 31
      → NoWrap req
      → WritesInside req d
      → let (r, d') = raw_ioctl lib cached req d in Effected req d r d'
  unfolding raw_ioctl
  raw_ioctl-Effected cached (foreign none) d s w x = unchanged _ d _ (λ o b j. refl)
  raw_ioctl-Effected cached (foreign (some r)) d s w x = unchanged _ d _ (λ o b j. refl)
  raw_ioctl-Effected cached out_of_range d s w x = unchanged _ d _ (λ o b j. refl)
  raw_ioctl-Effected cached (set_page_priority none) d s w x = unchanged _ d _ (λ o b j. refl)
  raw_ioctl-Effected cached (set_page_priority (some (page, prio))) d s w x = record {
    inside = λ o j l. ground arith;
    outside = λ q j l. ground arith;
    failed = λ f z. ground arith;
    size = ground arith;
  }
  raw_ioctl-Effected cached (change_page_priority none) d s w x = unchanged _ d _ (λ o b j. refl)
  raw_ioctl-Effected cached (change_page_priority (some (page, prio))) d s w x = record {
    inside = λ o j l. ground (arith, x);
    outside = λ q j l. ground (arith, x);
    failed = λ f z. ground (arith, x);
    size = ground (arith, x);
  }
  raw_ioctl-Effected cached (getpage_stats none ok) d s w x = unchanged _ d _ (λ o b j. refl)
  raw_ioctl-Effected cached (getpage_stats (some page) true) d s w x =
      unchanged _ d _ (λ o b j. refl)
  raw_ioctl-Effected cached (getpage_stats (some page) false) d s w x =
      unchanged _ d _ (λ o b j. refl)
  raw_ioctl-Effected cached dontneed d s w x = unchanged _ d _ (λ o b j. refl)
  raw_ioctl-Effected cached prefetch d s w x = unchanged _ d _ (λ o b j. refl)
  raw_ioctl-Effected cached test_cap d s w x = unchanged _ d _ (λ o b j. refl)
  raw_ioctl-Effected cached reset_stats d s w x = unchanged _ d _ (λ o b j. refl)
  raw_ioctl-Effected cached get_stats d s w x = unchanged _ d _ (λ o b j. refl)
  raw_ioctl-Effected cached zero_full d s w x = record {
    inside = λ o j l. lib.bitmap_zero-inside d.bitmap d.bitmap_size j l;
    outside = λ q j l. lib.bitmap_zero-outside d.bitmap d.bitmap_size j l;
    failed = λ f z. absurd (ground (arith, f));
    size = refl;
  }
  raw_ioctl-Effected cached fill_full d s w x = record {
    inside = λ o j l. lib.bitmap_fill-inside d.bitmap d.bitmap_size j l;
    outside = λ q j l. lib.bitmap_fill-outside d.bitmap d.bitmap_size j l;
    failed = λ f z. absurd (ground (arith, f));
    size = refl;
  }
  raw_ioctl-Effected cached (zero_page none) d s w x =
      unchanged _ d _ (λ o. absurd (ground (arith, o)))
  raw_ioctl-Effected cached (zero_page (some num)) d s w x = record {
    inside = λ o j l. ground (arith, o, l, lib.clear_bit_lem num d.bitmap j);
    outside =
        λ q j l. ground (arith, l, words_end_above d.bitmap_size, lib.clear_bit_lem num d.bitmap j);
    failed = λ f z. ground (arith, f);
    size = ground arith;
  }
  raw_ioctl-Effected cached (fill_page none) d s w x =
      unchanged _ d _ (λ o. absurd (ground (arith, o)))
  raw_ioctl-Effected cached (fill_page (some num)) d s w x = record {
    inside = λ o j l. ground (arith, o, l, lib.set_bit_lem num d.bitmap j);
    outside =
        λ q j l. ground (arith, l, words_end_above d.bitmap_size, lib.set_bit_lem num d.bitmap j);
    failed = λ f z. ground (arith, f);
    size = ground arith;
  }
  raw_ioctl-Effected cached (test_page none) d s w x = unchanged _ d _ (λ o b j. refl)
  raw_ioctl-Effected cached (test_page (some num)) d s w x = record {
    inside = λ o j l. ground arith;
    outside = λ q j l. ground arith;
    failed = λ f z. ground arith;
    size = ground arith;
  }
  raw_ioctl-Effected cached (zero_range none) d s w x =
      unchanged _ d _ (λ o. absurd (ground (arith, o)))
  raw_ioctl-Effected cached (zero_range (some (offset, len))) d s w x =
      let sum : (offset + len) % 2 ^ 64 ≡ offset + len = omega arith in
      record {
        inside = λ o j l. ground (arith, o, l, sum, s, lib.bitmap_clear_lem d.bitmap offset len j);
        outside = λ q j l. ground (
          arith,
          l,
          sum,
          s,
          words_end_above d.bitmap_size,
          lib.bitmap_clear_lem d.bitmap offset len j,
        );
        failed = λ f z. ground (arith, f);
        size = ground arith;
      }
  raw_ioctl-Effected cached (fill_range none) d s w x =
      unchanged _ d _ (λ o. absurd (ground (arith, o)))
  raw_ioctl-Effected cached (fill_range (some (offset, len))) d s w x =
      let sum : (offset + len) % 2 ^ 64 ≡ offset + len = omega arith in
      record {
        inside = λ o j l. ground (arith, o, l, sum, s, lib.bitmap_set_lem d.bitmap offset len j);
        outside = λ q j l. ground (
          arith,
          l,
          sum,
          s,
          words_end_above d.bitmap_size,
          lib.bitmap_set_lem d.bitmap offset len j,
        );
        failed = λ f z. ground (arith, f);
        size = ground arith;
      }
  raw_ioctl-Effected cached (get_devpgnum true) d s w x = unchanged _ d _ (λ o b j. refl)
  raw_ioctl-Effected cached (get_devpgnum false) d s w x = unchanged _ d _ (λ o b j. refl)
  raw_ioctl-Effected cached (flip_copy_bitmap none) d s w x =
      unchanged _ d _ (λ o. absurd (ground (arith, o)))
  raw_ioctl-Effected cached (flip_copy_bitmap (some (offset, bpage))) d s w x =
      let (inside, outside, failed, size) = flip_copy_lem copied_bits offset bpage d w in
      record {
        inside = inside;
        outside = λ q j l. outside j (omega (arith, words_end_above d.bitmap_size));
        failed = λ f z. failed f;
        size = size;
      }
  raw_ioctl-Effected cached (zero_pages none) d s w x =
      unchanged _ d _ (λ o. absurd (ground (arith, o)))
  raw_ioctl-Effected cached (zero_pages (some blocks)) d s w x = record {
    inside = λ o j l. zero_loop-bits blocks d j o;
    outside = λ q j l.
        zero_loop-outside blocks d j d.bitmap_size q (omega (arith, words_end_above d.bitmap_size));
    failed = λ f z. absurd (ground (arith, z));
    size = zero_loop-size blocks d;
  }
  raw_ioctl-Effected cached unknown d s w x = unchanged _ d _ (λ o b j. refl)
