-- ===== src/Write/Merge/Overrun.antt =====
-- Where more consecutive pages follow a full request, the next one starts a page too early.
use fast_map.Common.{
  ℕ, zero, suc, ◌+◌, ◌-◌, ◌%◌, ◌^◌, ◌≤◌, ◌<◌, ◌≡◌, ◌≢◌, refl, List, [], ◌∷◌, length, get_or, set,
  take, replicate, arith, length-set, length-replicate, get_or-set, ◌==◌, if◌then◌else◌, count,
  Bool-cases, ==→eq, ==-false→ne, count-append, ◌∙◌, subst, sym, inl, inr,
}
use mathlib.Core.List.{flatten}
use fast_map.Write.Merge.{merge_step, merge_loop, merges, requests, write_async}

-- The indices go on one by one after `base`.
abbrev pub Consecutive : ℕ → List ℕ → Type 0
Consecutive base [] = Unit
Consecutive base (x ∷ xs) = ((base + 1) % 2 ^ 64 ≡ x) × Consecutive x xs

module _ (bio_max base x i b : ℕ) (arr : List ℕ) where
  abbrev next_base : ℕ
  next_base = (merge_step bio_max base x i b arr).0

  abbrev next_arr : List ℕ
  next_arr = (merge_step bio_max base x i b arr).1

  length-step : length next_arr ≡ length arr
  unfolding merge_step
  length-step = ground (
    arith,
    length-set arr b (get_or arr b 0 + 1),
    length-set (set arr b (get_or arr b 0 + 1)) i (get_or (set arr b (get_or arr b 0 + 1)) i 0 - 1),
  )

  module _ (e : (base + 1) % 2 ^ 64 ≡ x) (below : b < i) (inside : i < length arr) where
    step-entry :
        (j : ℕ)
        → get_or next_arr j 0 ≡ (
            if i == j
            then get_or arr i 0 - 1
            else if b == j
            then get_or arr b 0 + 1
            else get_or arr j 0)
    unfolding merge_step
    step-entry j = ground (
      arith,
      length-set arr b (get_or arr b 0 + 1),
      get_or-set arr b j (get_or arr b 0 + 1) 0,
      get_or-set arr b i (get_or arr b 0 + 1) 0,
      get_or-set (set arr b (get_or arr b 0 + 1)) i j
          (get_or (set arr b (get_or arr b 0 + 1)) i 0 - 1) 0,
    )

    step-base : next_base ≡ (if get_or arr b 0 + 1 == bio_max then i else b)
    unfolding merge_step
    step-base = ground (
      arith,
      length-set arr b (get_or arr b 0 + 1),
      get_or-set arr b b (get_or arr b 0 + 1) 0,
      get_or-set arr b i (get_or arr b 0 + 1) 0,
      get_or-set (set arr b (get_or arr b 0 + 1)) i b
          (get_or (set arr b (get_or arr b 0 + 1)) i 0 - 1) 0,
    )

length-merge_loop :
    (bio_max base : ℕ) (xs : List ℕ) (i b : ℕ) (arr : List ℕ)
    → length (merge_loop bio_max base xs i b arr) ≡ length arr
unfolding merge_loop
length-merge_loop bio_max base [] i b arr = refl
length-merge_loop bio_max base (x ∷ xs) i b arr =
    length-merge_loop bio_max x xs (suc i) (next_base bio_max base x i b arr)
      (next_arr bio_max base x i b arr)
    ∙ length-step bio_max base x i b arr

get_or-ones : (n j : ℕ) → j < n → get_or {A = ℕ} (replicate n 1) j 0 ≡ 1
get_or-ones zero j h = absurd (omega arith)
get_or-ones (suc n) zero h = refl
get_or-ones (suc n) (suc j) h = get_or-ones n j (omega arith)

-- Before page `i`, in the first request.
record First (i : ℕ) (arr : List ℕ) : Type 0 where
  head : get_or arr 0 0 ≡ i
  others : (j : ℕ) → 0 < j → j < i → get_or arr j 0 ≡ 0
  fresh : (j : ℕ) → i ≤ j → j < length arr → get_or arr j 0 ≡ 1
  begun : 0 < i

-- Before page `i`, once a request has been full: the open request ends before page i - 1.
record Lags (i b : ℕ) (arr : List ℕ) : Type 0 where
  behind : b + get_or arr b 0 + 1 ≤ i
  covered : (j : ℕ) → j < i → j + get_or arr j 0 ≤ i
  fresh : (j : ℕ) → i ≤ j → j < length arr → get_or arr j 0 ≡ 1

-- No request reaches the last page.
abbrev Misses : List ℕ → Type 0
Misses arr = (j : ℕ) → j < length arr → j + get_or arr j 0 < length arr

module _ (bio_max : ℕ) where
  First-step :
      (base x i : ℕ) (arr : List ℕ)
      → (base + 1) % 2 ^ 64 ≡ x
      → i < length arr
      → First i arr
      → i + 1 ≢ bio_max
      → ((merge_step bio_max base x i 0 arr).0 ≡ 0)
        × First (suc i) (merge_step bio_max base x i 0 arr).1
  First-step base x i arr e inside v short =
      let at = step-entry bio_max base x i 0 arr e v.begun inside in
      let to = step-base bio_max base x i 0 arr e v.begun inside in
      let len = length-step bio_max base x i 0 arr in
      (
        ground (arith, to, v.head),
        record {
          head = ground (arith, at 0, v.head, v.begun);
          others = λ j p q. ground (arith, at j, v.others j, v.fresh i, v.begun);
          fresh = λ j p q. ground (arith, at j, v.fresh j, len, v.begun);
          begun = omega arith;
        },
      )

  First-full :
      (base x i : ℕ) (arr : List ℕ)
      → (base + 1) % 2 ^ 64 ≡ x
      → i < length arr
      → First i arr
      → i + 1 ≡ bio_max
      → Lags (suc i) (merge_step bio_max base x i 0 arr).0 (merge_step bio_max base x i 0 arr).1
  First-full base x i arr e inside v full =
      let at = step-entry bio_max base x i 0 arr e v.begun inside in
      let to = step-base bio_max base x i 0 arr e v.begun inside in
      let len = length-step bio_max base x i 0 arr in
      record {
        behind = ground (arith, to, at i, v.head, v.fresh i, v.begun);
        covered = λ j p. ground (arith, at j, v.head, v.others j, v.fresh i, v.begun);
        fresh = λ j p q. ground (arith, at j, v.fresh j, len, v.begun);
      }

  Lags-step :
      (base x i b : ℕ) (arr : List ℕ)
      → (base + 1) % 2 ^ 64 ≡ x
      → i < length arr
      → Lags i b arr
      → Lags (suc i) (merge_step bio_max base x i b arr).0 (merge_step bio_max base x i b arr).1
        × ((j : ℕ) → j < suc i → j + get_or (merge_step bio_max base x i b arr).1 j 0 < suc i)
  Lags-step base x i b arr e inside v =
      let below : b < i = omega (arith, v.behind) in
      let at = step-entry bio_max base x i b arr e below inside in
      let to = step-base bio_max base x i b arr e below inside in
      let len = length-step bio_max base x i b arr in
      (
        record {
          behind = ground (arith, to, at i, at b, v.fresh i, v.behind);
          covered = λ j p. ground (arith, at j, v.covered j, v.fresh i, v.behind);
          fresh = λ j p q. ground (arith, at j, v.fresh j, len, below);
        },
        λ j p. ground (arith, at j, v.covered j, v.fresh i, v.behind),
      )

  merge_loop-Lags :
      (base x : ℕ) (xs : List ℕ) (i b : ℕ) (arr : List ℕ)
      → Consecutive base (x ∷ xs)
      → i + suc (length xs) ≡ length arr
      → Lags i b arr
      → Misses (merge_loop bio_max base (x ∷ xs) i b arr)
  unfolding merge_loop
  merge_loop-Lags base x [] i b arr c n v =
      let len = length-step bio_max base x i b arr in
      let (lags, ends) = Lags-step base x i b arr c.0 (omega arith) v in
      λ j h. omega (arith, ends j (omega arith))
  merge_loop-Lags base x (y ∷ ys) i b arr c n v =
      let len = length-step bio_max base x i b arr in
      let (lags, ends) = Lags-step base x i b arr c.0 (omega arith) v in
      merge_loop-Lags x y ys (suc i) (merge_step bio_max base x i b arr).0
        (merge_step bio_max base x i b arr).1 c.1 (omega arith) lags

  merge_loop-First :
      (base : ℕ) (xs : List ℕ) (i : ℕ) (arr : List ℕ)
      → Consecutive base xs
      → i + length xs ≡ length arr
      → bio_max < length arr
      → i < bio_max
      → First i arr
      → Misses (merge_loop bio_max base xs i 0 arr)
  unfolding merge_loop
  merge_loop-First base [] i arr c n room short v = absurd (omega arith)
  merge_loop-First base (x ∷ []) i arr c n room short v = absurd (omega arith)
  merge_loop-First base (x ∷ y ∷ ys) i arr c n room short v =
      let len = length-step bio_max base x i 0 arr in
      elim (Bool-cases (i + 1 == bio_max)) [
        | inl full ↦
            merge_loop-Lags x y ys (suc i) (merge_step bio_max base x i 0 arr).0
              (merge_step bio_max base x i 0 arr).1 c.1 (omega arith)
              (First-full base x i arr c.0 (omega arith) v (==→eq _ _ full))
        | inr more ↦
            let (stays, first) =
              First-step base x i arr c.0 (omega arith) v (==-false→ne _ _ more) in
            rw stays (
              merge_loop-First x (y ∷ ys) (suc i) (merge_step bio_max base x i 0 arr).1 c.1
                (omega arith) (omega arith) (omega (arith, ==-false→ne _ _ more)) first)
      ]

-- The pages from number `s` on, by their places in the array.
abbrev pub places : ℕ → ℕ → List ℕ
places s zero = []
places s (suc n) = s ∷ places (suc s) n

count-take-places : (k s n a : ℕ) → s + k ≤ a → count a (take k (places s n)) ≡ 0
count-take-places zero s n a h = refl
count-take-places (suc k) s zero a h = refl
count-take-places (suc k) s (suc n) a h = ground (arith, count-take-places k (suc s) n a)

count-requests_missed :
    (arr : List ℕ) (s a : ℕ)
    → ((j : ℕ) → j < length arr → s + j + get_or arr j 0 ≤ a)
    → count a (flatten (requests arr (places s (length arr)))) ≡ 0
unfolding requests flatten
count-requests_missed [] s a h = refl
count-requests_missed (k ∷ arr) s a h =
    let rest = count-requests_missed arr (suc s) a (λ j p. omega (arith, h (suc j))) in
    elim (Bool-cases (k == 0)) [
      | inl e ↦ rw e rest
      | inr e ↦
          let here = take k (places s (suc (length arr))) in
          rw (e, count-append a here)
            (omega (arith, rest, count-take-places k s (suc (length arr)) a (omega (arith, h 0))))
    ]

-- For more than bio_max pages with consecutive indices, where bio_max is more than 1, the last page
-- is in no request.
pub write_async-overrun :
    (bio_max x : ℕ) (xs : List ℕ)
    → 1 < bio_max
    → Consecutive x xs
    → bio_max < length (x ∷ xs)
    → count (length xs) (flatten (write_async bio_max (x ∷ xs) (places 0 (length (x ∷ xs))))) ≡ 0
unfolding write_async merges
write_async-overrun bio_max x xs big c room =
    let ones : List ℕ = replicate (suc (length xs)) 1 in
    let len = length-replicate {A = ℕ} (suc (length xs)) 1 in
    let first : First 1 ones = record {
      head = refl;
      others = λ j p q. absurd (omega arith);
      fresh = λ j p q. get_or-ones (suc (length xs)) j (omega arith);
      begun = omega arith;
    } in
    let missed = merge_loop-First bio_max x xs 1 ones c (omega arith) (omega arith) big first in
    let len' = length-merge_loop bio_max x xs 1 0 ones in
    let whole : suc (length xs) ≡ length (merge_loop bio_max x xs 1 0 ones) = omega arith in
    let arr = merge_loop bio_max x xs 1 0 ones in
    subst (λ (n : ℕ). count (length xs) (flatten (requests arr (places 0 n))) ≡ 0) (sym whole)
      (count-requests_missed arr 0 (length xs) (λ j p. omega (arith, missed j p)))
