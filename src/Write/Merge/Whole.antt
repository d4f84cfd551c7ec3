-- ===== src/Write/Merge/Whole.antt =====
-- As long as the pages fit into one request, every page is written exactly once.
use fast_map.Common.{
  ℕ, zero, suc, ◌+◌, ◌%◌, ◌^◌, ◌≤◌, ◌<◌, ◌≡◌, refl, sym, ap, ◌∙◌, List, [], ◌∷◌, ◌++◌, All, length,
  false, get_or, set, take, drop, replicate, arith, take-append-drop, length-append,
  length-replicate, ◌==◌, if◌then◌else◌, Bool-cases, inl, inr, All-append, eq→==, ==→eq,
  ne→==-false,
}
use mathlib.Core.List.{flatten, append_assoc, append-nil}
use native.Mathlib.Numerals.{add-one}
use native.Mathlib.Nat.{add-zero}
use fast_map.Write.Merge.{merge_step, merge_loop, merges, requests, write_async}

-- The entries of one request of `c` pages, and of requests that follow one another.
abbrev run_of : ℕ → List ℕ
run_of zero = []
run_of (suc k) = suc k ∷ replicate k 0

abbrev encode : List ℕ → List ℕ
encode [] = []
encode (c ∷ cs) = run_of c ++ encode cs

abbrev sum : List ℕ → ℕ
sum [] = 0
sum (c ∷ cs) = c + sum cs

module _ {ℓ} {A : Type ℓ} where
  drop-suc : (n : ℕ) (ps : List A) → drop n (drop 1 ps) ≡ drop (suc n) ps
  drop-suc zero [] = refl
  drop-suc (suc n) [] = refl
  drop-suc n (p ∷ ps) = refl

  requests-zeros :
      (n : ℕ) (arr : List ℕ) (ps : List A)
      → requests (replicate n 0 ++ arr) ps ≡ requests arr (drop n ps)
  unfolding requests
  requests-zeros zero arr ps = refl
  requests-zeros (suc n) arr ps =
      requests-zeros n arr (drop 1 ps) ∙ ap (requests arr) (drop-suc n ps)

  length-drop_eq : (n m : ℕ) (ps : List A) → n + m ≡ length ps → m ≡ length (drop n ps)
  length-drop_eq zero m ps e = omega arith
  length-drop_eq (suc n) m [] e = absurd (omega arith)
  length-drop_eq (suc n) m (p ∷ ps) e = length-drop_eq n m ps (omega arith)

  requests-encode :
      (cs : List ℕ) (ps : List A)
      → All (λ c. 0 < c) cs
      → sum cs ≡ length ps
      → flatten (requests (encode cs) ps) ≡ ps
  unfolding requests flatten
  requests-encode [] [] h e = refl
  requests-encode [] (p ∷ ps) h e = absurd (omega arith)
  requests-encode (zero ∷ cs) ps h e = absurd (omega arith)
  requests-encode (suc k ∷ cs) [] h e = absurd (omega arith)
  requests-encode (suc k ∷ cs) (p ∷ ps) h e =
      rw (ne→==-false (suc k) 0 (omega arith), requests-zeros k (encode cs) ps)
        (ap (λ (t : List A). p ∷ take k ps ++ t)
            (requests-encode cs (drop k ps) h.1 (length-drop_eq k (sum cs) ps (omega arith)))
          ∙ ap (◌∷◌ p) (take-append-drop k ps))

length-run_of : (c : ℕ) → length (run_of c) ≡ c
length-run_of zero = refl
length-run_of (suc k) = omega (arith, length-replicate {A = ℕ} k 0)

length-encode : (cs : List ℕ) → length (encode cs) ≡ sum cs
length-encode [] = refl
length-encode (c ∷ cs) =
    omega (arith, length-append (run_of c) (encode cs), length-run_of c, length-encode cs)

encode-append : (cs ds : List ℕ) → encode (cs ++ ds) ≡ encode cs ++ encode ds
encode-append [] ds = refl
encode-append (c ∷ cs) ds =
    rw (encode-append cs ds, append_assoc (run_of c) (encode cs) (encode ds))

sum-append : (cs ds : List ℕ) → sum (cs ++ ds) ≡ sum cs + sum ds
sum-append [] ds = omega arith
sum-append (c ∷ cs) ds = omega (arith, sum-append cs ds)

-- Reading and writing at the seam of two lists.
get_or-seam :
    (xs : List ℕ) (y : ℕ) (ys : List ℕ) (i d : ℕ) → i ≡ length xs → get_or (xs ++ y ∷ ys) i d ≡ y
get_or-seam [] y ys zero d e = refl
get_or-seam [] y ys (suc i) d e = absurd (omega arith)
get_or-seam (x ∷ xs) y ys zero d e = absurd (omega arith)
get_or-seam (x ∷ xs) y ys (suc i) d e = get_or-seam xs y ys i d (omega arith)

set-seam :
    (xs : List ℕ) (y : ℕ) (ys : List ℕ) (i v : ℕ)
    → i ≡ length xs
    → set (xs ++ y ∷ ys) i v ≡ xs ++ v ∷ ys
set-seam [] y ys zero v e = refl
set-seam [] y ys (suc i) v e = absurd (omega arith)
set-seam (x ∷ xs) y ys zero v e = absurd (omega arith)
set-seam (x ∷ xs) y ys (suc i) v e = ap (◌∷◌ x) (set-seam xs y ys i v (omega arith))

get_or-seam₂ :
    (xs zs : List ℕ) (y : ℕ) (ys : List ℕ) (i d : ℕ)
    → i ≡ length xs + length zs
    → get_or (xs ++ (zs ++ y ∷ ys)) i d ≡ y
get_or-seam₂ xs zs y ys i d e =
    rw (← append_assoc xs zs (y ∷ ys))
      (get_or-seam (xs ++ zs) y ys i d (omega (arith, length-append xs zs)))

set-seam₂ :
    (xs zs : List ℕ) (y : ℕ) (ys : List ℕ) (i v : ℕ)
    → i ≡ length xs + length zs
    → set (xs ++ (zs ++ y ∷ ys)) i v ≡ xs ++ (zs ++ v ∷ ys)
set-seam₂ xs zs y ys i v e = rw (← append_assoc xs zs (y ∷ ys)) (
    set-seam (xs ++ zs) y ys i v (omega (arith, length-append xs zs)) ∙ append_assoc xs zs (v ∷ ys))

replicate-snoc : (k : ℕ) (ys : List ℕ) → replicate k 0 ++ 0 ∷ ys ≡ replicate (suc k) 0 ++ ys
replicate-snoc zero ys = refl
replicate-snoc (suc k) ys = ap (◌∷◌ 0) (replicate-snoc k ys)

-- The array while a request of k + 1 pages is open behind the requests `cs`, with n pages to come.
abbrev opened : List ℕ → ℕ → ℕ → List ℕ
opened cs k n = encode cs ++ (suc k ∷ replicate k 0 ++ replicate n 1)

module _ (bio_max base x : ℕ) (cs : List ℕ) (k n : ℕ) where
  -- The next page joins the open request.
  step-joins :
      (base + 1) % 2 ^ 64 ≡ x
      → merge_step bio_max base x (sum cs + suc k) (sum cs) (opened cs k (suc n))
        ≡ (if suc (suc k) == bio_max then sum cs + suc k else sum cs, opened cs (suc k) n)
  unfolding merge_step
  step-joins e =
      let xs = encode cs in
      let ones : List ℕ = replicate n 1 in
      let at = sym (length-encode cs) in
      let zeros : List ℕ = (suc k + 1) ∷ replicate k 0 in
      let i = sum cs + suc k in
      let after : i ≡ length xs + length zeros =
        omega (arith, length-encode cs, length-replicate {A = ℕ} k 0) in
      rw
        (
          eq→== _ _ e,
          get_or-seam xs (suc k) (replicate k 0 ++ 1 ∷ ones) (sum cs) 0 at,
          set-seam xs (suc k) (replicate k 0 ++ 1 ∷ ones) (sum cs) (suc k + 1) at,
          get_or-seam₂ xs zeros 1 ones i 0 after,
          set-seam₂ xs zeros 1 ones i 0 after,
          get_or-seam xs (suc k + 1) (replicate k 0 ++ 0 ∷ ones) (sum cs) 0 at,
          replicate-snoc k ones,
          add-one,
        )
        refl

  step-opens :
      ((base + 1) % 2 ^ 64 == x) ≡ false
      → merge_step bio_max base x (sum cs + suc k) (sum cs) (opened cs k (suc n))
        ≡ (sum (cs ++ suc k ∷ []), opened (cs ++ suc k ∷ []) 0 n)
  unfolding merge_step
  step-opens e =
      rw
        (
          e,
          sum-append cs (suc k ∷ []),
          encode-append cs (suc k ∷ []),
          append-nil,
          append_assoc (encode cs) (suc k ∷ replicate k 0) (1 ∷ replicate n 1),
          add-zero,
        )
        refl

-- What the loop ends with: the requests before it, and those of the pages from the open one on.
abbrev Ended : ℕ → List ℕ → Type 0
Ended total arr = (cs : List ℕ) × (arr ≡ encode cs) × All (λ c. 0 < c) cs × (sum cs ≡ total)

-- Where no page is left the array is as it stands.
done-Ended :
    (bio_max base : ℕ) (xs : List ℕ) (i base_idx : ℕ) (cs : List ℕ) (k : ℕ)
    → length xs ≡ 0
    → All (λ c. 0 < c) cs
    → Ended
        (sum cs + suc k + length xs)
        (merge_loop bio_max base xs i base_idx (opened cs k (length xs)))
unfolding merge_loop
done-Ended bio_max base (x ∷ xs) i base_idx cs k e h = absurd (omega arith)
done-Ended bio_max base [] i base_idx cs k e h = (
  cs ++ suc k ∷ [],
  rw (encode-append cs (suc k ∷ []), append-nil) refl,
  All-append (λ c. 0 < c) cs (suc k ∷ []) h (omega arith, tt),
  omega (arith, sum-append cs (suc k ∷ [])),
)

merge_loop-Ended :
    (bio_max base : ℕ) (xs : List ℕ) (cs : List ℕ) (k : ℕ)
    → All (λ c. 0 < c) cs
    → sum cs + suc k + length xs ≤ bio_max
    → Ended
        (sum cs + suc k + length xs)
        (merge_loop bio_max base xs (sum cs + suc k) (sum cs) (opened cs k (length xs)))
unfolding merge_loop
merge_loop-Ended bio_max base [] cs k h room =
    done-Ended bio_max base [] (sum cs + suc k) (sum cs) cs k refl h
merge_loop-Ended bio_max base (x ∷ xs) cs k h room =
    let n = length xs in
    let moved : suc (sum cs + suc k) ≡ sum cs + suc (suc k) = omega arith in
    let total : sum cs + suc k + suc n ≡ sum cs + suc (suc k) + n = omega arith in
    elim (Bool-cases ((base + 1) % 2 ^ 64 == x)) [
      | inl joins ↦ elim (Bool-cases (suc (suc k) == bio_max)) [
        | inl full ↦
            rw (step-joins bio_max base x cs k n (==→eq _ _ joins), full, total)
              (done-Ended bio_max x xs _ _ cs (suc k) (omega (arith, ==→eq _ _ full)) h)
        | inr more ↦
            rw (step-joins bio_max base x cs k n (==→eq _ _ joins), more, moved, total)
              (merge_loop-Ended bio_max x xs cs (suc k) h (omega arith))
      ]
      | inr opens ↦
          let cs' = cs ++ suc k ∷ [] in
          let sum' : sum cs' ≡ sum cs + suc k = omega (arith, sum-append cs (suc k ∷ [])) in
          let total' : sum cs + suc k + suc n ≡ sum cs' + 1 + n = omega arith in
          let moved' : suc (sum cs + suc k) ≡ sum cs' + 1 = omega arith in
          rw (step-opens bio_max base x cs k n opens, total', moved')
            (merge_loop-Ended bio_max x xs cs' 0
              (All-append (λ c. 0 < c) cs (suc k ∷ []) h (omega arith, tt)) (omega arith))
    ]

-- For at most bio_max pages, whatever their indices, the requests that the merge and submit loops
-- make hold every page exactly once and in order.
pub write_async-whole {ℓ} :
    {A : Type ℓ} (bio_max : ℕ) (xs : List ℕ) (ps : List A)
    → length xs ≤ bio_max
    → length ps ≡ length xs
    → flatten (write_async bio_max xs ps) ≡ ps
unfolding write_async merges
write_async-whole bio_max [] ps h e = requests-encode [] ps tt (omega arith)
write_async-whole bio_max (x ∷ xs) ps h e =
    let (cs, coded, positive, total) = merge_loop-Ended bio_max x xs [] 0 tt (omega arith) in
    rw coded (requests-encode cs ps positive (omega arith))
