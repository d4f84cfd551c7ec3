-- ===== src/PageMap/Distance.antt =====
-- The row of the NUMA distance vector of one node, which `init_numa_distance_vector` sorts: the loops
-- over `k` and `l`. `distance` is the kernel's `node_distance(j, _)`.
use fast_map.Common.{
  ℕ, zero, suc, ◌+◌, ◌-◌, ◌≤◌, ◌<◌, ◌≡◌, refl, ltb, ◌==◌, if◌then◌else◌, arith, Bool-cases, inl,
  inr, subst, ◌∙◌,
}

-- A row as a C array. `store`s at `l - 1` and `l` are the swap.
abbrev pub swap : (ℕ → ℕ) → ℕ → ℕ → ℕ
swap a l = λ i. if i == l then a (l - 1) else if i == l - 1 then a l else a i

module _ (distance : ℕ → ℕ) where
  -- `while(l > 0 && ...)`
  unfoldable pub sink : ℕ → (ℕ → ℕ) → ℕ → ℕ
  sink zero a = a
  sink (suc l) a =
      let next = sink l (swap a (suc l)) in
      if ltb (distance (a (suc l))) (distance (a l)) then next else a

  -- `while(k < nodes)`, with `n` rounds left
  unfoldable pub sort_row : ℕ → ℕ → (ℕ → ℕ) → ℕ → ℕ
  unfolding sink
  sort_row zero k a = a
  sort_row (suc n) k a = sort_row n (suc k) (sink k a)

  -- The row of a machine with `nodes` nodes.
  unfoldable pub distance_row : ℕ → ℕ → ℕ
  unfolding sort_row
  distance_row nodes = sort_row (nodes - 1) 1 (λ k. k)

  -- The first `k` entries are in order of their distance.
  abbrev pub Sorted : ℕ → (ℕ → ℕ) → Type 0
  Sorted k a = (i : ℕ) → suc i < k → distance (a i) ≤ distance (a (suc i))

  abbrev pub count_to : ℕ → (ℕ → ℕ) → ℕ → ℕ
  count_to zero a x = 0
  count_to (suc n) a x = count_to n a x + (if a n == x then 1 else 0)

  -- In order but for the entry `l`, which is not below those after it.
  record Hole (l k : ℕ) (a : ℕ → ℕ) : Type 0 where
    below : (i : ℕ) → suc i < l → distance (a i) ≤ distance (a (suc i))
    above : (i : ℕ) → l ≤ i → suc i < k → distance (a i) ≤ distance (a (suc i))
    across : 0 < l → suc l < k → distance (a (l - 1)) ≤ distance (a (suc l))

  sink-Sorted : (l k : ℕ) (a : ℕ → ℕ) → l < k → Hole l k a → Sorted k (sink l a)
  unfolding sink
  sink-Sorted zero k a h s = λ i r. s.above i (omega arith) r
  sink-Sorted (suc l) k a h s = elim (Bool-cases (ltb (distance (a (suc l))) (distance (a l)))) [
    | inl e ↦ λ i r. ground (
      arith,
      e,
      sink-Sorted l k (swap a (suc l)) (omega arith)
          (record {
            below = λ j q. ground (arith, s.below j);
            above = λ j q t. ground (arith, e, s.above j, s.across);
            across = λ q t. ground (arith, e, s.below (l - 1), s.across);
          })
          i r,
    )
    | inr e ↦ λ i r. ground (arith, e, s.below i, s.above i)
  ]

  count_to-below : (a : ℕ → ℕ) (l k x : ℕ) → k ≤ l → count_to k (swap a (suc l)) x ≡ count_to k a x
  count_to-below a l zero x h = refl
  count_to-below a l (suc k) x h = ground (arith, count_to-below a l k x)

  count_to-pair :
      (a : ℕ → ℕ) (l x : ℕ) → count_to (suc (suc l)) (swap a (suc l)) x ≡ count_to (suc (suc l)) a x
  count_to-pair a l x = ground (arith, count_to-below a l l x)

  count_to-swap :
      (a : ℕ → ℕ) (l k x : ℕ) → suc l < k → count_to k (swap a (suc l)) x ≡ count_to k a x
  count_to-swap a l zero x h = absurd (omega arith)
  count_to-swap a l (suc k) x h = elim (Bool-cases (k == suc l)) [
    | inl e ↦
        let same : suc l ≡ k = ground (arith, e) in
        subst (λ (j : ℕ). count_to (suc j) (swap a (suc l)) x ≡ count_to (suc j) a x) same
          (count_to-pair a l x)
    | inr e ↦ ground (arith, e, count_to-swap a l k x)
  ]

  sink-count : (l k x : ℕ) (a : ℕ → ℕ) → l < k → count_to k (sink l a) x ≡ count_to k a x
  unfolding sink
  sink-count zero k x a h = refl
  sink-count (suc l) k x a h =
      ground (arith, count_to-swap a l k x h, sink-count l k x (swap a (suc l)) (omega arith))

  sort_row-Sorted :
      (n k nodes : ℕ) (a : ℕ → ℕ) → n + k ≡ nodes → Sorted k a → Sorted nodes (sort_row n k a)
  unfolding sort_row
  sort_row-Sorted zero k nodes a h s =
      let same : k ≡ nodes = omega arith in subst (λ (j : ℕ). Sorted j a) same s
  sort_row-Sorted (suc n) k nodes a h s = sort_row-Sorted n (suc k) nodes (sink k a) (omega arith) (
      sink-Sorted k (suc k) a (omega arith) (record {
        below = s;
        above = λ i q r. absurd (omega arith);
        across = λ q r. absurd (omega arith);
      }))

  sort_row-count :
      (n k nodes x : ℕ) (a : ℕ → ℕ)
      → n + k ≡ nodes
      → count_to nodes (sort_row n k a) x ≡ count_to nodes a x
  unfolding sort_row
  sort_row-count zero k nodes x a h = refl
  sort_row-count (suc n) k nodes x a h =
      sort_row-count n (suc k) nodes x (sink k a) (omega arith)
      ∙ sink-count k nodes x a (omega arith)

  count_to-identity : (n x : ℕ) → count_to n (λ k. k) x ≡ (if ltb x n then 1 else 0)
  count_to-identity zero x = ground arith
  count_to-identity (suc n) x = ground (arith, count_to-identity n x)

  -- For at least one node, the row of the distance vector holds each of the nodes exactly once, in
  -- the order of growing distance.
  pub distance_row-Sorted :
      (nodes : ℕ)
      → 0 < nodes
      → Sorted nodes (distance_row nodes)
        × ((node : ℕ)
            → count_to nodes (distance_row nodes) node ≡ (if ltb node nodes then 1 else 0))
  unfolding distance_row
  distance_row-Sorted nodes h = (
    sort_row-Sorted (nodes - 1) 1 nodes (λ k. k) (omega arith) (λ i r. absurd (omega arith)),
    λ x. sort_row-count (nodes - 1) 1 nodes x (λ k. k) (omega arith) ∙ count_to-identity nodes x,
  )
