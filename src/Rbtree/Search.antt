-- ===== src/Rbtree/Search.antt =====
-- Searching a dirty tree finds the page with the index.
use fast_map.Common.{
  ℕ, ◌≤◌, ◌<◌, ◌≡◌, refl, sym, ◌∙◌, ◌==◌, if◌then◌else◌, List, [], ◌∷◌, ◌++◌, Option, none, some,
  arith, All, count,
}
use fast_map.Rbtree.{Tree, leaf, node, inorder, tagged_rb_search}

module _ (index : ℕ → ℕ) where
  -- The page with the index, in a sequence of pages.
  abbrev pub find : ℕ → List ℕ → Option ℕ
  find k [] = none
  find k (p ∷ ps) = if index p == k then some p else find k ps

  -- The indices grow along the sequence.
  abbrev pub Increasing : List ℕ → Type 0
  Increasing [] = Unit
  Increasing (p ∷ ps) = All (λ q. index p < index q) ps × Increasing ps

  -- A sequence around `p`, both sides of it and what lies across.
  pub record Split (xs : List ℕ) (p : ℕ) (ys : List ℕ) : Type 0 where
    pub left : Increasing xs
    pub right : Increasing ys
    pub before : All (λ q. index q < index p) xs
    pub after : All (λ q. index p < index q) ys

  pub All-middle :
      (P : ℕ → Type 0) (xs : List ℕ) (p : ℕ) (ys : List ℕ)
      → All P (xs ++ p ∷ ys)
      → All P xs × P p × All P ys
  All-middle P [] p ys h = (tt, h.0, h.1)
  All-middle P (x ∷ xs) p ys h = let (a, b, c) = All-middle P xs p ys h.1 in ((h.0, a), b, c)

  pub Increasing-Split :
      (xs : List ℕ) (p : ℕ) (ys : List ℕ) → Increasing (xs ++ p ∷ ys) → Split xs p ys
  Increasing-Split [] p ys h = record { left = tt; right = h.1; before = tt; after = h.0 }
  Increasing-Split (x ∷ xs) p ys h =
      let s = Increasing-Split xs p ys h.1 in
      let (a, b, c) = All-middle (λ q. index x < index q) xs p ys h.0 in
      record { left = (a, s.left); right = s.right; before = (b, s.before); after = s.after }

  find-before : (k : ℕ) (xs ys : List ℕ) → All (λ q. index q < k) xs → find k (xs ++ ys) ≡ find k ys
  find-before k [] ys h = refl
  find-before k (x ∷ xs) ys h = ground (arith, find-before k xs ys h.1)

  pub find-above : (k b : ℕ) (ys : List ℕ) → k ≤ b → All (λ q. b < index q) ys → find k ys ≡ none
  find-above k b [] le h = refl
  find-above k b (y ∷ ys) le h = ground (arith, find-above k b ys le h.1)

  find-append_none : (k : ℕ) (xs ys : List ℕ) → find k ys ≡ none → find k (xs ++ ys) ≡ find k xs
  find-append_none k [] ys e = e
  find-append_none k (x ∷ xs) ys e = ground (arith, find-append_none k xs ys e)

  All-lt_weaken :
      (k b : ℕ) (xs : List ℕ) → b ≤ k → All (λ q. index q < b) xs → All (λ q. index q < k) xs
  All-lt_weaken k b [] le h = tt
  All-lt_weaken k b (x ∷ xs) le h = (omega arith, All-lt_weaken k b xs le h.1)

  -- On a tree in order, tagged_rb_search is the linear search for the index along the in-order
  -- sequence.
  pub tagged_rb_search-find :
      (t : Tree) (k : ℕ) → Increasing (inorder t) → tagged_rb_search index t k ≡ find k (inorder t)
  unfolding tagged_rb_search
  tagged_rb_search-find leaf k h = refl
  tagged_rb_search-find (node l p r) k h =
      let s = Increasing-Split (inorder l) p (inorder r) h in
      let ihl = tagged_rb_search-find l k s.left in
      let ihr = tagged_rb_search-find r k s.right in
      ground (
        arith,
        ihl,
        ihr,
        find-append_none k (inorder l) (p ∷ inorder r),
        find-above k (index p) (inorder r),
        find-before k (inorder l) (p ∷ inorder r),
        All-lt_weaken k (index p) (inorder l),
        s.before,
        s.after,
      )

  find-found : (k p : ℕ) (xs : List ℕ) → find k xs ≡ some p → (1 ≤ count p xs) × (index p ≡ k)
  find-found k p [] h = absurd (ground arith)
  find-found k p (x ∷ xs) h = ground (arith, find-found k p xs)

  pub tagged_rb_search-found :
      (t : Tree) (k p : ℕ)
      → Increasing (inorder t)
      → tagged_rb_search index t k ≡ some p
      → (1 ≤ count p (inorder t)) × (index p ≡ k)
  tagged_rb_search-found t k p h e =
      find-found k p (inorder t) (sym (tagged_rb_search-find t k h) ∙ e)
