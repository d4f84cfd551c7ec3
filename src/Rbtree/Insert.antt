-- ===== src/Rbtree/Insert.antt =====
-- Insertion in a dirty tree, seen as a change of the map from index to page.
use fast_map.Common.{
  ℕ, ◌+◌, ◌<◌, ◌≡◌, ◌≢◌, refl, sym, ap, subst, ◌∙◌, Bool, true, false, ltb, ◌==◌, if◌then◌else◌,
  List, [], ◌∷◌, ◌++◌, Option, none, some, arith, All, Bool-cases, inl, inr, ltb→lt, count,
}
use fast_map.Rbtree.{Tree, leaf, node, inorder, RbLib, link, tagged_rb_search, tagged_rb_insert}
use fast_map.Rbtree.Search.{find, Increasing, Increasing-Split, tagged_rb_search-find}

module _ (index : ℕ → ℕ) where
  -- A page put in its place in a sequence.
  abbrev place : ℕ → List ℕ → List ℕ
  place p [] = p ∷ []
  place p (x ∷ xs) = if ltb (index p) (index x) then p ∷ x ∷ xs else x ∷ place p xs

  place-left :
      (p q : ℕ) (xs ys : List ℕ) → index p < index q → place p (xs ++ q ∷ ys) ≡ place p xs ++ q ∷ ys
  place-left p q [] ys h = ground arith
  place-left p q (x ∷ xs) ys h = ground (arith, place-left p q xs ys h)

  place-right :
      (p q : ℕ) (xs ys : List ℕ)
      → index q < index p
      → All (λ x. index x < index q) xs
      → place p (xs ++ q ∷ ys) ≡ xs ++ q ∷ place p ys
  place-right p q [] ys h a = ground arith
  place-right p q (x ∷ xs) ys h a = ground (arith, place-right p q xs ys h a.1)

  find-place :
      (p k : ℕ) (xs : List ℕ)
      → find index (index p) xs ≡ none
      → find index k (place p xs) ≡ (if index p == k then some p else find index k xs)
  find-place p k [] h = refl
  find-place p k (x ∷ xs) h = ground (arith, find-place p k xs)

  All-place :
      (b p : ℕ) (xs : List ℕ)
      → b < index p
      → All (λ q. b < index q) xs
      → All (λ q. b < index q) (place p xs)
  All-place b p [] h a = (h, tt)
  All-place b p (x ∷ xs) h a = ground (arith, All-place b p xs h a.1)

  All-weaken :
      (b c : ℕ) (xs : List ℕ) → b < c → All (λ q. c < index q) xs → All (λ q. b < index q) xs
  All-weaken b c [] h a = tt
  All-weaken b c (x ∷ xs) h a = (omega arith, All-weaken b c xs h a.1)

  place-Increasing :
      (p : ℕ) (xs : List ℕ)
      → find index (index p) xs ≡ none
      → Increasing index xs
      → Increasing index (place p xs)
  place-Increasing p [] h i = (tt, tt)
  place-Increasing p (x ∷ xs) h i =
      ground
        (arith, place-Increasing p xs, All-place (index x) p xs, All-weaken (index p) (index x) xs)

  count-place :
      (q p : ℕ) (xs : List ℕ) → count q (place p xs) ≡ (if q == p then 1 else 0) + count q xs
  count-place q p [] = refl
  count-place q p (x ∷ xs) = ground (arith, count-place q p xs)

  -- What `link` does: it refuses a page whose index is there, and else puts it in its place.
  data Linked (t : Tree) (p : ℕ) : Type 0 where
    met : (q : ℕ) → tagged_rb_search index t (index p) ≡ some q → link index t p ≡ none → Linked t p
    put :
        (t' : Tree)
        → tagged_rb_search index t (index p) ≡ none
        → link index t p ≡ some t'
        → inorder t' ≡ place p (inorder t)
        → Linked t p

  link-Linked : (t : Tree) (p : ℕ) → Increasing index (inorder t) → Linked t p
  unfolding link tagged_rb_search
  link-Linked leaf p h = put (node leaf p leaf) refl refl refl
  link-Linked (node l q r) p h =
      let s = Increasing-Split index (inorder l) q (inorder r) h in
      let ihl = link-Linked l p s.left in
      let ihr = link-Linked r p s.right in
      elim (Bool-cases (ltb (index p) (index q))) [
        | inl lt ↦ elim ihl [
          | met x e n ↦ met x (ground (arith, lt, e)) (ground (arith, lt, n))
          | put l' e n o ↦ put (node l' q r) (ground (arith, lt, e)) (ground (arith, lt, n)) (
              ap (λ (xs : List ℕ). xs ++ q ∷ inorder r) o
              ∙ sym (place-left p q (inorder l) (inorder r) (ltb→lt (index p) (index q) lt)))
        ]
        | inr ge ↦ elim (Bool-cases (ltb (index q) (index p))) [
          | inl lt ↦ elim ihr [
            | met x e n ↦ met x (ground (arith, ge, lt, e)) (ground (arith, ge, lt, n))
            | put r' e n o ↦
                put (node l q r') (ground (arith, ge, lt, e)) (ground (arith, ge, lt, n)) (
                  ap (λ (xs : List ℕ). inorder l ++ q ∷ xs) o
                  ∙ sym (
                      place-right p q (inorder l) (inorder r) (ltb→lt (index q) (index p) lt)
                        s.before))
          ]
          | inr le ↦ met q (ground (arith, ge, le)) (ground (arith, ge, le))
        ]
      ]

  module _ (lib : RbLib) where
    -- The tree after `tagged_rb_insert` is in order, and as a map from index to page it has the new
    -- page where the index was free and is unchanged where it was taken.
    pub record IsInserted (root : Tree) (p : ℕ) (done : Bool) (t : Tree) : Type 0 where
      pub in_order : Increasing index (inorder t)
      pub free : done ≡ true → tagged_rb_search index root (index p) ≡ none
      pub taken : done ≡ false → tagged_rb_search index root (index p) ≢ none × (t ≡ root)
      pub found :
          (k : ℕ)
          → done ≡ true
          → tagged_rb_search index t k
            ≡ (if index p == k then some p else tagged_rb_search index root k)
      pub members :
          (q : ℕ)
          → done ≡ true
          → count q (inorder t) ≡ (if q == p then 1 else 0) + count q (inorder root)

    refused :
        (root : Tree) (p q : ℕ)
        → Increasing index (inorder root)
        → tagged_rb_search index root (index p) ≡ some q
        → IsInserted root p false root
    refused root p q h e = record {
      in_order = h;
      free = λ d. absurd (ground arith);
      taken = λ d. (λ n. ground (arith, n, e), refl);
      found = λ k d. absurd (ground arith);
      members = λ k d. absurd (ground arith);
    }

    inserted :
        (root : Tree) (p : ℕ) (t : Tree)
        → Increasing index (inorder root)
        → tagged_rb_search index root (index p) ≡ none
        → inorder t ≡ place p (inorder root)
        → IsInserted root p true (lib.rb_insert_color p t)
    inserted root p t h e o =
        let c = inorder (lib.rb_insert_color p t) in
        let io : c ≡ place p (inorder root) = lib.inorder-rb_insert_color p t ∙ o in
        let free : find index (index p) (inorder root) ≡ none =
          sym (tagged_rb_search-find index root (index p) h) ∙ e in
        let inc : Increasing index c =
          subst (Increasing index) (sym io) (place-Increasing p (inorder root) free h) in
        record {
          in_order = inc;
          free = λ d. e;
          taken = λ d. absurd (ground arith);
          found = λ k d.
              tagged_rb_search-find index (lib.rb_insert_color p t) k inc
              ∙ ap (find index k) io
              ∙ find-place p k (inorder root) free
              ∙ ap (λ (o' : Option ℕ). if index p == k then some p else o')
                  (sym (tagged_rb_search-find index root k h));
          members = λ q d. ap (count q) io ∙ count-place q p (inorder root);
        }

    -- On a tree in order, tagged_rb_insert leaves a tree in order; it refuses, with the tree
    -- unchanged, exactly where the index of the page is found; and where it succeeds the page is
    -- found at its index, every other search is as before, and the tree has gained exactly this
    -- page.
    pub tagged_rb_insert_lem :
        (root : Tree) (p : ℕ)
        → Increasing index (inorder root)
        → let (done, t) = tagged_rb_insert index lib root p in IsInserted root p done t
    unfolding tagged_rb_insert
    tagged_rb_insert_lem root p h = elim (link-Linked root p h) [
      | met q e n ↦
          subst (λ (x : Bool × Tree). IsInserted root p x.0 x.1) (sym (ground (arith, n)))
            (refused root p q h e)
      | put t e n o ↦
          subst (λ (x : Bool × Tree). IsInserted root p x.0 x.1) (sym (ground (arith, n)))
            (inserted root p t h e o)
    ]
