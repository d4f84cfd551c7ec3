-- ===== src/Rbtree/Erase.antt =====
-- Removal from a dirty tree, seen as a change of the map from index to page.
use fast_map.Common.{
  ℕ, ◌≤◌, ◌<◌, ◌≡◌, ◌≢◌, sym, ap, subst, ◌∙◌, Bool, true, false, ◌==◌, if◌then◌else◌, List, [], ◌∷◌,
  Option, none, some, arith, All, Option-cases, inl, inr, count, erase,
}
use fast_map.Rbtree.{Tree, inorder, RbLib, tagged_rb_search, tagged_rb_erase}
use fast_map.Rbtree.Search.{
  find, Increasing, tagged_rb_search-find, find-above, tagged_rb_search-found,
}

module _ (index : ℕ → ℕ) where
  -- What the removal of an index leaves: the tree, and whether the index was there.
  pub record IsErased (root : Tree) (k : ℕ) (done : Bool) (t : Tree) : Type 0 where
    pub in_order : Increasing index (inorder t)
    pub missing : done ≡ false → tagged_rb_search index root k ≡ none
    pub present : done ≡ true → tagged_rb_search index root k ≢ none
    pub found :
        (k' : ℕ)
        → tagged_rb_search index t k' ≡ (if k == k' then none else tagged_rb_search index root k')

  All-count : (b p : ℕ) (xs : List ℕ) → 1 ≤ count p xs → All (λ q. b < index q) xs → b < index p
  All-count b p [] h a = absurd (omega arith)
  All-count b p (x ∷ xs) h a = ground (arith, All-count b p xs)

  All-erase :
      (b p : ℕ) (xs : List ℕ) → All (λ q. b < index q) xs → All (λ q. b < index q) (erase p xs)
  All-erase b p [] a = tt
  All-erase b p (x ∷ xs) a = ground (arith, All-erase b p xs a.1)

  erase-Increasing : (p : ℕ) (xs : List ℕ) → Increasing index xs → Increasing index (erase p xs)
  erase-Increasing p [] i = tt
  erase-Increasing p (x ∷ xs) i =
      ground (arith, erase-Increasing p xs i.1, All-erase (index x) p xs i.0)

  find-erase :
      (p k : ℕ) (xs : List ℕ)
      → 1 ≤ count p xs
      → Increasing index xs
      → find index k (erase p xs) ≡ (if index p == k then none else find index k xs)
  find-erase p k [] h i = absurd (omega arith)
  find-erase p k (x ∷ xs) h i =
      ground (arith, find-erase p k xs, find-above index k (index x) xs, All-count (index x) p xs)

  module _ (lib : RbLib) where
    erased :
        (root : Tree) (k p : ℕ)
        → Increasing index (inorder root)
        → tagged_rb_search index root k ≡ some p
        → IsErased root k true (lib.rb_erase p root)
    erased root k p h e =
        let (c, i) = tagged_rb_search-found index root k p h e in
        let io = lib.inorder-rb_erase p root c in
        let inc : Increasing index (inorder (lib.rb_erase p root)) =
          subst (Increasing index) (sym io) (erase-Increasing p (inorder root) h) in
        record {
          in_order = inc;
          missing = λ d. absurd (ground arith);
          present = λ d n. ground (arith, n, e);
          found = λ k'.
              tagged_rb_search-find index (lib.rb_erase p root) k' inc
              ∙ ap (find index k') io
              ∙ find-erase p k' (inorder root) c h
              ∙ ap (λ (o : Option ℕ). if index p == k' then none else o)
                  (sym (tagged_rb_search-find index root k' h))
              ∙ ap (λ (j : ℕ). if j == k' then none else tagged_rb_search index root k') i;
        }

    unerased :
        (root : Tree) (k : ℕ)
        → Increasing index (inorder root)
        → tagged_rb_search index root k ≡ none
        → IsErased root k false root
    unerased root k h e = record {
      in_order = h;
      missing = λ d. e;
      present = λ d. absurd (ground arith);
      found = λ k'. ground (arith, e);
    }

    -- On a tree in order, tagged_rb_erase leaves a tree in order in which the index is not found
    -- and every other search is as before, and it reports whether the index was found.
    pub tagged_rb_erase_lem :
        (root : Tree) (k : ℕ)
        → Increasing index (inorder root)
        → let (done, t) = tagged_rb_erase index lib root k in IsErased root k done t
    unfolding tagged_rb_erase
    tagged_rb_erase_lem root k h = elim (Option-cases (tagged_rb_search index root k)) [
      | inl e ↦
          subst (λ (x : Bool × Tree). IsErased root k x.0 x.1) (sym (ground (arith, e)))
            (unerased root k h e)
      | inr (p, e) ↦
          subst (λ (x : Bool × Tree). IsErased root k x.0 x.1) (sym (ground (arith, e)))
            (erased root k p h e)
    ]
