-- ===== src/Write/Evict/Found.antt =====
-- A page found in a dirty tree: what taking it out and putting it back leave.
use fast_map.Common.{
  ℕ, ◌+◌, ◌≤◌, ◌<◌, ◌≡◌, refl, subst, true, ◌==◌, if◌then◌else◌, List, [], ◌∷◌, count,
  count-erase_self, count-erase_ne, erase, All, none, some, arith, Bool-cases, inl, inr,
}
use fast_map.Rbtree.{Tree, inorder, RbLib, tagged_rb_search, tagged_rb_insert, tagged_rb_erase}
use fast_map.Rbtree.Search.{Increasing, tagged_rb_search-found}
use fast_map.Rbtree.Insert.{tagged_rb_insert_lem}
use fast_map.Rbtree.Erase.{tagged_rb_erase_lem}
use fast_map.Write.Flush.Sums.{holds}

module _ (lib : RbLib) (index : ℕ → ℕ) where
  none_above : (b q : ℕ) (xs : List ℕ) → All (λ r. b < index r) xs → index q ≤ b → count q xs ≡ 0
  none_above b q [] a h = refl
  none_above b q (x ∷ xs) a h = ground (arith, a.0, none_above b q xs a.1 h)

  pub count-Increasing : (q : ℕ) (xs : List ℕ) → Increasing index xs → count q xs ≤ 1
  count-Increasing q [] h = omega arith
  count-Increasing q (x ∷ xs) h =
      ground (arith, none_above (index x) q xs h.0, count-Increasing q xs h.1)

  count-erase_one :
      (p q : ℕ) (xs : List ℕ)
      → 1 ≤ count p xs
      → count q (erase p xs) + (if q == p then 1 else 0) ≡ count q xs
  count-erase_one p q xs h = ground (arith, count-erase_self p xs, count-erase_ne q p xs)

  pub record IsTakenOut (t : Tree) (p k : ℕ) : Type 0 where
    pub at : index p ≡ k
    pub once : holds p t ≡ 1
    pub in_order : Increasing index (inorder (lib.rb_erase p t))
    pub missing : tagged_rb_search index (lib.rb_erase p t) k ≡ none
    pub others : (q : ℕ) → holds q (lib.rb_erase p t) + (if q == p then 1 else 0) ≡ holds q t

  pub search-IsTakenOut :
      (t : Tree) (p k : ℕ)
      → Increasing index (inorder t)
      → tagged_rb_search index t k ≡ some p
      → IsTakenOut t p k
  unfolding tagged_rb_erase
  search-IsTakenOut t p k o e =
      let (has, at) = tagged_rb_search-found index t k p o e in
      let erased = tagged_rb_erase_lem index lib t k o in
      let same : (tagged_rb_erase index lib t k).1 ≡ lib.rb_erase p t = ground (arith, e) in
      let order : Increasing index (inorder (tagged_rb_erase index lib t k).1) = erased.in_order in
      let gone : tagged_rb_search index (tagged_rb_erase index lib t k).1 k ≡ none =
        ground (arith, erased.found k) in
      record {
        at = at;
        once = omega (arith, has, count-Increasing p (inorder t) o);
        in_order = subst (λ s. Increasing index (inorder s)) same order;
        missing = subst (λ s. tagged_rb_search index s k ≡ none) same gone;
        others =
            λ q. ground (arith, lib.inorder-rb_erase p t has, count-erase_one p q (inorder t) has);
      }

  pub put_back :
      (t : Tree) (p k : ℕ)
      → IsTakenOut t p k
      → let t' = (tagged_rb_insert index lib (lib.rb_erase p t) p).1 in
        Increasing index (inorder t') × ((q : ℕ) → holds q t' ≡ holds q t)
  put_back t p k out =
      let (done, t') = tagged_rb_insert index lib (lib.rb_erase p t) p in
      let ins = tagged_rb_insert_lem index lib (lib.rb_erase p t) p out.in_order in
      let is_done : done ≡ true = elim (Bool-cases done) [
        | inl e ↦ e
        | inr e ↦ absurd ((ins.taken e).0 (ground (arith, out.at, out.missing)))
      ] in
      (ins.in_order, λ q. omega (arith, ins.members q is_done, out.others q))
