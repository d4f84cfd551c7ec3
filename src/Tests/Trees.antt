-- ===== src/Tests/Trees.antt =====
-- Dirty trees.
use fast_map.Common.{ℕ, ◌+◌, ◌≡◌, refl, ap, arith, List, [], ◌∷◌, erase, none}
use fast_map.Rbtree.{
  Tree, leaf, node, inorder, head?, RbLib, tagged_rb_search, tagged_rb_greater_equal,
  tagged_rb_insert, tagged_rb_erase,
}
use fast_map.Rbtree.Search.{Increasing, find, tagged_rb_search-find}
use fast_map.Rbtree.Insert.{IsInserted, tagged_rb_insert_lem}
use fast_map.Rbtree.Erase.{IsErased, tagged_rb_erase_lem}
use fast_map.Rbtree.Nearest.{tagged_rb_greater_equal-passes}

-- A list as a tree without left children.
abbrev pub spine : List ℕ → Tree
spine [] = leaf
spine (p ∷ ps) = node leaf p (spine ps)

pub inorder-spine : (ps : List ℕ) → inorder (spine ps) ≡ ps
inorder-spine [] = refl
inorder-spine (p ∷ ps) = ap (λ (qs : List ℕ). p ∷ qs) (inorder-spine ps)

-- A tree library that does not balance.
abbrev pub plain : RbLib
plain = record {
  rb_insert_color = λ p t. t;
  rb_erase = λ p t. spine (erase p (inorder t));
  rb_first = λ t. head? (inorder t);
  inorder-rb_insert_color = λ p t. refl;
  inorder-rb_erase = λ p t h. inorder-spine (erase p (inorder t));
  rb_first-head? = λ t. refl;
}

-- The page at address p has index p + 100.
abbrev index : ℕ → ℕ
index p = p + 100

abbrev three : Tree
three = node (node leaf 1 leaf) 5 (node leaf 8 leaf)

three-Increasing : Increasing index (inorder three)
three-Increasing = ((omega arith, (omega arith, tt)), ((omega arith, tt), (tt, tt)))

tagged_rb_search-find_example : tagged_rb_search index three 108 ≡ find index 108 (inorder three)
tagged_rb_search-find_example = tagged_rb_search-find index three 108 three-Increasing

tagged_rb_insert_lem_example :
    let (done, t) = tagged_rb_insert index plain three 6 in IsInserted index plain three 6 done t
tagged_rb_insert_lem_example = tagged_rb_insert_lem index plain three 6 three-Increasing

tagged_rb_erase_lem_example :
    let (done, t) = tagged_rb_erase index plain three 105 in IsErased index three 105 done t
tagged_rb_erase_lem_example = tagged_rb_erase_lem index plain three 105 three-Increasing

tagged_rb_greater_equal-passes_example : tagged_rb_greater_equal index three 103 ≡ none
tagged_rb_greater_equal-passes_example =
    tagged_rb_greater_equal-passes index (node leaf 1 leaf) (node leaf 8 leaf) 5 103
      (λ e. ground (arith, e)) (omega arith, tt) (omega arith)
