-- ===== src/Write/Evict/Looked.antt =====
-- One round of the gathering.
use mathlib.Core.Path.{fun_ext}
use mathlib.Core.List.{append-nil}
use fast_map.Common.{
  ℕ, ◌+◌, ◌%◌, ◌≤◌, ◌<◌, ◌≡◌, ◌⊎◌, refl, sym, ap, ◌∙◌, subst, Bool, true, false, ltb, ◌==◌,
  if◌then◌else◌, List, [], ◌∷◌, ◌++◌, count, count-erase_self, count-erase_ne, arith, Bool-cases,
  inl, inr,
}
use fast_map.TaggedPage.{trylock_tp}
use fast_map.Fifo.{Fifo}
use fast_map.Fifo.D
use fast_map.Rbtree.{Tree, inorder, RbLib, tagged_rb_insert}
use fast_map.Rbtree.Search.{Increasing}
use fast_map.Fault.Writable.{set_tree, index_of}
use fast_map.Write.Flush.Sums.{holds}
use fast_map.Write.Evict.{Gather, ev_deq, owner, take_page}
use fast_map.Write.Evict.Found.{IsTakenOut, put_back}

module _ (lib : RbLib) (ncpus ID : ℕ) (index : ℕ → ℕ) where
  -- The trees are in order, each page in the tree of its index, and those that belong to the evictor
  -- are in its queue.
  pub record IsGathering (g : Gather) : Type 0 where
    pub indices : index_of g.pages ≡ index
    pub ordered : (c : ℕ) → Increasing index (inorder (g.trees c))
    pub homed : (c q : ℕ) → 0 < holds q (g.trees c) → index q % ncpus ≡ c
    pub queued :
        (c q : ℕ) → 0 < holds q (g.trees c) → owner (index q) ≡ ID → 0 < count q g.queue.buffer

  -- `new` are the pages that went from the trees and the queue to the batch, and were locked.
  pub record Moved (g g' : Gather) (new : List ℕ) : Type 0 where
    pub inv : IsGathering g'
    pub batch : g'.pgs ≡ g.pgs ++ new
    pub locked :
        (q : ℕ) → (g'.pages q).locked ≡ (if ltb 0 (count q new) then true else (g.pages q).locked)
    pub queue : (q : ℕ) → count q g'.queue.buffer + count q new ≡ count q g.queue.buffer
    pub trees :
        (c q : ℕ)
        → holds q (g'.trees c) + (if index q % ncpus == c then count q new else 0)
          ≡ holds q (g.trees c)

  pub nothing-Moved : (g : Gather) → IsGathering g → Moved g g []
  nothing-Moved g v = record {
    inv = v;
    batch = sym (append-nil g.pgs);
    locked = λ q. refl;
    queue = λ q. omega arith;
    trees = λ c q. ground arith;
  }

  module _ (g : Gather) (v : IsGathering g) (offset p : ℕ) (mine : owner offset ≡ ID)
      (out : IsTakenOut lib index (g.trees (offset % ncpus)) p offset) where
    abbrev pub after : Gather
    after = take_page lib ncpus (offset % ncpus) p g

    abbrev pub tree : Tree
    tree = lib.rb_erase p (g.trees (offset % ncpus))

    -- Another tree of this CPU.
    abbrev pub with_tree : Tree → ℕ → Tree
    with_tree t = set_tree g.trees (offset % ncpus) t

    with_tree-Increasing :
        (t : Tree) (c : ℕ)
        → Increasing index (inorder t)
        → Increasing index (inorder (with_tree t c))
    with_tree-Increasing t c o = elim (Bool-cases (c == offset % ncpus)) [
      | inl e ↦
          subst (λ x. Increasing index (inorder x)) {x = t} {y = with_tree t c} (ground (arith, e))
            o
      | inr e ↦
          subst (λ x. Increasing index (inorder x)) {x = g.trees c} {y = with_tree t c}
            (ground (arith, e)) (v.ordered c)
    ]

    less_held : (c q : ℕ) → holds q (with_tree tree c) ≤ holds q (g.trees c)
    less_held c q = ground (arith, out.others q)

    -- The page is in no other tree.
    gone : (c : ℕ) → holds p (with_tree tree c) ≡ 0
    gone c = ground (arith, out.others p, out.once, out.at, v.homed c p)

    tree_sums :
        (c q : ℕ)
        → holds q (with_tree tree c) + (if index q % ncpus == c then count q (p ∷ []) else 0)
          ≡ holds q (g.trees c)
    tree_sums c q = ground (arith, out.others q, out.at)

    queue_has : 0 < count p g.queue.buffer
    queue_has =
        v.queued (offset % ncpus) p (omega (arith, out.once))
          (ap (λ (k : ℕ). owner k) out.at ∙ mine)

    abbrev pub removed : Fifo
    removed = (D.remove_if ev_deq g.queue g.pages p).1

    removed-count :
        (q : ℕ)
        → (ev_deq g.pages p).0 ≡ true
        → count q removed.buffer + count q (p ∷ []) ≡ count q g.queue.buffer
    unfolding D.remove_if
    removed-count q e =
        ground (
          arith,
          e,
          queue_has,
          count-erase_self p g.queue.buffer,
          count-erase_ne q p g.queue.buffer,
        )

    abbrev pub taken : Gather
    taken = record {
      pages = (D.remove_if ev_deq g.queue g.pages p).2;
      queue = removed;
      trees = with_tree tree;
      pgs = g.pgs ++ p ∷ [];
    }

    pub taken-Moved : (ev_deq g.pages p).0 ≡ true → Moved g taken (p ∷ [])
    unfolding D.remove_if ev_deq trylock_tp
    taken-Moved e = record {
      inv = record {
        indices = fun_ext (λ q. ground (arith, e)) ∙ v.indices;
        ordered = λ c. with_tree-Increasing tree c out.in_order;
        homed = λ c q h. v.homed c q (omega (arith, h, less_held c q));
        queued = λ c q h o.
            let had = v.queued c q (omega (arith, h, less_held c q)) o in
            ground (arith, removed-count q e, had, gone c, h);
      };
      batch = refl;
      locked = λ q. ground (arith, e);
      queue = λ q. removed-count q e;
      trees = tree_sums;
    }

    abbrev kept : Tree → Gather
    kept t = record {
      pages = (D.remove_if ev_deq g.queue g.pages p).2;
      queue = g.queue;
      trees = with_tree t;
      pgs = g.pgs;
    }

    kept-Moved :
        (t : Tree)
        → (ev_deq g.pages p).0 ≡ false
        → Increasing index (inorder t)
        → ((q : ℕ) → holds q t ≡ holds q (g.trees (offset % ncpus)))
        → Moved g (kept t) []
    unfolding D.remove_if ev_deq trylock_tp
    kept-Moved t e o same =
        let held : (c q : ℕ) → holds q (with_tree t c) ≡ holds q (g.trees c) =
          λ c q. ground (arith, same q) in
        record {
          inv = record {
            indices = fun_ext (λ q. ground (arith, e)) ∙ v.indices;
            ordered = λ c. with_tree-Increasing t c o;
            homed = λ c q h. v.homed c q (omega (arith, h, held c q));
            queued = λ c q h m. v.queued c q (omega (arith, h, held c q)) m;
          };
          batch = sym (append-nil g.pgs);
          locked = λ q. ground (arith, e);
          queue = λ q. omega arith;
          trees = λ c q. ground (arith, held c q);
        }

    abbrev back : (ℕ → ℕ) → Tree
    back ix = (tagged_rb_insert ix lib tree p).1

    later_indices : index_of (D.remove_if ev_deq g.queue g.pages p).2 ≡ index
    unfolding D.remove_if ev_deq trylock_tp
    later_indices = fun_ext (λ q. ground arith) ∙ v.indices

    back-holds :
        let t = back (index_of (D.remove_if ev_deq g.queue g.pages p).2) in
        Increasing index (inorder t) × ((q : ℕ) → holds q t ≡ holds q (g.trees (offset % ncpus)))
    back-holds =
        subst
          (λ (ix : ℕ → ℕ).
            Increasing index (inorder (back ix))
            × ((q : ℕ) → holds q (back ix) ≡ holds q (g.trees (offset % ncpus))))
          (sym later_indices) (put_back lib index (g.trees (offset % ncpus)) p offset out)

    removed-done : (D.remove_if ev_deq g.queue g.pages p).0 ≡ (ev_deq g.pages p).0
    unfolding D.remove_if ev_deq
    removed-done = ground arith

    kept-queue : (ev_deq g.pages p).0 ≡ false → removed ≡ g.queue
    unfolding D.remove_if
    kept-queue e = ground (arith, e)

    pub take_page-taken : (ev_deq g.pages p).0 ≡ true → after ≡ taken
    unfolding take_page
    take_page-taken e =
        let d : (D.remove_if ev_deq g.queue g.pages p).0 ≡ true = removed-done ∙ e in
        ap (λ (r : Bool). gathered r) d
      where
        gathered : Bool → Gather
        gathered r = record {
          pages = (D.remove_if ev_deq g.queue g.pages p).2;
          queue = removed;
          trees =
              with_tree
                (if r then tree else back (index_of (D.remove_if ev_deq g.queue g.pages p).2));
          pgs = if r then g.pgs ++ p ∷ [] else g.pgs;
        }

    take_page-kept :
        (ev_deq g.pages p).0 ≡ false
        → after ≡ kept (back (index_of (D.remove_if ev_deq g.queue g.pages p).2))
    unfolding take_page
    take_page-kept e =
        let d : (D.remove_if ev_deq g.queue g.pages p).0 ≡ false = removed-done ∙ e in
        ap (λ (r : Bool). gathered r removed) d ∙ ap (λ (f : Fifo). gathered false f) (kept-queue e)
      where
        gathered : Bool → Fifo → Gather
        gathered r f = record {
          pages = (D.remove_if ev_deq g.queue g.pages p).2;
          queue = f;
          trees =
              with_tree
                (if r then tree else back (index_of (D.remove_if ev_deq g.queue g.pages p).2));
          pgs = if r then g.pgs ++ p ∷ [] else g.pgs;
        }

    pub take_page-Moved : (Moved g after (p ∷ [])) ⊎ (Moved g after [])
    take_page-Moved = elim (Bool-cases (ev_deq g.pages p).0) [
      | inl e ↦ inl (subst (λ x. Moved g x (p ∷ [])) (sym (take_page-taken e)) (taken-Moved e))
      | inr e ↦
          let (o, same) = back-holds in
          inr (subst (λ x. Moved g x []) (sym (take_page-kept e)) (kept-Moved _ e o same))
    ]
