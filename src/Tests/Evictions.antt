-- ===== src/Tests/Evictions.antt =====
-- A dirty queue with three pages of one device, two of them with consecutive indices.
use fast_map.Common.{
  ℕ, zero, suc, ◌%◌, ◌<◌, ◌≡◌, ◌⊎◌, refl, subst, arith, ltb, if◌then◌else◌, [], ◌∷◌, count, none,
  some,
}
use fast_map.Fifo.{Fifo, Pages}
use fast_map.Rbtree.{Tree, leaf, node, inorder}
use fast_map.Rbtree.Search.{Increasing}
use fast_map.Fault.Writable.{index_of}
use fast_map.Write.Evict.{Gather, evict}
use fast_map.Write.Evict.Waiting.{IsWaiting, IsEvicted}
use fast_map.Write.Evict.Evicted.{evict-IsEvicted}
use fast_map.Tests.{blank}
use fast_map.Tests.Trees.{plain}

-- A page's index is its address.
abbrev memory : Pages
memory p = blank (if ltb p 100 then p else 0)

abbrev waiting_queue : Fifo
waiting_queue = record { buffer = 3 ∷ 2 ∷ 9 ∷ []; max_size = 9; size = 3 }

abbrev dirty_trees : ℕ → ℕ → Tree
dirty_trees (suc zero) zero = node (node leaf 2 leaf) 3 (node leaf 9 leaf)
dirty_trees (suc zero) (suc c) = leaf
dirty_trees zero c = leaf
dirty_trees (suc (suc d)) c = leaf

dirty_trees-Increasing : (d c : ℕ) → Increasing (index_of memory) (inorder (dirty_trees d c))
dirty_trees-Increasing (suc zero) zero =
    ((omega arith, (omega arith, tt)), ((omega arith, tt), (tt, tt)))
dirty_trees-Increasing (suc zero) (suc c) = tt
dirty_trees-Increasing zero c = tt
dirty_trees-Increasing (suc (suc d)) c = tt

dirty_trees-homed : (d c q : ℕ) → 0 < count q (inorder (dirty_trees d c)) → (memory q).index % 1 ≡ c
dirty_trees-homed (suc zero) zero q h = omega arith
dirty_trees-homed (suc zero) (suc c) q h = absurd (omega (arith, h))
dirty_trees-homed zero c q h = absurd (omega (arith, h))
dirty_trees-homed (suc (suc d)) c q h = absurd (omega (arith, h))

dirty_trees-queued :
    (d c q : ℕ) → 0 < count q (inorder (dirty_trees d c)) → 0 < count q (3 ∷ 2 ∷ 9 ∷ [])
dirty_trees-queued (suc zero) zero q h = ground (arith, h)
dirty_trees-queued (suc zero) (suc c) q h = absurd (omega (arith, h))
dirty_trees-queued zero c q h = absurd (omega (arith, h))
dirty_trees-queued (suc (suc d)) c q h = absurd (omega (arith, h))

waiting_queue-IsWaiting : IsWaiting plain 1 0 memory dirty_trees waiting_queue
waiting_queue-IsWaiting = record {
  valid = record { counted = refl; bounded = omega arith; word = omega arith };
  ordered = dirty_trees-Increasing;
  homed = dirty_trees-homed;
  queued = λ d c q h o. dirty_trees-queued d c q h;
  dirty = λ q h.
      subst (λ (c : ℕ). 0 < count q (inorder (dirty_trees 1 c))) {x = 0} {y = (memory q).index % 1}
        (omega arith) (ground (arith, h));
  owned = λ q h. ground (arith, h);
  word = λ q. ground arith;
}

evict-IsEvicted_example :
    let (got, f, m) = evict plain 1 0 waiting_queue memory dirty_trees in
    ((got ≡ none) × ((q : ℕ) → count q f.buffer ≡ count q (3 ∷ 2 ∷ 9 ∷ [])))
    ⊎ ((g : Gather) × (got ≡ some g) × IsEvicted plain 1 0 memory dirty_trees waiting_queue g)
evict-IsEvicted_example =
    evict-IsEvicted plain 1 0 memory dirty_trees waiting_queue waiting_queue-IsWaiting
