-- ===== src/Tests/Rounds.antt =====
-- The dirty pages of two CPUs, written back with the cleanup of `raw_release`.
use fast_map.Common.{count, ℕ, zero, suc, ◌≡◌, refl, arith, ltb, if◌then◌else◌, [], none, some}
use fast_map.Fifo.{Fifo}
use fast_map.Buffer.{Buffer, move_page_d2c}
use fast_map.Rbtree.{Tree, leaf, node, inorder}
use fast_map.Rbtree.Search.{Increasing}
use fast_map.Fault.Writable.{index_of}
use fast_map.Write.Flush.{Flush, write_dirty_pages}
use fast_map.Write.Flush.Flushed.{
  IsReady, IsFlushed, move_page_d2c-IsHarmless, write_dirty_pages-IsFlushed,
}
use fast_map.Write.Flush.Rounds.{write_dirty_pages-rounds}
use fast_map.Write.Flush.Sums.{over, holds}
use fast_map.Write.Flush.Whole.{Ascending}
use fast_map.Write.Flush.Sent.{sent, write_dirty_pages-sent}
use fast_map.Tests.{blank}
use fast_map.Tests.Trees.{plain}

abbrev no_pages : Fifo
no_pages = record { buffer = []; max_size = 9; size = 0 }

abbrev unlocked_pages : Buffer
unlocked_pages = record { clean = λ q. no_pages; dirty = λ q. no_pages; pages = blank }

-- A page's index is its address.
abbrev two_trees : ℕ → Tree
two_trees zero = node (node leaf 2 leaf) 4 leaf
two_trees (suc zero) = node leaf 3 (node leaf 7 leaf)
two_trees (suc (suc c)) = leaf

two_trees-Increasing : (c : ℕ) → Increasing (index_of blank) (inorder (two_trees c))
two_trees-Increasing zero = ((omega arith, tt), (tt, tt))
two_trees-Increasing (suc zero) = ((omega arith, tt), (tt, tt))
two_trees-Increasing (suc (suc c)) = tt

two_trees-IsReady : IsReady 2 unlocked_pages two_trees
two_trees-IsReady = record {
  ordered = two_trees-Increasing;
  once = λ q. ground arith;
  unlocked = λ q h. refl;
  used = λ q h. refl;
}

write_dirty_pages-IsFlushed_example :
    (s : Flush) × (write_dirty_pages plain 4 (some move_page_d2c) 2 unlocked_pages two_trees
      ≡ some s)
    × IsFlushed 2 unlocked_pages two_trees s
write_dirty_pages-IsFlushed_example =
    write_dirty_pages-IsFlushed plain 2 (some move_page_d2c) move_page_d2c-IsHarmless unlocked_pages
      two_trees 4 (omega arith) two_trees-IsReady (omega arith)

write_dirty_pages-rounds_example :
    (s : Flush) × ((fuel : ℕ)
      → write_dirty_pages plain fuel (some move_page_d2c) 2 unlocked_pages two_trees
        ≡ (if ltb fuel 4 then none else some s))
write_dirty_pages-rounds_example =
    write_dirty_pages-rounds plain 2 (some move_page_d2c) move_page_d2c-IsHarmless unlocked_pages
      two_trees (omega arith) two_trees-IsReady

-- BIO_MAX_PAGES large enough for a batch.
write_dirty_pages-sent_example :
    (s : Flush) × (write_dirty_pages plain 4 (some move_page_d2c) 2 unlocked_pages two_trees
      ≡ some s)
    × ((q : ℕ) → count q (sent (index_of blank) 512 s.written) ≡ over (holds q) two_trees 2)
    × Ascending (index_of blank) 0 (sent (index_of blank) 512 s.written)
write_dirty_pages-sent_example =
    write_dirty_pages-sent plain 2 512 (some move_page_d2c) unlocked_pages two_trees (omega arith)
      move_page_d2c-IsHarmless two_trees-IsReady (omega arith)
