-- ===== src/TaggedPage/Reset.antt =====
-- The loops that clear the reverse mappings of a page.
use fast_map.Common.{ℕ, suc, ◌+◌, ◌≤◌, ◌≡◌, List, [], ◌∷◌, All, length, arith}
use fast_map.TaggedPage.Mapping.{Rmap}
use fast_map.TaggedPage.Mapping.Fields.{view, IsWord}
use fast_map.TaggedPage.Mapping.Sequences.{unmapped, reset-view, clear-view}
use fast_map.TaggedPage.{each_rmap, clear_rmap, reset_rmap}

-- The entries from number `i` on are unmapped, each with its own index.
abbrev pub AllUnmapped : ℕ → List Rmap → Type 0
AllUnmapped i [] = Unit
AllUnmapped i (p ∷ ps) = (view p ≡ unmapped i) × AllUnmapped (suc i) ps

-- For entries that are machine words and end at index 32 at most, the loop that resets the reverse
-- mappings leaves each of them not valid, without vma, address and CPU, and with its own index.
pub each_rmap-AllUnmapped :
    (i : ℕ) (ps : List Rmap)
    → i + length ps ≤ 32
    → All IsWord ps
    → AllUnmapped i (each_rmap reset_rmap i ps)
unfolding each_rmap reset_rmap
each_rmap-AllUnmapped i [] h w = tt
each_rmap-AllUnmapped i (p ∷ ps) h w =
    (reset-view p i w.0 (omega arith), each_rmap-AllUnmapped (suc i) ps (omega arith) w.1)

clear_rmap-AllUnmapped :
    (i : ℕ) (ps : List Rmap) → i + length ps ≤ 32 → AllUnmapped i (each_rmap clear_rmap i ps)
unfolding each_rmap clear_rmap
clear_rmap-AllUnmapped i [] h = tt
clear_rmap-AllUnmapped i (p ∷ ps) h = (
  clear-view (record { vma = 0; vaddr = 0 }) i (omega arith) (omega arith),
  clear_rmap-AllUnmapped (suc i) ps (omega arith),
)
