-- ===== src/Tests/Frames.antt =====
-- The free lists and the NUMA distances.
use fast_map.Common.{ℕ, ◌+◌, ◌≡◌, refl, arith, ltb, ◌==◌, if◌then◌else◌, List, [], ◌∷◌, none}
use fast_map.PageMap.{PageMap, init_hash_table_free_pages, alloc_page_lock}
use fast_map.PageMap.Homed.{IsHomed}
use fast_map.PageMap.Init.{init_hash_table_free_pages-IsHomed}
use fast_map.PageMap.Alloc.{Allocated, alloc_page_lock-Allocated}
use fast_map.PageMap.Leak.{alloc_page_lock-loses}
use fast_map.PageMap.Distance.{distance_row, Sorted, count_to, distance_row-Sorted}
use fast_map.Tests.{blank}

-- Two CPUs with two pages each; physical pages at 100 and on.
abbrev four : PageMap
four = init_hash_table_free_pages (λ i. i + 100) 2 blank 4

four-IsHomed : IsHomed 2 2 four
four-IsHomed = init_hash_table_free_pages-IsHomed (λ i. i + 100) 2 4 blank

abbrev all_cpus : ℕ → List ℕ
all_cpus node = 0 ∷ 1 ∷ []

-- CPU 0 is in node 0, CPU 1 in node 1.
abbrev one_cpu : ℕ → List ℕ
one_cpu node = node ∷ []

init_hash_table_free_pages-IsHomed_example :
    IsHomed 3 2 (init_hash_table_free_pages (λ i. i + 100) 3 blank 6)
init_hash_table_free_pages-IsHomed_example =
    init_hash_table_free_pages-IsHomed (λ i. i + 100) 3 6 blank

alloc_page_lock-Allocated_example :
    let (found, pm') = alloc_page_lock all_cpus (0 ∷ []) four 77 5 in
    Allocated 2 2 77 5 (0 ∷ 1 ∷ []) four found pm'
alloc_page_lock-Allocated_example = alloc_page_lock-Allocated 2 2 77 5 0 all_cpus four four-IsHomed

-- A map of which page 1 is in use and page 0 free.
abbrev half : PageMap
half = record {
  fl = λ c. if c == 0 then 0 ∷ [] else [];
  pages = λ p. if p == 0 then record (blank 0) { in_use = 0 } else blank 0;
  total_num_pages = 2;
}

half-IsHomed : IsHomed 1 2 half
half-IsHomed = record { listed = λ c p. ground arith; home = λ c p o u. ground (arith, o, u) }

alloc_page_lock-loses_example :
    let (found, pm') = alloc_page_lock one_cpu (0 ∷ 1 ∷ []) half 77 5 in
    (found ≡ none) × (pm'.fl 0 ≡ []) × ((pm'.pages 0).in_use ≡ (half.pages 0).in_use)
alloc_page_lock-loses_example =
    alloc_page_lock-loses one_cpu 0 1 0 1 0 [] [] [] half 77 5 refl refl refl
      ((λ e. ground (arith, e), refl), tt)

-- Node 2 is the nearest, then 0, then 1.
abbrev distance : ℕ → ℕ
distance node = if node == 2 then 10 else if node == 0 then 20 else 30

distance_row-Sorted_example :
    Sorted distance 3 (distance_row distance 3)
    × ((node : ℕ)
        → count_to distance 3 (distance_row distance 3) node ≡ (if ltb node 3 then 1 else 0))
distance_row-Sorted_example = distance_row-Sorted distance 3 (omega arith)
