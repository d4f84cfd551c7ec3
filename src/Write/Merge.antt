-- ===== src/Write/Merge.antt =====
-- The merge array of `write_bio_async` and `write_file_async` of driver/write_dirty_pages.c: entry i
-- is the number of pages of the request that starts at page i, 0 where none starts. Both functions
-- compute it by the same loop. `bio_max` is the kernel's BIO_MAX_PAGES.
pub mod Whole
pub mod Overrun
use fast_map.Common.{
  ℕ, zero, suc, ◌+◌, ◌-◌, ◌%◌, ◌^◌, ◌==◌, if◌then◌else◌, List, [], ◌∷◌, ◌++◌, length, get_or, set,
  take, drop, replicate,
}

-- One round for page `i` with index `x`, after a page with index `base`: the first page of the
-- current request, and the array.
unfoldable pub merge_step : ℕ → ℕ → ℕ → ℕ → ℕ → List ℕ → ℕ × List ℕ
merge_step bio_max base x i base_idx arr =
    if (base + 1) % 2 ^ 64 == x
    then (let arr = set arr base_idx (get_or arr base_idx 0 + 1) in
        let arr = set arr i (get_or arr i 0 - 1) in
        (if get_or arr base_idx 0 == bio_max then i else base_idx, arr))
    else (i, arr)

-- `for(i = 1; i < len; i++)`; the list holds the indices of the pages from `i` on.
unfoldable pub merge_loop : ℕ → ℕ → List ℕ → ℕ → ℕ → List ℕ → List ℕ
merge_loop bio_max base [] i base_idx arr = arr
merge_loop bio_max base (x ∷ xs) i base_idx arr =
    let (base_idx', arr') = merge_step bio_max base x i base_idx arr in
    merge_loop bio_max x xs (suc i) base_idx' arr'

unfoldable pub merges : ℕ → List ℕ → List ℕ
unfolding merge_loop
merges bio_max [] = []
merges bio_max (x ∷ xs) = merge_loop bio_max x xs 1 0 (replicate (suc (length xs)) 1)

-- The loop that submits: each non-zero entry is one request, of the pages from that entry on.
unfoldable pub requests {ℓ} : {A : Type ℓ} → List ℕ → List A → List (List A)
requests [] ps = []
requests (k ∷ arr) ps =
    let rest = requests arr (drop 1 ps) in if k == 0 then rest else take k ps ∷ rest

-- The requests for pages `ps` with the indices `xs`.
unfoldable pub write_async {ℓ} : {A : Type ℓ} → ℕ → List ℕ → List A → List (List A)
unfolding merges requests
write_async bio_max xs ps = requests (merges bio_max xs) ps
