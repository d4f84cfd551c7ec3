-- ===== src/TaggedPage.antt =====
-- `struct tagged_page` of driver/tagged_page.h, with the functions of driver/tagged_page.c. A
-- pointer is a number, 0 for NULL. The physical page belongs to its tagged page, so the fields of
-- `struct page` that the driver uses stand in the same record. `spin_lock` pairs make each function
-- one atomic step. Which queue or free list a page is linked in is the state of those lists.
pub mod Mapping
pub mod Reset
pub mod Lock
use fast_map.Common.{
  ℕ, zero, suc, ◌-◌, ◌+◌, ◌^◌, Bool, true, false, ◌||◌, ◌==◌, if◌then◌else◌, List, [], ◌∷◌,
}
use Mapping.{Rmap, pvr_mk_invalid, pvr_set_idx, pvr_set_vaddr, pvr_set_vma, pvr_set_cpu}

-- buffer_id
abbrev pub bi_none : ℕ
bi_none = 0x00

abbrev pub bi_clean : ℕ
bi_clean = 0x01

abbrev pub bi_dirty : ℕ
bi_dirty = 0x02

abbrev pub max_rmaps_per_page : ℕ
max_rmaps_per_page = 3

abbrev pub ulong_max : ℕ
ulong_max = 2 ^ 64 - 1

pub record TaggedPage : Type 0 where
  pub rmap : List Rmap
  -- `page`, and of the page it points to: `index`, PG_locked, PG_dirty, PG_reserved, `private` set
  pub page : ℕ
  pub index : ℕ
  pub locked : Bool
  pub page_dirty : Bool
  pub reserved : Bool
  -- `pvd`: the block device or file of the page
  pub pvd : ℕ
  pub page_valid : ℕ
  pub is_dirty : ℕ
  pub buffer_id : ℕ
  pub in_use : ℕ
  pub priority : ℕ
  pub cpuid : ℕ

-- The body of the rmap loop of `clear_tagged_page_meta_data`, for entry `i`.
unfoldable pub clear_rmap : ℕ → Rmap → Rmap
clear_rmap i p =
    let p = record p { vma = 0; vaddr = 0 } in
    let p = pvr_mk_invalid p in
    let p = pvr_set_idx p i in
    let p = pvr_set_vaddr p 0 in let p = pvr_set_vma p 0 in pvr_set_cpu p 0

-- The body of the rmap loops of `alloc_page_lock` and `free_page_lock`.
unfoldable pub reset_rmap : ℕ → Rmap → Rmap
reset_rmap i p =
    let p = pvr_mk_invalid p in
    let p = pvr_set_vaddr p 0 in
    let p = pvr_set_vma p 0 in let p = pvr_set_cpu p 0 in pvr_set_idx p i

-- `for(i = 0; i < MAX_RMAPS_PER_PAGE; i++)`: the array has that many entries.
unfoldable pub each_rmap : (ℕ → Rmap → Rmap) → ℕ → List Rmap → List Rmap
each_rmap f i [] = []
each_rmap f i (p ∷ ps) = f i p ∷ each_rmap f (suc i) ps

unfoldable pub clear_tagged_page_meta_data : TaggedPage → TaggedPage
clear_tagged_page_meta_data t = record t {
  in_use = 0;
  page_valid = 0;
  page = 0;
  buffer_id = bi_none;
  rmap = each_rmap clear_rmap 0 t.rmap;
}

unfoldable pub init_tagged_page_meta_data : TaggedPage → TaggedPage
init_tagged_page_meta_data t = record (clear_tagged_page_meta_data t) { is_dirty = 0; in_use = 0 }

-- `fresh` is what `alloc_pages_node(cpu_to_node(cpu), GFP_NOIO, 0)` of the kernel returns.
unfoldable pub alloc_tagged_page_data : ℕ → TaggedPage → TaggedPage
alloc_tagged_page_data fresh t = record t { page = fresh; reserved = true }

unfoldable pub free_tagged_page_data : TaggedPage → TaggedPage
free_tagged_page_data t = record t { reserved = false; page = 0 }

-- What `trylock_tp` returns: 0, -1, -2 and -3.
pub data TryLock : Type 0 where
  taken already_locked wrong_index not_in_use : TryLock

-- An index of ULONG_MAX matches every page.
unfoldable pub trylock_tp : TaggedPage → ℕ → TryLock × TaggedPage
trylock_tp t index =
    if t.in_use == 1
    then (if (index == ulong_max) || (t.index == index)
        then (if t.locked then (already_locked, t) else (taken, record t { locked = true }))
        else (wrong_index, t))
    else (not_in_use, t)

unfoldable pub unlock_tp : TaggedPage → TaggedPage
unlock_tp t = record t { locked = false }

unfoldable pub locked_tp : TaggedPage → Bool
locked_tp t = t.locked

unfoldable pub is_tagged_page_in_a_buffer : TaggedPage → ℕ → Bool
is_tagged_page_in_a_buffer t buffer_id = t.buffer_id == buffer_id

unfoldable pub tagged_page_dirty : TaggedPage → Bool
tagged_page_dirty t =
    let is_dirty = if t.page_dirty then true else false in
    is_dirty || (if t.is_dirty == 0 then false else true)

unfoldable pub clear_tagged_page_dirty : TaggedPage → TaggedPage
clear_tagged_page_dirty t = if t.page_dirty then record t { page_dirty = false } else t
