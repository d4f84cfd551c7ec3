-- ===== src/Cache/Drain.antt =====
-- `drain_page` and `cleanup_params_fifo_buffer_t` of driver/mmap_generational_fifo_buffer.c: the clean
-- queues are emptied when the buffer is torn down. The loops run alone; where another thread holds the
-- lock of a page they wait, which is no result.
pub mod Drained
pub mod Emptied
pub mod Cleaned
use fast_map.Common.{
  ℕ, zero, suc, ◌+◌, Bool, true, false, ◌==◌, if◌then◌else◌, List, [], ◌∷◌, Option, none, some,
}
use fast_map.TaggedPage.{trylock_tp, ulong_max}
use fast_map.TaggedPage.Mapping.{Rmap, pvr_is_valid, pvr_mk_invalid}
use fast_map.Fifo.{update}
use fast_map.Fifo.Lp
use fast_map.Buffer.{num_queues, set_queue}
use fast_map.PageMap.{free_page_lock}
use fast_map.Write.Flush.{is_taken}
use fast_map.Cache.{Cache, Kernel, pages_of, with_pages, radix_delete_page}

-- The loop over the rmaps: the page table entry and the list of the vma are the kernel's.
unfoldable pub drop_mappings : List Rmap → List Rmap
drop_mappings [] = []
drop_mappings (pvr ∷ rest) =
    let rest' = drop_mappings rest in
    if pvr_is_valid pvr then pvr_mk_invalid pvr ∷ rest' else pvr ∷ rest'

module _ {R : Type 0} (kernel : Kernel R) where
  -- From the deletion in the radix tree on.
  unfoldable pub drain_locked : ℕ → Cache R → Cache R
  unfolding radix_delete_page drop_mappings
  drain_locked p c =
      let c' = radix_delete_page kernel c p in
      let t = pages_of c' p in
      let m = update (pages_of c') p (record t { rmap = drop_mappings t.rmap }) in
      let c'' = with_pages c' m in record c'' { page_map = free_page_lock c''.page_map p }

  unfoldable pub drain_page : ℕ → Bool → Cache R → Option (Cache R)
  unfolding trylock_tp drain_locked
  drain_page p page_locked c =
      let (r, t) = trylock_tp (pages_of c p) ulong_max in
      let locked = with_pages c (update (pages_of c) p t) in
      let waited : Option (Cache R) = elim (is_taken r) [
        | true ↦ some (drain_locked p locked)
        | false ↦ none
      ] in
      if page_locked then some (drain_locked p c) else waited

  -- `while(1)` for one queue, with at most `fuel` rounds.
  unfoldable pub drain_queue : ℕ → ℕ → Cache R → Option (Cache R)
  unfolding Lp.dequeue drain_page
  drain_queue i zero c = none
  drain_queue i (suc fuel) c =
      let (got, f, m) = Lp.dequeue (c.clean i) (pages_of c) in
      let c' = record (with_pages c m) { clean = set_queue c.clean i f } in
      elim got [
        | none ↦ some c'
        | some p ↦ elim (drain_page p false c') [ none ↦ none | some c'' ↦ drain_queue i fuel c'' ]
      ]

  -- `for(i = 0; i < NUM_QUEUES; ++i)`, with `n` queues left.
  unfoldable pub drain_queues : ℕ → ℕ → ℕ → Cache R → Option (Cache R)
  unfolding drain_queue
  drain_queues i zero fuel c = some c
  drain_queues i (suc n) fuel c = elim (drain_queue i fuel c) [
    | none ↦ none
    | some c' ↦ drain_queues (suc i) n fuel c'
  ]

  unfoldable pub cleanup_params : ℕ → Cache R → Option (Cache R)
  unfolding drain_queues
  cleanup_params fuel c = drain_queues 0 num_queues fuel c
