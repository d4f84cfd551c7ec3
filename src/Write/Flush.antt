-- ===== src/Write/Flush.antt =====
-- `write_dirty_pages` of driver/write_dirty_pages.c with one red-black tree of dirty pages for each
-- CPU. It runs alone: a page that another thread holds stays locked, so the loop that waits for its
-- lock does not end, which is `none`; so is a write outside of the heap's array. `write_bio_async` and `write_file_async` take the batches.
pub mod Sums
pub mod Invariant
pub mod Fetch
pub mod Batch
pub mod Whole
pub mod Flushed
pub mod Rounds
pub mod Sent
use fast_map.Common.{
  ℕ, zero, suc, ◌==◌, ltb, Bool, true, false, if◌then◌else◌, List, [], ◌∷◌, ◌++◌, Option, none,
  some, length,
}
use fast_map.TaggedPage.{TryLock, taken, trylock_tp, ulong_max}
use fast_map.Fifo.{Pages, update}
use fast_map.Buffer.{Buffer}
use fast_map.Buffer.Written.{unlock_pages}
use fast_map.Rbtree.{Tree, RbLib, rb_empty_root}
use fast_map.Fault.Writable.{set_tree}
use fast_map.Write.Heap.{
  HeapNode, MinHeap, min_heap_create, min_heap_is_empty, min_heap_insert, min_heap_delete_min,
}

-- PAGE_SIZE / sizeof(struct tagged_page *)
abbrev pub max_pages : ℕ
max_pages = 512

-- What the function works on, and the batches that it has handed over.
pub record Flush : Type 0 where
  pub buffer : Buffer
  -- `pvd->dirty_tree`
  pub trees : ℕ → Tree
  pub heap : MinHeap
  -- `pages[0..num_pages)`
  pub pages : List ℕ
  pub written : List (List ℕ)

abbrev pub is_taken : TryLock → Bool
is_taken taken = true
is_taken _ = false

-- `__page_cleanup`, or NULL.
abbrev pub Cleanup : Type 0
Cleanup = Option (Buffer → ℕ → Buffer)

abbrev pub clean_up : Cleanup → Buffer → ℕ → Buffer
clean_up none b p = b
clean_up (some f) b p = f b p

-- A batch is written and unlocked.
unfoldable pub write_batch : Flush → Flush
unfolding unlock_pages
write_batch s = record s {
  buffer = record s.buffer { pages = unlock_pages s.buffer.pages s.pages };
  pages = [];
  written = s.written ++ s.pages ∷ [];
}

-- `hn.p` is cleaned up and goes into the array, which is written when it is full.
unfoldable pub add_page : Cleanup → ℕ → Flush → Flush
unfolding write_batch
add_page cleanup p s =
    let s' : Flush = record s { buffer = clean_up cleanup s.buffer p; pages = s.pages ++ p ∷ [] } in
    if length s'.pages == max_pages then write_batch s' else s'

module _ (lib : RbLib) where
  -- The first page of a tree that is not empty is locked and goes from the tree to the heap.
  unfoldable pub take_first : ℕ → Option ℕ → Flush → Option Flush
  unfolding trylock_tp min_heap_insert
  take_first cpu none s = none
  take_first cpu (some p) s =
      let (r, t) = trylock_tp (s.buffer.pages p) ulong_max in
      let s' : Option Flush = elim (min_heap_insert s.heap cpu t.index p) [
        | none ↦ none
        | some heap ↦ some (record s {
          buffer = record s.buffer { pages = update s.buffer.pages p t };
          heap = heap;
          trees = set_tree s.trees cpu (lib.rb_erase p (s.trees cpu));
        })
      ] in
      if is_taken r then s' else none

  -- `while(!locked)`
  unfoldable pub fetch : ℕ → Flush → Option Flush
  unfolding take_first
  fetch cpu s =
      let first = take_first cpu (lib.rb_first (s.trees cpu)) s in
      if rb_empty_root (s.trees cpu) then some s else first

  -- `for(cpu = 0; cpu < ncpus; ++cpu)`, with `n` rounds left.
  unfoldable pub fill_heap : ℕ → ℕ → Flush → Option Flush
  unfolding fetch
  fill_heap zero cpu s = some s
  fill_heap (suc n) cpu s = elim (fetch cpu s) [ none ↦ none | some s' ↦ fill_heap n (suc cpu) s' ]

  -- `while(!min_heap_is_empty(mh))`: each round takes one page, so that many rounds are enough.
  unfoldable pub drain_heap : Cleanup → ℕ → Flush → Option Flush
  unfolding fetch add_page min_heap_is_empty min_heap_delete_min
  drain_heap cleanup zero s = if min_heap_is_empty s.heap then some s else none
  drain_heap cleanup (suc fuel) s = elim (min_heap_is_empty s.heap) [
    | true ↦ some s
    | false ↦
        let (hn, heap) = min_heap_delete_min s.heap in
        elim (fetch hn.cpu (record s { heap = heap })) [
          | none ↦ none
          | some s' ↦ drain_heap cleanup fuel (add_page cleanup hn.page s')
        ]
  ]

  unfoldable pub write_dirty_pages : ℕ → Cleanup → ℕ → Buffer → (ℕ → Tree) → Option Flush
  unfolding fill_heap drain_heap write_batch min_heap_create
  write_dirty_pages fuel cleanup ncpus b trees =
      elim (fill_heap ncpus 0
        (record { buffer = b; trees = trees; heap = min_heap_create; pages = []; written = [] })) [
          | none ↦ none
          | some s ↦ elim (drain_heap cleanup fuel s) [
            | none ↦ none
            | some s' ↦ some (if ltb 0 (length s'.pages) then write_batch s' else s')
          ]
        ]
