-- ===== src/Write/Evict.antt =====
-- How `evictor_thread` of driver/mmap_generational_fifo_buffer.c gathers dirty pages: one from the head
-- of its queue, then those of the same device with the next indices. It runs alone; a page that another
-- thread has locked is passed over.
pub mod Found
pub mod Looked
pub mod Gathered
pub mod Waiting
pub mod Evicted
use fast_map.Common.{
  ℕ, zero, suc, ◌+◌, ◌/◌, ◌%◌, ◌^◌, ltb, ◌==◌, not, Bool, true, false, if◌then◌else◌, List, [], ◌∷◌,
  ◌++◌, Option, none, some, length,
}
use fast_map.TaggedPage.{trylock_tp, ulong_max}
use fast_map.Fifo.{Fifo, Pages, Taken, update}
use fast_map.Fifo.D
use fast_map.Buffer.{evictor_threads}
use fast_map.Rbtree.{Tree, RbLib, tagged_rb_search, tagged_rb_insert, tagged_rb_erase}
use fast_map.Fault.Writable.{set_tree, index_of}
use fast_map.Write.Flush.{is_taken}

-- The memory of pages, the evictor's dirty queue, the dirty trees of `pvd`, and `pgs[0..num_pgs)`.
pub record Gather : Type 0 where
  pub pages : Pages
  pub queue : Fifo
  pub trees : ℕ → Tree
  pub pgs : List ℕ

unfoldable pub ev_deq : Pages → ℕ → Bool × Pages
unfolding trylock_tp
ev_deq m p = let (r, t) = trylock_tp (m p) ulong_max in (is_taken r, update m p t)

-- `pgs` is a page of 4096 bytes; `iter++ >= 2048` ends the loop after this many rounds.
abbrev pub max_evict : ℕ
max_evict = 512

abbrev pub max_rounds : ℕ
max_rounds = 2049

-- The evictor that pages of this index belong to.
abbrev pub owner : ℕ → ℕ
owner offset = offset / 2 ^ 9 % evictor_threads

module _ (lib : RbLib) (num_online_cpus : ℕ) where
  -- A page that was found leaves its tree and, where its lock is free, the queue; else it goes back
  -- into the tree.
  unfoldable pub take_page : ℕ → ℕ → Gather → Gather
  unfolding D.remove_if ev_deq tagged_rb_insert
  take_page id p g =
      let tree = lib.rb_erase p (g.trees id) in
      let (ret, f, m) = D.remove_if ev_deq g.queue g.pages p in
      let (done, tree') = tagged_rb_insert (index_of m) lib tree p in
      record {
        pages = m;
        queue = f;
        trees = set_tree g.trees id (if ret then tree else tree');
        pgs = if ret then g.pgs ++ p ∷ [] else g.pgs;
      }

  unfoldable pub look_up : ℕ → Gather → Gather
  unfolding tagged_rb_search take_page
  look_up offset g =
      let id = offset % num_online_cpus in
      elim (tagged_rb_search (index_of g.pages) (g.trees id) offset) [
        | none ↦ g
        | some p ↦ take_page id p g
      ]

  -- `while(num_pgs < 512)`, with `n` rounds left.
  unfoldable pub gather : ℕ → ℕ → ℕ → Gather → Gather
  unfolding look_up
  gather ID zero offset g = g
  gather ID (suc n) offset g =
      let rest = gather ID n ((offset + 1) % 2 ^ 64) (look_up offset g) in
      if ltb (length g.pgs) max_evict then (if owner offset == ID then rest else g) else g

  -- The first page leaves its dirty tree. `trees_of` has the dirty trees of each device.
  unfoldable pub gather_from : ℕ → (ℕ → ℕ → Tree) → ℕ → Fifo → Pages → Gather
  unfolding tagged_rb_erase gather
  gather_from ID trees_of p f m =
      let index = (m p).index in
      let trees = trees_of (m p).pvd in
      let dirty_tree_id = index % num_online_cpus in
      let (found, tree) = tagged_rb_erase (index_of m) lib (trees dirty_tree_id) index in
      gather ID max_rounds ((index + 1) % 2 ^ 64)
        (record { pages = m; queue = f; trees = set_tree trees dirty_tree_id tree; pgs = p ∷ [] })

  -- Without a first page nothing is gathered, and the evictor sleeps.
  unfoldable pub after_dequeue : ℕ → (ℕ → ℕ → Tree) → Taken → Option Gather × Fifo × Pages
  unfolding gather_from
  after_dequeue ID trees_of (none, f, m) = (none, f, m)
  after_dequeue ID trees_of (some p, f, m) =
      let g = gather_from ID trees_of p f m in (some g, g.queue, g.pages)

  unfoldable pub evict : ℕ → Fifo → Pages → (ℕ → ℕ → Tree) → Option Gather × Fifo × Pages
  unfolding D.dequeue_if ev_deq after_dequeue
  evict ID queue pages trees_of = after_dequeue ID trees_of (D.dequeue_if ev_deq queue pages)
