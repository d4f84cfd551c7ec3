-- ===== src/Fault/Mkwrite.antt =====
-- `perma_page_mkwrite` of driver/mmap_fault_handler.c: a write to a page that is mapped read-only. It
-- runs alone: a page that another thread holds stays locked, and the fault handler waits for it.
pub mod Answered
use fast_map.Common.{ℕ, Bool, true, false, Option, none, some}
use fast_map.TaggedPage.{TryLock, taken, already_locked, wrong_index, not_in_use, trylock_tp}
use fast_map.Fifo.{update}
use fast_map.Buffer.{Buffer}
use fast_map.Rbtree.{RbLib}
use fast_map.Fault.Writable.{PrVmaData, dmap_do_tagged_page_writable}

-- `VM_FAULT_NOPAGE` and `VM_FAULT_LOCKED` with the buffer and the device that they leave, the wait for the
-- page's lock, and BUG().
pub data Mkwrite : Type 0 where
  nopage : Buffer → PrVmaData → Mkwrite
  locked : Buffer → PrVmaData → Mkwrite
  waits : Mkwrite
  bug : Mkwrite

abbrev pub writable_now : Option (Buffer × PrVmaData) → Mkwrite
writable_now none = bug
writable_now (some (b, pvd)) = locked b pvd

module _ (lib : RbLib) (num_online_cpus : ℕ) where
  -- What follows each answer of `trylock_tp`, with the page as it left it.
  unfoldable pub answer : TryLock → Buffer → PrVmaData → ℕ → Mkwrite
  unfolding dmap_do_tagged_page_writable
  answer wrong_index b pvd p = nopage b pvd
  answer not_in_use b pvd p = nopage b pvd
  answer already_locked b pvd p = waits
  answer taken b pvd p = writable_now (dmap_do_tagged_page_writable lib num_online_cpus b pvd p)

  -- `p` is the page that `vmf->page->private` points to, `page_offset` is `vmf->pgoff`.
  unfoldable pub perma_page_mkwrite : Buffer → PrVmaData → ℕ → ℕ → Mkwrite
  unfolding answer trylock_tp
  perma_page_mkwrite b pvd p page_offset =
      let (tl, t) = trylock_tp (b.pages p) page_offset in
      answer tl (record b { pages = update b.pages p t }) (record pvd { is_readonly = false }) p
