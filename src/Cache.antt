-- ===== src/Cache.antt =====
-- The page cache: `fifo_buffer_t` as a whole with the radix trees of the devices, and the functions of
-- driver/mmap_fault_handler.c that look a page up and put it in. The radix tree is the kernel's
-- (include/linux/radix-tree.h): an interface with the laws that the driver relies on.
pub mod Purge
pub mod Getpage
pub mod Cached
pub mod Steps
pub mod Clear
pub mod Drain
use fast_map.Common.{ℕ, ◌%◌, ◌≡◌, ◌≢◌, Bool, true, ◌==◌, if◌then◌else◌, List, Option, none, some}
use fast_map.Fifo.{Fifo, Pages}
use fast_map.Buffer.{Buffer}
use fast_map.PageMap.{PageMap}
use fast_map.RawDevice.Bitmap.{Bits}

-- `radix_tree_insert` returns 0, -EEXIST or -ENOMEM.
pub data Inserted : Type 0 where
  done exists no_memory : Inserted

pub record RadixLib (R : Type 0) : Type 0 where
  pub radix_tree_lookup : R → ℕ → Option ℕ
  pub radix_tree_insert : R → ℕ → ℕ → Inserted × R
  pub radix_tree_delete : R → ℕ → R
  pub insert-present :
      (t : R) (i p q : ℕ) → radix_tree_lookup t i ≡ some q → radix_tree_insert t i p ≡ (exists, t)
  pub insert-absent :
      (t : R) (i p : ℕ) → radix_tree_lookup t i ≡ none → (radix_tree_insert t i p).0 ≢ exists
  pub lookup-insert :
      (t : R) (i p j : ℕ)
      → (radix_tree_insert t i p).0 ≡ done
      → radix_tree_lookup (radix_tree_insert t i p).1 j
        ≡ (if j == i then some p else radix_tree_lookup t j)
  pub lookup-no_memory :
      (t : R) (i p j : ℕ)
      → (radix_tree_insert t i p).0 ≡ no_memory
      → radix_tree_lookup (radix_tree_insert t i p).1 j ≡ radix_tree_lookup t j
  pub lookup-delete :
      (t : R) (i j : ℕ)
      → radix_tree_lookup (radix_tree_delete t i) j
        ≡ (if j == i then none else radix_tree_lookup t j)

-- Of `struct pr_vma_data`, what a fault reads or writes of the device or file.
pub record Backing : Type 0 where
  -- `type == D_BLKD`
  pub is_block : Bool
  -- `i_size` of the file, or `get_capacity` of the disk
  pub size : ℕ
  -- `meta.rdd->meta[i].priority`
  pub priority : ℕ → ℕ
  -- `meta.rdd->bitmap`
  pub bits : Bits
  pub during_unlink : ℕ

-- `fifo_buffer_t` with its page map, and by the address of its `struct pr_vma_data` each device with
-- its radix tree for each CPU.
pub record Cache (R : Type 0) : Type 0 where
  pub clean : ℕ → Fifo
  pub dirty : ℕ → Fifo
  pub page_map : PageMap
  pub rdx : ℕ → ℕ → R
  pub backing : ℕ → Backing

-- What the driver takes from the kernel: the radix tree, `set_bit`, the number of CPUs that are
-- online, the `vm_mm` of a vma, the CPUs of a node and the nodes by their distance.
pub record Kernel (R : Type 0) : Type 0 where
  pub radix : RadixLib R
  pub set_bit : ℕ → Bits → Bits
  pub set_bit_lem : (i : ℕ) (b : Bits) (j : ℕ) → set_bit i b j ≡ (if j == i then true else b j)
  pub num_online_cpus : ℕ
  pub vm_mm : ℕ → ℕ
  pub cpumask_of_node : ℕ → List ℕ
  pub nodes : List ℕ

module _ {R : Type 0} where
  abbrev pub pages_of : Cache R → Pages
  pages_of c = c.page_map.pages

  abbrev pub with_pages : Cache R → Pages → Cache R
  with_pages c m = record c { page_map = record c.page_map { pages = m } }

  -- The queues and the pages, which the functions of the buffer work on.
  abbrev pub buffer_of : Cache R → Buffer
  buffer_of c = record { clean = c.clean; dirty = c.dirty; pages = pages_of c }

  abbrev pub with_buffer : Cache R → Buffer → Cache R
  with_buffer c b = record (with_pages c b.pages) { clean = b.clean; dirty = b.dirty }

  abbrev pub set_rdx : (ℕ → ℕ → R) → ℕ → ℕ → R → ℕ → ℕ → R
  set_rdx rdx pvd id t = λ d k. if d == pvd then (if k == id then t else rdx d k) else rdx d k

  unfoldable pub fmap_radix_lookup : Kernel R → Cache R → ℕ → ℕ → Option ℕ
  fmap_radix_lookup kernel c pvd offset =
      let radix_tree_id = offset % kernel.num_online_cpus in
      kernel.radix.radix_tree_lookup (c.rdx pvd radix_tree_id) offset

  unfoldable pub fmap_radix_insert : Kernel R → Cache R → ℕ → ℕ → ℕ → Inserted × Cache R
  fmap_radix_insert kernel c pvd offset p =
      let radix_tree_id = offset % kernel.num_online_cpus in
      let (ret, t) = kernel.radix.radix_tree_insert (c.rdx pvd radix_tree_id) offset p in
      (ret, record c { rdx = set_rdx c.rdx pvd radix_tree_id t })

  -- `radix_tree_delete(&pvd->rdx[p->page->index % cpus], p->page->index)`, under the tree's lock.
  unfoldable pub radix_delete_page : Kernel R → Cache R → ℕ → Cache R
  radix_delete_page kernel c p =
      let t = pages_of c p in
      let radix_tree_id = t.index % kernel.num_online_cpus in
      let tree = kernel.radix.radix_tree_delete (c.rdx t.pvd radix_tree_id) t.index in
      record c { rdx = set_rdx c.rdx t.pvd radix_tree_id tree }
