-- ===== src/Lib.antt =====
-- FastMap: a Linux kernel driver that maps files and block devices through a page cache of its own.
--
-- The driver keeps a fixed array of tagged pages (driver/tagged_page.h). A page fault takes a free
-- page from the free list of a CPU (driver/mmap_buffer_hash_table.c), enters the reverse mapping of
-- the faulting vma, and inserts the page in one of 32 clean queues
-- (driver/mmap_generational_fifo_buffer.c, driver/lpfifo_non_atomic.c). A write fault moves it to
-- one of 8 dirty queues (driver/dfifo_non_atomic.c) and inserts it in the dirty tree of its device
-- (driver/mmap_fault_handler.c, driver/mmap_buffer_rbtree.c). The write-back merges dirty pages with
-- consecutive indices into requests (driver/write_dirty_pages.c) and makes them clean again. Devices
-- are bound through a control device and take commands (driver/main.c).
--
-- Files and what they model:
--   TaggedPage: struct tagged_page and driver/tagged_page.c. TaggedPage/Mapping has the packed
--     reverse mappings, TaggedPage/Reset the loops over them, TaggedPage/Lock threads at the page lock.
--   Fifo: the operations that both kinds of queue share, Fifo/Lp and Fifo/D those of each kind,
--     Fifo/Spec the bounded queue that they implement, Fifo/Valid the refinement.
--   Rbtree: the dirty trees. The kernel's lib/rbtree.c is the interface RbLib, with laws on the
--     in-order sequence. Rbtree/Search, Insert, Erase and Nearest are about the four functions.
--   PageMap: buffer_map_t with alloc_page_lock, free_page_lock and init_hash_table_free_pages.
--     PageMap/Homed, Alloc, Init and Leak are about them; PageMap/Distance has the rows that
--     init_numa_distance_vector sorts.
--   Buffer: fifo_buffer_t and its moves; Buffer/Placed has the invariant, Buffer/Steps sequences of
--     calls, Buffer/Moves a comparison of two ways to the tail of a clean queue, Buffer/Etlb the address
--     ranges that clear_mappings gathers for the TLB flush, Buffer/Written the end of a round of
--     evictor_thread.
--   Cache: fifo_buffer_t as a whole, with the radix trees of the cached pages. The kernel's radix tree
--     is the interface RadixLib. Cache/Purge is try_purge_pages_fast, with one round in
--     Cache/Purge/Rounds, the pages gathered in Cache/Purge/Detached, the entries of its etlb in
--     Cache/Purge/Room, the address spaces it meets in Cache/Purge/Spaces, what it leaves in
--     Cache/Purge/Purged and which pages it reaches in Cache/Purge/Reached. Cache/Getpage is
--     perma_getpage (driver/mmap_fault_handler.c), with its new pages in Cache/Getpage/Filled, its
--     rounds in Cache/Getpage/Found and Cache/Getpage/Rounds, its answers in Cache/Getpage/Answered,
--     progress in Cache/Getpage/Completes and Cache/Getpage/Progress and a race in
--     Cache/Getpage/Stale. Cache/Cached is the agreement of trees, queues and free lists, Cache/Steps
--     sequences of faults, purges and unlocks. Cache/Clear has the loops that take all pages of a device
--     or file out: in raw_release (driver/main.c), __clear_pvd (driver/dmapfs_file.c) and wrapfs_unlink
--     (driver/dmapfs_inode.c), with a page of them in Cache/Clear/Removed and Cache/Clear/Round, the
--     loop in Cache/Clear/Cleared and Cache/Clear/Loop, and files in Cache/Clear/Files and Dirty.
--     Cache/Drain has drain_page and cleanup_params_fifo_buffer_t, with one page in Cache/Drain/Drained,
--     one queue in Cache/Drain/Emptied and all of them in Cache/Drain/Cleaned.
--   Fault: dmap_add_or_update_rmap in Fault/Rmaps, dmap_do_tagged_page_writable in Fault/Writable,
--     perma_page_mkwrite in Fault/Mkwrite.
--   Write: the merge array and the requests in Write/Merge, struct min_heap in Write/Heap,
--     write_dirty_pages in Write/Flush with its invariant, its batches, its rounds and the requests
--     that its batches become (Write/Flush/Sent), and the gathering loop of evictor_thread in Write/Evict.
--   RawDevice: driver/main.c. RawDevice/Ioctl has the commands of raw_ioctl (driver/dmap-ioctl.h) with
--     their meaning in RawDevice/Ioctl/Spec, RawDevice/Bind the control device with raw_open and the
--     end of raw_release, RawDevice/Bind/Step sequences of calls. The kernel's bitmap functions and
--     block devices are the interfaces BitmapLib and BlockLib.
--   Common: the names and lemmas that the others share. Tests: the theorems at concrete inputs.
--
-- The state of the program is passed explicitly. The memory of tagged pages is a function from
-- addresses, so pages are shared by address as in C; intrusive lists are lists of addresses, and
-- list_del is the removal of the first occurrence. A function between taking and releasing its
-- spinlocks is one step, and sequences of calls are relations (Buffer/Steps, TaggedPage/Lock,
-- RawDevice/Bind/Step, Cache/Steps). A fault is more than one step: what other CPUs do between the
-- lookup, the allocation, a purge or a wait and the next step is an argument of the fault.
-- Unsigned longs wrap where the code adds to them. DMAP_BGON is compiled out, as it is in
-- driver/shared_defines.h; BUG() is an absent result. Where the code writes outside of an array there
-- is no state afterwards either: heap_array of min_heap has 64 entries, the etlb of a purge 16, a page
-- the reverse mappings of its list, and meta of a raw device one entry for each page. The result is
-- then `none` of min_heap_insert, of write_dirty_pages, of try_purge_pages_fast and of
-- dmap_add_or_update_rmap, the answers `etlb_full` and `rmaps_full` of a fault, or the reply `overrun`
-- of raw_ioctl.
--
-- Loops are structural in the list or the number of rounds left. The two loops of the heap take fuel:
-- the index itself when moving up, which each round lowers, and the size of the heap when moving
-- down, where each round at least moves to a child; the theorems on them hold for all heaps, so the
-- fuel is enough. The loop of write_dirty_pages takes as fuel the number of its rounds; the number of
-- pages in the trees is enough. The loop of evictor_thread has the code's own bound of 2049 rounds.
-- The retries of perma_getpage take fuel, since other CPUs may hold the page forever; two rounds are
-- enough where nothing else runs and a page can be purged. The loops that clear a device or drain a
-- queue take as fuel more than the number of its pages, one of which each round takes out of the trees
-- or the queue.
-- The write-back, the evictor and these loops run alone: where another thread holds the lock of a
-- page, write_dirty_pages and the loops wait, which the model has as no result, and the evictor passes
-- the page over.
--
-- Parameters are the kernel's: the rbtree and radix tree libraries, the bitmap functions, block
-- devices and their numbers, the CPUs of a NUMA node, the distance of nodes, the physical page that an allocation
-- returns, BIO_MAX_PAGES, the number of CPUs, and what a call into the kernel answers.
--
-- Not modelled: the contents of pages, page tables and the TLB flush itself, the block layer and
-- completions, device and file registration, the rest of the stacked file system, parameters in sysfs, and the
-- user-space tools, benchmarks and scripts.
pub mod Common
pub mod TaggedPage
pub mod Fifo
pub mod Rbtree
pub mod PageMap
pub mod Buffer
pub mod Fault
pub mod RawDevice
pub mod Write
pub mod Cache
pub mod Tests
