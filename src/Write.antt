-- ===== src/Write.antt =====
-- Writing dirty pages back: driver/write_dirty_pages.c.
pub mod Merge
pub mod Flush
pub mod Evict
pub mod Heap
