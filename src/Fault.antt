-- ===== src/Fault.antt =====
-- The fault handler: driver/mmap_fault_handler.c.
pub mod Rmaps
pub mod Writable
pub mod Mkwrite
