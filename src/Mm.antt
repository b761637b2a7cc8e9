-- ===== src/Mm.antt =====
-- Memory management: the physical page allocator.
pub mod Pmm
