-- ===== src/Kernel/Memory.antt =====
-- The memory manager, kernel/memory/memory.c.
pub mod Bitmap
pub mod Pmm
pub mod Kmalloc
pub mod Vmm
pub mod Swap
pub mod Setup
pub mod Status
