-- ===== src/Kernel/Arch.antt =====
-- Descriptor tables and interrupts, kernel/arch/x86_64/.
pub mod Gdt
pub mod Pic
pub mod Idt
