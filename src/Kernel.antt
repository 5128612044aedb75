-- ===== src/Kernel.antt =====
-- The kernel, kernel/.
pub mod Io
pub mod Memory
pub mod Drivers
pub mod Arch
pub mod Boot
