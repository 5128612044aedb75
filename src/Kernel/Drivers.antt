-- ===== src/Kernel/Drivers.antt =====
-- The device drivers, kernel/drivers.
pub mod Display
pub mod Serial
pub mod Pci
pub mod Audio
pub mod Devices
