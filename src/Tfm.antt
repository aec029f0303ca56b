-- ===== src/Tfm.antt =====
-- reference/: the rp2350 port of Trusted Firmware-M.
pub mod Build
pub mod Regions
pub mod Sau
pub mod Dma
pub mod Filter
pub mod Mpu
pub mod Isolation
pub mod Periph
pub mod Flash
pub mod Defs
pub mod Linker
pub mod LinkerNs
