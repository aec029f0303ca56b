-- ===== src/Pmp.antt =====
-- examples/minimal-pmp/main.c: M-mode and U-mode on the Hazard3 cores, kept apart by the PMP.
pub mod Link
pub mod Isolate
pub mod Sign
pub mod Trap
pub mod Entry
pub mod Access
pub mod Main
pub mod Attack
