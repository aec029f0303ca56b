-- ===== src/Tz/Linker.antt =====
-- The linker scripts of examples/minimal-tz: nonsecure/linker_ns.ld and secure/linker_s.ld.
pub mod Ns
pub mod Image
pub mod Loaded
pub mod Secure
pub mod Guarded
