-- ===== src/Tz.antt =====
-- examples/minimal-tz: a Secure world that guards a secret, and a Non-Secure world that calls it.
pub mod Layout
pub mod Config
pub mod Secret
pub mod Service
pub mod Start
pub mod Client
pub mod Objects
pub mod Main
pub mod Attack
pub mod Secrecy
pub mod Linker
