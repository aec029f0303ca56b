-- ===== src/Examples.antt =====
-- The theorems at concrete inputs.
pub mod Tz
pub mod TzRun
pub mod TzAttack
pub mod Pmp
pub mod PmpRun
pub mod Tfm
pub mod TzLink
