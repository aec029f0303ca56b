-- ===== src/Hw.antt =====
-- The register files that the code programs, and the published rules by which the hardware reads
-- them: the state of the model and the vocabulary of its theorems.
pub mod Sau
pub mod DmaMpu
pub mod Memory
pub mod Pmp
pub mod Array
pub mod Align
