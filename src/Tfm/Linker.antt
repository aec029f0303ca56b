-- ===== src/Tfm/Linker.antt =====
-- reference/linker_s.ld: where the Secure image of TF-M lies. Builds with code sharing, RAM vectors,
-- code in RAM or a size for the vector table are left out.
pub mod Code
pub mod CodeOrder
pub mod Data
pub mod DataOrder
pub mod Link
pub mod Table
pub mod Areas
pub mod Rights
pub mod Guarded
pub mod Bound
pub mod Gated
pub mod Sealed
use rp2350_tz_tee.Prelude.{ℕ, ◌+◌, ◌%◌, ◌<◌, ◌≡◌, Bool}

-- tfm_s_linker_alignments.h
pub record Alignments : Type 0 where
  pub veneers : ℕ
  pub psa_code : ℕ
  pub app_code : ℕ
  pub unpriv_code : ℕ
  pub pt_ro : ℕ
  pub shared_data : ℕ
  pub msp_stack : ℕ
  pub sp_meta : ℕ
  pub app_data : ℕ
  pub psa_data : ℕ

abbrev pub IsBlocks : ℕ → Type 0
IsBlocks k = (0 < k) × (k % 32 ≡ 0)

-- The header aligns what an MPU region covers, or what the SAU does, to its blocks.
pub record IsAlignments (k : Alignments) : Type 0 where
  pub veneers : IsBlocks k.veneers
  pub psa_code : IsBlocks k.psa_code
  pub app_code : IsBlocks k.app_code
  pub unpriv_code : IsBlocks k.unpriv_code
  pub pt_ro : 0 < k.pt_ro
  pub shared_data : 0 < k.shared_data
  pub msp_stack : 0 < k.msp_stack
  pub sp_meta : IsBlocks k.sp_meta
  pub app_data : IsBlocks k.app_data
  pub psa_data : IsBlocks k.psa_data

-- What the object files put into a section whose place the script leaves open: the alignment and
-- the bytes, with the padding between the parts.
pub record Contents : Type 0 where
  pub align : ℕ
  pub size : ℕ
