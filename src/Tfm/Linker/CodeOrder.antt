-- ===== src/Tfm/Linker/CodeOrder.antt =====
-- The order of the sections of reference/linker_s.ld in flash, and their blocks of 32 bytes.
use rp2350_tz_tee.Prelude.{ℕ, ◌%◌, ◌≤◌, ◌≡◌, true, if◌then◌else◌, arith}
use rp2350_tz_tee.Hw.Align.{align_rules}
use rp2350_tz_tee.Tfm.Linker.{Alignments, IsAlignments}
use rp2350_tz_tee.Tfm.Linker.Code.{CodeContents, IsCodeContents, Veneers, CodeMap, place_code}
use rp2350_tz_tee.Hw.Align.{align_rules}

-- The order of the sections, and the blocks of 32 bytes.
pub record IsCodeMap (v : Veneers) (origin : ℕ) (y : CodeMap) : Type 0 where
  pub vectors_in : origin ≤ y.vectors_start
  pub vectors_some : y.vectors_start ≤ y.reset_end
  pub list_after : y.reset_end ≤ y.load_list_start
  pub list_some : y.load_list_start ≤ y.load_list_end
  pub psa_after : y.load_list_end ≤ y.psa_start
  pub psa_some : y.psa_start ≤ y.psa_end
  pub app_after : y.psa_end ≡ y.app_start
  pub app_some : y.app_start ≤ y.app_end
  pub tfm_after : y.app_end ≤ y.tfm_start
  pub tfm_some : y.tfm_start ≤ y.tfm_end
  pub unpriv_after : y.tfm_end ≤ y.unpriv_start
  pub unpriv_some : y.unpriv_start ≤ y.unpriv_end
  pub ends : y.unpriv_end ≤ y.code_end
  pub tag_after : y.code_end ≤ y.pt_ro_end
  pub veneers_some : y.veneer_base ≤ y.veneer_limit
  pub veneers_after : (if v.at_end then y.unpriv_end else y.reset_end) ≤ y.veneer_base
  pub veneers_before :
      v.use_trustzone ≡ true → y.veneer_limit ≤ (if v.at_end then y.code_end else y.load_list_start)
  pub app_start_block : y.app_start % 32 ≡ 0
  pub app_end_block : y.app_end % 32 ≡ 0
  pub unpriv_start_block : y.unpriv_start % 32 ≡ 0
  pub unpriv_end_block : y.unpriv_end % 32 ≡ 0
  pub veneer_base_block : y.veneer_base % 32 ≡ 0
  pub veneer_limit_block : y.veneer_limit % 32 ≡ 0

pub place_code-IsCodeMap :
    (v : Veneers) (k : Alignments) (c : CodeContents) (origin : ℕ)
    → IsAlignments k
    → IsCodeContents c
    → IsCodeMap v origin (place_code v k c origin)
unfolding place_code
place_code-IsCodeMap v k c origin align ok = grind (arith, align_rules)
