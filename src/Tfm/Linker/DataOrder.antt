-- ===== src/Tfm/Linker/DataOrder.antt =====
-- The order of the sections of reference/linker_s.ld in RAM, and their blocks of 32 bytes.
use rp2350_tz_tee.Prelude.{ℕ, ◌+◌, ◌%◌, ◌≤◌, ◌≡◌, true, arith}
use rp2350_tz_tee.Hw.Align.{align_rules}
use rp2350_tz_tee.Tfm.Defs.{s_msp_stack_size}
use rp2350_tz_tee.Tfm.Linker.{Alignments, IsAlignments}
use rp2350_tz_tee.Tfm.Linker.Data.{DataContents, IsDataContents, DataSwitches, DataMap, place_data}

-- The order of the sections, and the blocks of 32 bytes.
pub record IsDataMap (w : DataSwitches) (origin : ℕ) (y : DataMap) : Type 0 where
  pub shared_in : origin ≤ y.shared_start
  pub shared_some : y.shared_start ≤ y.shared_end
  pub stack_after : y.shared_end ≤ y.stack_start
  pub stack_some : y.stack_start + s_msp_stack_size ≡ y.seal_end
  pub heap_after : y.seal_end ≤ y.heap_end
  pub meta_after : y.heap_end ≤ y.meta_start
  pub meta_some : y.meta_start ≤ y.meta_end
  pub app_after_meta : w.partition_meta ≡ true → y.meta_end ≤ y.app_start
  pub app_after : y.heap_end ≤ y.app_start
  pub app_some : y.app_start ≤ y.app_end
  pub psa_after : y.app_end ≡ y.psa_start
  pub psa_some : y.psa_start ≤ y.psa_end
  pub tfm_after : y.psa_end ≤ y.tfm_start
  pub tfm_some : y.tfm_start ≤ y.bss_end
  pub meta_start_block : y.meta_start % 32 ≡ 0
  pub meta_end_block : y.meta_end % 32 ≡ 0
  pub app_start_block : y.app_start % 32 ≡ 0
  pub app_end_block : y.app_end % 32 ≡ 0

pub place_data-IsDataMap :
    (w : DataSwitches) (k : Alignments) (c : DataContents) (origin : ℕ)
    → IsAlignments k
    → IsDataContents c
    → IsDataMap w origin (place_data w k c origin)
unfolding place_data
place_data-IsDataMap w k c origin align ok = grind (arith, align_rules)
