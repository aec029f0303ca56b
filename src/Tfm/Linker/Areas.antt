-- ===== src/Tfm/Linker/Areas.antt =====
-- The parts of the Secure image, and the rights that unprivileged code is meant to have in each.
use rp2350_tz_tee.Prelude.{ℕ, Bool, true, false, ◌&&◌, leb, ltb}
use rp2350_tz_tee.Hw.Pmp.{Access, write, execute}
use rp2350_tz_tee.Tfm.Build.{Build}
use rp2350_tz_tee.Tfm.Linker.Link.{Linked}

-- In the order of the script: in flash the vectors with the reset code, the veneers, the list of
-- partitions, the code of the two kinds of partitions, of the SPM and of the unprivileged libraries;
-- in RAM the data shared with the bootloader, the main stack, the pointer to the metadata, the data
-- of the two kinds of partitions, and the data of the SPM.
pub data Part : Type 0 where
  vectors veneers load_list psa_code app_code tfm_code unpriv_code : Part
  shared_data msp_stack sp_meta app_data psa_data tfm_data : Part

abbrev pub between : (start end a : ℕ) → Bool
between start end a = leb start a && ltb a end

unfoldable pub holds : Build → Linked → Part → ℕ → Bool
holds b y vectors a = between y.code.vectors_start y.code.reset_end a
holds b y veneers a = b.use_trustzone && between y.code.veneer_base y.code.veneer_limit a
holds b y load_list a = between y.code.load_list_start y.code.load_list_end a
holds b y psa_code a = between y.code.psa_start y.code.psa_end a
holds b y app_code a = between y.code.app_start y.code.app_end a
holds b y tfm_code a = between y.code.tfm_start y.code.tfm_end a
holds b y unpriv_code a = between y.code.unpriv_start y.code.unpriv_end a
holds b y shared_data a = between y.ram.shared_start y.ram.shared_end a
holds b y msp_stack a = between y.ram.stack_start y.ram.seal_end a
holds b y sp_meta a = b.partition_meta && between y.ram.meta_start y.ram.meta_end a
holds b y app_data a = between y.ram.app_start y.ram.app_end a
holds b y psa_data a = between y.ram.psa_start y.ram.psa_end a
holds b y tfm_data a = between y.ram.tfm_start y.ram.bss_end a

abbrev pub code_rights : Access → Bool
code_rights write = false
code_rights _ = true

abbrev pub data_rights : Access → Bool
data_rights execute = false
data_rights _ = true

-- What unprivileged code is meant to have.
abbrev pub rights : Part → Access → Bool
rights veneers k = code_rights k
rights app_code k = code_rights k
rights unpriv_code k = code_rights k
rights sp_meta k = data_rights k
rights app_data k = data_rights k
rights _ k = false
