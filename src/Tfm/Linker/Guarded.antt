-- ===== src/Tfm/Linker/Guarded.antt =====
-- What unprivileged code may do in each part of the Secure image after the boundaries are set up.
use rp2350_tz_tee.Prelude.{ℕ, ◌≡◌, true, some, ◌∙◌}
use rp2350_tz_tee.Hw.Pmp.{Access}
use rp2350_tz_tee.Tfm.Mpu.{IsMpuApi, region_num}
use rp2350_tz_tee.Tfm.Isolation.{hal_success, Spe, Platform, tfm_hal_set_up_static_boundaries}
use rp2350_tz_tee.Tfm.Isolation.Access.{IsMpuMacros, unprivileged_allows}
use rp2350_tz_tee.Tfm.Isolation.Allow.{static_boundaries_allow}
use rp2350_tz_tee.Tfm.Linker.{Alignments, IsAlignments}
use rp2350_tz_tee.Tfm.Linker.Link.{
  Image, IsImage, Memories, IsMemories, Linked, link, link-IsLinked, symbols_of,
}
use rp2350_tz_tee.Tfm.Linker.Table.{linked-IsTable}
use rp2350_tz_tee.Tfm.Linker.Areas.{Part, holds, rights}
use rp2350_tz_tee.Tfm.Linker.Rights.{table_allows-chain, linked_rights}

-- Let reference/linker_s.ld link the Secure image into its memories, with flash below RAM and the
-- alignments of TF-M's header in blocks of 32 bytes, and let `tfm_hal_set_up_static_boundaries`
-- succeed on the symbols of that link with memory protection built in. Then the MPU lets
-- unprivileged code read and execute the veneers, the application partitions' code and the
-- unprivileged code, and read and write the application partitions' data and the pointer to the
-- metadata. It lets it do nothing else there, and nothing at all with the vectors and the reset
-- code, the list of partitions, the code and data of the PSA RoT partitions and of the SPM, the
-- data shared with the bootloader and the main stack.
pub linked_boundaries_allow :
    (p : Platform) (boundary : ℕ) (s : Spe p.bus) (align : Alignments) (g : Image) (m : Memories)
    (y : Linked) (part : Part) (k : Access) (a : ℕ)
    → IsMpuApi p.api
    → IsMpuMacros p.api
    → IsMemories m
    → IsAlignments align
    → IsImage g
    → link p.build align g m ≡ some y
    → p.symbols ≡ symbols_of y
    → p.build.memory_protect ≡ true
    → (tfm_hal_set_up_static_boundaries p boundary s).0 ≡ hal_success
    → holds p.build y part a ≡ true
    → unprivileged_allows
        (tfm_hal_set_up_static_boundaries p boundary s).2.mpu
        (region_num p.api s.mpu)
        k
        a
      ≡ rights part k
linked_boundaries_allow p boundary s align g m y part k a api macros mem ok image linked from on
      done h =
    let at = link-IsLinked p.build align g m y ok image linked in
    static_boundaries_allow p boundary s k a api macros
      (rw from (linked-IsTable p.build g m y mem at)) on done
    ∙ rw from (
        table_allows-chain p.build g m y mem at k a ∙ linked_rights p.build g m y mem at part k a h)
