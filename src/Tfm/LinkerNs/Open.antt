-- ===== src/Tfm/LinkerNs/Open.antt =====
-- The linked Non-Secure image under the SAU and the protection unit of the DMA, after the set-up of
-- tfm_hal_isolation_rp2350.c.
use rp2350_tz_tee.Prelude.{
  ℕ, ◌+◌, ◌≤◌, ◌<◌, ◌≡◌, ◌∙◌, Bool, true, false, some, List, ◌&&◌, leb, ◌||◌, ◌-◌, arith,
}
use rp2350_tz_tee.Hw.Sau.{nonsecure, attribution}
use rp2350_tz_tee.Hw.DmaMpu.{dma_open}
use rp2350_tz_tee.Tfm.Regions.{Regions}
use rp2350_tz_tee.Tfm.Sau.{IsSauApi}
use rp2350_tz_tee.Tfm.Sau.Attribution.{UnusedOff, intended, attribution-sau_and_idau_cfg}
use rp2350_tz_tee.Tfm.Dma.{IsDmaApi, dma_security_config}
use rp2350_tz_tee.Tfm.Dma.Mirror.{dma_open-mpu_regions}
use rp2350_tz_tee.Tfm.Defs.{Switches, Platform, scratch_x_size, scratch_y_size, ns_code_core1_start}
use rp2350_tz_tee.Tfm.Defs.Apart.{IsPlatform, regions-IsApart}
use rp2350_tz_tee.Tfm.Defs.Attributed.{IsMapped, mapped-IsRegions}
use rp2350_tz_tee.Tfm.Isolation
use rp2350_tz_tee.Tfm.Isolation.{Spe, hal_success, tfm_hal_set_up_static_boundaries}
use rp2350_tz_tee.Tfm.Isolation.Bind.{Mmio}
use rp2350_tz_tee.Tfm.Linker.Areas.{between}
use rp2350_tz_tee.Tfm.Linker.Bound.{Call, bind_all, bind_all-SameUnits}
use rp2350_tz_tee.Tfm.Linker.Sealed.{set_up_units}
use rp2350_tz_tee.Tfm.LinkerNs.{
  NsContents, NsMap, Memories, ns_memories, ns_link, stack_one_bottom, stack_one_top, stack_bottom,
  stack_top,
}
use rp2350_tz_tee.Tfm.LinkerNs.Order.{IsNsContents, IsNsLinked, ns_link-IsNsLinked}

-- The parts of the Non-Secure image: in flash the vectors, the entry of the other core, the reset
-- code, the rest of the code, and the tables behind it; in RAM the initialised data, the vectors,
-- bss and the heap; in the two banks what the image puts there, and the stacks of the two cores.
pub data NsPart : Type 0 where
  vectors core1_entry pico_reset text tables initialized ram_vectors bss heap : NsPart
  scratch_x scratch_y stack_one stack : NsPart

unfoldable pub ns_holds : NsContents → Memories → NsMap → NsPart → ℕ → Bool
ns_holds c m y vectors a = between y.vectors_start (y.vectors_start + c.vectors.size) a
ns_holds c m y core1_entry a = between y.core1_start y.core1_end a
ns_holds c m y pico_reset a = between y.reset_start y.reset_end a
ns_holds c m y text a = between y.reset_end y.text_end a
ns_holds c m y tables a = between y.text_end y.info_end a
ns_holds c m y initialized a = between y.initialized_start y.initialized_end a
ns_holds c m y ram_vectors a = between y.initialized_end y.ram_vectors_end a
ns_holds c m y bss a = between y.bss_start y.bss_end a
ns_holds c m y heap a = between y.heap_base y.heap_limit a
ns_holds c m y scratch_x a = between m.scratch_x_base y.scratch_x_end a
ns_holds c m y scratch_y a = between m.scratch_y_base y.scratch_y_end a
ns_holds c m y stack_one a = between (stack_one_bottom c m) (stack_one_top m) a
ns_holds c m y stack a = between (stack_bottom c m) (stack_top m) a

-- Whether the part lies in RAM, the banks included.
abbrev pub in_ram : NsPart → Bool
in_ram vectors = false
in_ram core1_entry = false
in_ram pico_reset = false
in_ram text = false
in_ram tables = false
in_ram _ = true

-- The SDK's banks lie between SRAM4 and the PPB.
pub record IsBanks (b : Switches) (f : Platform) (r : Regions) (x y : ℕ) : Type 0 where
  pub x_after : f.sram4_base ≤ x
  pub x_before : x + scratch_x_size b f ≤ r.ppb_base
  pub y_after : f.sram4_base ≤ y
  pub y_before : y + scratch_y_size b f ≤ r.ppb_base

module _ (b : Switches) (f : Platform) (x_base y_base : ℕ) (c : NsContents) (y : NsMap)
    (r : Regions) (ok : IsPlatform f) (mapped : IsMapped b f r)
    (banks : IsBanks b f r x_base y_base)
    (at : IsNsLinked c (ns_memories b f x_base y_base) y) where
  abbrev m : Memories
  m = ns_memories b f x_base y_base

  -- A part in flash lies in the Non-Secure partition, one in RAM between SRAM4 and the PPB.
  abbrev InWorld : (ram : Bool) → ℕ → Type 0
  InWorld true a = (r.sram4_base ≤ a) × (a < r.ppb_base)
  InWorld false a = (r.non_secure_partition_base ≤ a) × (a ≤ r.non_secure_partition_limit)

  ns_holds-InWorld :
      (part : NsPart) (a : ℕ) → ns_holds c m y part a ≡ true → InWorld (in_ram part) a
  unfolding ns_holds
  ns_holds-InWorld vectors a h = ground (arith, regions-IsApart b f ok)
  ns_holds-InWorld core1_entry a h = ground (arith, regions-IsApart b f ok)
  ns_holds-InWorld pico_reset a h = ground (arith, regions-IsApart b f ok)
  ns_holds-InWorld text a h = ground (arith, regions-IsApart b f ok)
  ns_holds-InWorld tables a h = ground (arith, regions-IsApart b f ok)
  ns_holds-InWorld initialized a h = ground arith
  ns_holds-InWorld ram_vectors a h = ground arith
  ns_holds-InWorld bss a h = ground arith
  ns_holds-InWorld heap a h = ground arith
  ns_holds-InWorld scratch_x a h = ground arith
  ns_holds-InWorld scratch_y a h = ground arith
  ns_holds-InWorld stack_one a h = ground arith
  ns_holds-InWorld stack a h = ground arith

  world_open :
      (ram : Bool) (a : ℕ)
      → InWorld ram a
      → (intended r a ≡ nonsecure)
        × (((leb r.veneer_base a && leb a r.veneer_limit)
              || (leb r.sram4_base a && leb a (r.ppb_base - 1)))
            ≡ ram)
  unfolding intended
  world_open true a h = let regions = mapped-IsRegions b f r ok mapped in ground arith
  world_open false a h = let regions = mapped-IsRegions b f r ok mapped in ground arith

-- Let reference/linker_ns.ld link the Non-Secure image into the memories of region_defs.h and the
-- SDK's two banks, between SRAM4 and the PPB, the alignments of its sections positive, those of
-- the vectors and of core 1's entry met at NS_CODE_START (in whole words) and NS_CODE_CORE1_START,
-- and let `memory_regions` hold that file's map in blocks of 32 bytes, with the Non-Secure image
-- loaded, the veneers in the Secure code, and the other hypotheses of the platform. If
-- `tfm_hal_set_up_static_boundaries` succeeds from unprogrammed SAU regions that are off, then
-- after it and any calls of `tfm_hal_bind_boundary` every part of the image is Non-Secure, its
-- parts in RAM are open to a Non-Secure DMA channel and those in flash are not; and the entry of
-- core 1 is at NS_CODE_CORE1_START.
pub ns_image_open :
    (b : Switches) (f : Platform) (p : Isolation.Platform) (mmio : Mmio) (calls : List Call)
    (boundary : ℕ) (s : Spe p.bus) (x_base y_base : ℕ) (c : NsContents) (y : NsMap) (part : NsPart)
    (a : ℕ)
    → IsPlatform f
    → IsMapped b f p.regions
    → IsBanks b f p.regions x_base y_base
    → IsSauApi p.sau_api
    → IsDmaApi p.dma_api
    → UnusedOff s.sau
    → IsNsContents c (ns_memories b f x_base y_base)
    → ns_link c (ns_memories b f x_base y_base) ≡ some y
    → (tfm_hal_set_up_static_boundaries p boundary s).0 ≡ hal_success
    → ns_holds c (ns_memories b f x_base y_base) y part a ≡ true
    → let t = bind_all p mmio calls (tfm_hal_set_up_static_boundaries p boundary s).2 in
      (y.core1_start ≡ ns_code_core1_start b f)
      × (attribution t.sau a ≡ nonsecure)
      × (dma_open t.dma.mpu a ≡ in_ram part)
unfolding dma_security_config
ns_image_open b f p mmio calls boundary s x_base y_base c y part a ok mapped banks sau dma off
      contents linked done h =
    let r = p.regions in
    let at = ns_link-IsNsLinked c (ns_memories b f x_base y_base) y contents linked in
    let regions = mapped-IsRegions b f r ok mapped in
    let (sau_at, dma_at) = set_up_units p boundary s done in
    let units = bind_all-SameUnits p mmio calls (tfm_hal_set_up_static_boundaries p boundary s).2 in
    let (meant, reached) =
      world_open b f x_base y_base c y r ok mapped banks at (in_ram part) a
        (ns_holds-InWorld b f x_base y_base c y r ok mapped banks at part a h) in
    (
      at.code.entry_at,
      rw (units.same_sau, sau_at)
          (attribution-sau_and_idau_cfg p.sau_api r s.sau a sau regions off ∙ meant),
      rw (units.same_dma, dma_at)
          (dma_open-mpu_regions p.dma_api r s.dma.mpu a dma regions ∙ reached),
    )
