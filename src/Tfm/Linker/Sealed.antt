-- ===== src/Tfm/Linker/Sealed.antt =====
-- The linked Secure image under the SAU and the protection unit of the DMA: target_cfg.c on the
-- memory map of region_defs.h and the symbols of linker_s.ld.
use rp2350_tz_tee.Prelude.{ℕ, ◌<◌, ◌≡◌, ◌∙◌, true, some, if_some, List, arith}
use rp2350_tz_tee.Hw.Sau.{attribution}
use rp2350_tz_tee.Hw.DmaMpu.{dma_open}
use rp2350_tz_tee.Tfm.Sau.{IsSauApi, sau_and_idau_cfg}
use rp2350_tz_tee.Tfm.Sau.Attribution.{UnusedOff}
use rp2350_tz_tee.Tfm.Dma.{IsDmaApi, dma_security_config}
use rp2350_tz_tee.Tfm.Dma.Mirror.{dma_open-mpu_regions}
use rp2350_tz_tee.Tfm.Defs.{Switches, Platform}
use rp2350_tz_tee.Tfm.Defs.Apart.{IsPlatform}
use rp2350_tz_tee.Tfm.Defs.Attributed.{mapped-IsRegions, attribution-holds}
use rp2350_tz_tee.Tfm.Isolation
use rp2350_tz_tee.Tfm.Isolation.{
  Spe, hal_success, tfm_hal_set_up_static_boundaries, set_up_mpu, check_dma, check_filter,
}
use rp2350_tz_tee.Tfm.Linker.Gated.{
  IsFilled, veneers_fill, world, is_veneers, area, linked-IsMapped, part_in_area, part_gated,
  part_low, area_world,
}
use rp2350_tz_tee.Tfm.Linker.{Alignments, IsAlignments}
use rp2350_tz_tee.Tfm.Linker.Link.{
  Image, IsImage, Linked, link, link-IsLinked, memories, place, fits, veneers_of,
}
use rp2350_tz_tee.Tfm.Isolation.Bind.{Mmio}
use rp2350_tz_tee.Tfm.Linker.Bound.{Call, bind_all, bind_all-SameUnits}
use rp2350_tz_tee.Tfm.Linker.Areas.{Part, holds}

-- What the two units of the hardware are left with.
pub set_up_units :
    (p : Isolation.Platform) (boundary : ℕ) (s : Spe p.bus)
    → (tfm_hal_set_up_static_boundaries p boundary s).0 ≡ hal_success
    → let t = (tfm_hal_set_up_static_boundaries p boundary s).2 in
      (t.sau ≡ sau_and_idau_cfg p.sau_api p.regions s.sau)
      × (t.dma ≡ (dma_security_config p.dma_api p.regions s.dma).1)
unfolding tfm_hal_set_up_static_boundaries check_filter check_dma set_up_mpu
set_up_units p boundary s done = ground arith

-- Let reference/linker_s.ld link the Secure image of a build with TrustZone, with gateway stubs
-- and the alignments of TF-M's header in blocks of 32 bytes, into the memories of region_defs.h,
-- and let `memory_regions` hold the veneers of that link and the Non-Secure partition of that
-- file, all in blocks of 32 bytes, with the Non-Secure image loaded and the other hypotheses of
-- the platform. If `tfm_hal_set_up_static_boundaries` succeeds from unprogrammed SAU regions that
-- are off, then after it and any calls of `tfm_hal_bind_boundary` the veneers are Non-Secure-
-- Callable and open to a Non-Secure DMA channel, and every other part of the image is Secure and
-- out of the reach of such a channel.
pub image_sealed :
    (b : Switches) (f : Platform) (p : Isolation.Platform) (mmio : Mmio) (calls : List Call)
    (boundary : ℕ) (s : Spe p.bus) (align : Alignments) (g : Image) (y : Linked) (part : Part)
    (a : ℕ)
    → IsPlatform f
    → IsSauApi p.sau_api
    → IsDmaApi p.dma_api
    → IsAlignments align
    → IsImage g
    → 0 < g.code.stubs
    → p.build.use_trustzone ≡ true
    → link p.build align g (memories b f) ≡ some y
    → IsFilled b f y p.regions
    → UnusedOff s.sau
    → (tfm_hal_set_up_static_boundaries p boundary s).0 ≡ hal_success
    → holds p.build y part a ≡ true
    → let t = bind_all p mmio calls (tfm_hal_set_up_static_boundaries p boundary s).2 in
      (attribution t.sau a ≡ world part) × (dma_open t.dma.mpu a ≡ is_veneers part)
unfolding link place dma_security_config
image_sealed b f p mmio calls boundary s align g y part a ok sau dma aligned image room tz linked
      fill off done h =
    let r = p.regions in
    let (fitting, at) =
      if_some (fits g (memories b f) (place p.build align g (memories b f)))
        (place p.build align g (memories b f)) y linked in
    let gap : y.code.veneer_base < y.code.veneer_limit =
      rw (← at) (veneers_fill (veneers_of p.build g) align g.code _ aligned room) in
    let inside = link-IsLinked p.build align g (memories b f) y aligned image linked in
    let mapped = linked-IsMapped b f ok p.build g y r inside fill tz gap in
    let regions = mapped-IsRegions b f r ok mapped in
    let gate = part_gated b f ok p.build g y r inside fill tz part a gap h in
    let (sau_at, dma_at) = set_up_units p boundary s done in
    let units = bind_all-SameUnits p mmio calls (tfm_hal_set_up_static_boundaries p boundary s).2 in
    let attributed : attribution (sau_and_idau_cfg p.sau_api r s.sau) a ≡ world part =
      attribution-holds b f r p.sau_api s.sau (area part) a ok mapped sau off
        (part_in_area b f ok p.build g y r inside fill tz part a h)
      ∙ rw gate (area_world b f ok p.build g y r inside fill tz part) in
    (
      rw (units.same_sau, sau_at) attributed,
      rw (units.same_dma, dma_at)
          (ground (
            arith,
            gate,
            part_low b f ok p.build g y r inside fill tz part a h,
            dma_open-mpu_regions p.dma_api r s.dma.mpu a dma regions,
          )),
    )
