-- ===== src/Tfm/Defs/Attributed.antt =====
-- The memory map of region_defs.h under the SAU of target_cfg.c.
use rp2350_tz_tee.Prelude.{
  ℕ, ◌+◌, ◌-◌, ◌%◌, ◌^◌, ◌≤◌, ◌<◌, ◌≡◌, ◌∙◌, ◌&&◌, leb, if◌then◌else◌, arith, true,
}
use rp2350_tz_tee.Hw.Sau.{Sau, callable, attribution}
use rp2350_tz_tee.Tfm.Regions.{Regions, IsRegions}
use rp2350_tz_tee.Tfm.Sau.{SauApi, IsSauApi, sau_and_idau_cfg}
use rp2350_tz_tee.Tfm.Sau.Attribution.{UnusedOff, intended, attribution-sau_and_idau_cfg}
use rp2350_tz_tee.Tfm.Defs.{
  Switches, Platform, s_code_start, s_code_limit, ns_partition_start, ns_partition_size,
}
use rp2350_tz_tee.Tfm.Defs.Areas.{
  Area, s_code, s_data, scratch_x, scratch_y, ns_code, ns_data, bl2_code, other_slot, holds, owner,
}
use rp2350_tz_tee.Tfm.Defs.Apart.{IsPlatform, area_2, regions-IsApart}

-- `memory_regions` as the platform fills it from this map, with the veneers in whole blocks at the
-- end of the Secure code, and a build that loads the Non-Secure image.
pub record IsMapped (b : Switches) (p : Platform) (r : Regions) : Type 0 where
  pub loads : b.load_ns_image ≡ true
  pub flash_block : p.xip_base % 32 ≡ 0
  pub sram_block : p.sram4_base % 32 ≡ 0
  pub veneer_start : r.veneer_base % 32 ≡ 0
  pub veneer_end : r.veneer_limit % 32 ≡ 31
  pub veneer_low : s_code_start b p ≤ r.veneer_base
  pub veneer_some : r.veneer_base ≤ r.veneer_limit
  pub veneer_high : r.veneer_limit ≤ s_code_limit b p
  pub partition_from : r.non_secure_partition_base ≡ ns_partition_start b p
  pub partition_to :
      r.non_secure_partition_limit ≡ ns_partition_start b p + ns_partition_size b p - 1
  pub sram4 : r.sram4_base ≡ p.sram4_base
  pub ppb_start : r.ppb_base % 32 ≡ 0
  pub ppb_after : p.sram4_base + 0x40000 ≤ r.ppb_base
  pub ppb_fits : r.ppb_base < 2 ^ 32

partition_aligned :
    (b : Switches) (p : Platform) → p.xip_base % 32 ≡ 0 → ns_partition_start b p % 32 ≡ 0
partition_aligned b p h = ground (arith, area_2 b.images)

pub mapped-IsRegions :
    (b : Switches) (p : Platform) (r : Regions) → IsPlatform p → IsMapped b p r → IsRegions r
mapped-IsRegions b p r ok m =
    let a = regions-IsApart b p ok in
    let size : ns_partition_size b p ≡ 0x60000 = ground (arith, m.loads) in
    let slot : p.xip_base + 0x71000 ≤ ns_partition_start b p = ground (arith, area_2 b.images) in
    let top : ns_partition_start b p + 0x60000 ≤ p.xip_base + 0x200000 =
      ground (arith, area_2 b.images) in
    let aligned : ns_partition_start b p % 32 ≡ 0 = partition_aligned b p m.flash_block in
    record {
      veneer_start = m.veneer_start;
      veneer_end = m.veneer_end;
      veneer_some = m.veneer_some;
      ns_after = omega arith;
      ns_start = omega arith;
      ns_end = omega arith;
      ns_some = omega arith;
      sram4_after = omega arith;
      sram4_start = omega arith;
      ppb_after = omega arith;
      ppb_start = m.ppb_start;
      ppb_fits = m.ppb_fits;
    }

-- After `sau_and_idau_cfg` on the memory map of region_defs.h (in whole 32-byte blocks, with the
-- Non-Secure image loaded, the unprogrammed SAU regions off, the veneers in the Secure code, and
-- the other hypotheses of the platform), an address in one of the areas of that file is Non-
-- Secure-Callable if it lies in the veneers, Non-Secure if the area is the Non-Secure code or
-- data, and Secure if it is the Secure code or data, a scratch bank or, with the bootloader, the
-- bootloader's code or the other slot.
pub attribution-holds :
    (b : Switches) (p : Platform) (r : Regions) (c : SauApi) (s : Sau) (k : Area) (a : ℕ)
    → IsPlatform p
    → IsMapped b p r
    → IsSauApi c
    → UnusedOff s
    → holds b p k a ≡ true
    → attribution (sau_and_idau_cfg c r s) a
      ≡ (if leb r.veneer_base a && leb a r.veneer_limit then callable else owner k)
unfolding intended holds
attribution-holds b p r c s k a ok m api off h =
    let regions = mapped-IsRegions b p r ok m in
    let d = regions-IsApart b p ok in
    attribution-sau_and_idau_cfg c r s a api regions off
    ∙ elim k
          as (λ x.
            holds b p x a ≡ true
            → intended r a
              ≡ (if leb r.veneer_base a && leb a r.veneer_limit then callable else owner x)) [
                | s_code ↦ λ i. ground arith
                | s_data ↦ λ i. ground arith
                | scratch_x ↦ λ i. ground arith
                | scratch_y ↦ λ i. ground arith
                | ns_code ↦ λ i. ground arith
                | ns_data ↦ λ i. ground arith
                | bl2_code ↦ λ i. ground arith
                | other_slot ↦ λ i. ground arith
              ]
        h
