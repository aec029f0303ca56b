-- ===== src/Examples/Tfm/Sealed.antt =====
-- The Secure image of the example under the SAU and the DMA's unit.
use rp2350_tz_tee.Prelude.{◌≡◌, ◌-◌, arith, refl, false}
use rp2350_tz_tee.Hw.Sau.{attribution, secure}
use rp2350_tz_tee.Hw.DmaMpu.{dma_open}
use rp2350_tz_tee.Tfm.Regions.{Regions}
use rp2350_tz_tee.Tfm.Isolation.{
  hal_success, Platform, mpu_region_attributes, tfm_hal_set_up_static_boundaries,
}
use rp2350_tz_tee.Tfm.Isolation.Static.{static_boundaries_succeed}
use rp2350_tz_tee.Tfm.Linker.Areas.{psa_data}
use rp2350_tz_tee.Tfm.Linker.Bound.{bind_all}
use rp2350_tz_tee.Tfm.Linker.Sealed.{image_sealed}
use rp2350_tz_tee.Tfm.Linker.Gated.{IsFilled}
use rp2350_tz_tee.Examples.Tfm.{sau_api-IsSauApi, dma_api-IsDmaApi, mpu_api-IsMpuApi}
use rp2350_tz_tee.Examples.Tfm.Boundaries.{spe, filter_succeeds, mmio}
use rp2350_tz_tee.Examples.Tfm.Layout.{switches, flash_platform, flash_platform-IsPlatform}
use rp2350_tz_tee.Examples.Tfm.Linked.{
  alignments, alignments-IsAlignments, secure_image, secure_image-IsImage, image_map, image_link,
  linked_platform, calls, data_held,
}

abbrev pub filled : Regions
filled = record {
  veneer_base = image_map.code.veneer_base;
  veneer_limit = image_map.code.veneer_limit - 1;
  non_secure_partition_base = 0x1007_1000;
  non_secure_partition_limit = 0x100D_0FFF;
  sram4_base = 0x2004_0000;
  ppb_base = 0xE000_0000;
}

filled-IsFilled : IsFilled switches flash_platform image_map filled
filled-IsFilled = record {
  loads = refl;
  flash_block = refl;
  sram_block = refl;
  veneer_from = refl;
  veneer_to = refl;
  partition_from = refl;
  partition_to = refl;
  sram4 = refl;
  ppb_start = refl;
  ppb_after = omega arith;
  ppb_fits = omega arith;
}

abbrev pub sealed_platform : Platform
sealed_platform = record linked_platform { regions = filled }

pub set_up_succeeds : (tfm_hal_set_up_static_boundaries sealed_platform 0 spe).0 ≡ hal_success
unfolding mpu_region_attributes
set_up_succeeds =
    (static_boundaries_succeed sealed_platform 0 spe mpu_api-IsMpuApi refl).1
      (filter_succeeds, omega arith)

-- The data of a PSA RoT partition is Secure, and no Non-Secure channel of the DMA reaches it.
image_sealed_example :
    let t =
      bind_all sealed_platform mmio calls
        (tfm_hal_set_up_static_boundaries sealed_platform 0 spe).2 in
    (attribution t.sau 0x2000_0D70 ≡ secure) × (dma_open t.dma.mpu 0x2000_0D70 ≡ false)
image_sealed_example =
    image_sealed switches flash_platform sealed_platform mmio calls 0 spe alignments secure_image
      image_map psa_data 0x2000_0D70 flash_platform-IsPlatform sau_api-IsSauApi dma_api-IsDmaApi
      alignments-IsAlignments secure_image-IsImage (omega arith) refl image_link filled-IsFilled
      (refl, refl, refl, refl) set_up_succeeds data_held
