-- ===== src/Examples/Tfm/NsLinked.antt =====
-- A small Non-Secure image, next to the Secure image of the example.
use rp2350_tz_tee.Prelude.{ℕ, ◌≡◌, true, arith, refl, some}
use rp2350_tz_tee.Hw.Sau.{attribution, nonsecure}
use rp2350_tz_tee.Hw.DmaMpu.{dma_open}
use rp2350_tz_tee.Hw.Align.{align_up}
use rp2350_tz_tee.Tfm.Defs.{ns_code_core1_start}
use rp2350_tz_tee.Tfm.Defs.Attributed.{IsMapped}
use rp2350_tz_tee.Tfm.Isolation.{tfm_hal_set_up_static_boundaries}
use rp2350_tz_tee.Tfm.Linker.{Contents}
use rp2350_tz_tee.Tfm.Linker.Bound.{bind_all}
use rp2350_tz_tee.Tfm.Linker.Code.{place_code}
use rp2350_tz_tee.Tfm.Linker.Link.{place}
use rp2350_tz_tee.Tfm.LinkerNs.{NsContents, NsMap, Memories, ns_memories, ns_place, ns_link}
use rp2350_tz_tee.Tfm.LinkerNs.Order.{IsNsContents}
use rp2350_tz_tee.Tfm.LinkerNs.Open.{IsBanks, stack_one, ns_holds, ns_image_open}
use rp2350_tz_tee.Examples.Tfm.{sau_api-IsSauApi, dma_api-IsDmaApi}
use rp2350_tz_tee.Examples.Tfm.Boundaries.{spe, mmio}
use rp2350_tz_tee.Examples.Tfm.Layout.{switches, flash_platform, flash_platform-IsPlatform}
use rp2350_tz_tee.Examples.Tfm.Linked.{calls}
use rp2350_tz_tee.Examples.Tfm.Sealed.{filled, sealed_platform, set_up_succeeds}

abbrev words : ℕ → Contents
words n = record { align = 4; size = n }

abbrev ns_image : NsContents
ns_image = record {
  vectors = record { align = 128; size = 0x110 };
  core1_entry = words 0x20;
  info_header = 0x14;
  pico_reset = words 0x100;
  text = words 0x4000;
  extab = words 0;
  exidx = words 8;
  binary_info = words 0x20;
  initialized = words 0x200;
  ram_vectors = words 0x110;
  bss = words 0x800;
  scratch_x = words 0;
  scratch_y = words 0;
  stack_one = words 0x800;
  stack = words 0x800;
}

abbrev ns_at : Memories
ns_at = ns_memories switches flash_platform 0x2008_0000 0x2008_1000

abbrev ns_map : NsMap
ns_map = ns_place ns_image ns_at

ns_image_link : ns_link ns_image ns_at ≡ some ns_map
unfolding ns_link ns_place align_up
ns_image_link = refl

ns_image-IsNsContents : IsNsContents ns_image ns_at
ns_image-IsNsContents = omega arith

filled-IsMapped : IsMapped switches flash_platform filled
unfolding place place_code align_up
filled-IsMapped = record {
  loads = refl;
  flash_block = refl;
  sram_block = refl;
  veneer_start = refl;
  veneer_end = refl;
  veneer_low = omega arith;
  veneer_some = omega arith;
  veneer_high = omega arith;
  partition_from = refl;
  partition_to = refl;
  sram4 = refl;
  ppb_start = refl;
  ppb_after = omega arith;
  ppb_fits = omega arith;
}

banks : IsBanks switches flash_platform filled 0x2008_0000 0x2008_1000
banks = omega arith

stack_held : ns_holds ns_image ns_at ns_map stack_one 0x2008_0900 ≡ true
unfolding ns_holds ns_place align_up
stack_held = refl

-- The stack of the other core is Non-Secure, and open to the DMA.
ns_image_open_example :
    let t =
      bind_all sealed_platform mmio calls
        (tfm_hal_set_up_static_boundaries sealed_platform 0 spe).2 in
    (ns_map.core1_start ≡ ns_code_core1_start switches flash_platform)
    × (attribution t.sau 0x2008_0900 ≡ nonsecure)
    × (dma_open t.dma.mpu 0x2008_0900 ≡ true)
ns_image_open_example =
    ns_image_open switches flash_platform sealed_platform mmio calls 0 spe 0x2008_0000 0x2008_1000
      ns_image ns_map stack_one 0x2008_0900 flash_platform-IsPlatform filled-IsMapped banks
      sau_api-IsSauApi dma_api-IsDmaApi (refl, refl, refl, refl) ns_image-IsNsContents ns_image_link
      set_up_succeeds stack_held
