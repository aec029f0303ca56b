-- ===== src/Examples/Tfm/Layout.antt =====
-- The flash map and the memory map with the bootloader and two images.
use rp2350_tz_tee.Prelude.{true, false, arith, refl}
use rp2350_tz_tee.Tfm.Regions.{Regions}
use rp2350_tz_tee.Tfm.Sau.{sau_and_idau_cfg}
use rp2350_tz_tee.Tfm.Flash.{two_images}
use rp2350_tz_tee.Tfm.Defs.{Switches, Platform}
use rp2350_tz_tee.Tfm.Defs.Apart.{IsPlatform, IsApart, regions-IsApart}
use rp2350_tz_tee.Tfm.Defs.Areas.{s_code, holds}
use rp2350_tz_tee.Tfm.Defs.Attributed.{IsMapped, attribution-holds}
use rp2350_tz_tee.Hw.Sau.{attribution, callable}
use rp2350_tz_tee.Examples.Tfm.{sau_api, sau_api-IsSauApi, sau_reset}
use rp2350_tz_tee.Prelude.{◌≡◌}

abbrev pub switches : Switches
switches = record {
  images = two_images;
  bl2 = true;
  link_to_secondary = false;
  load_ns_image = true;
}

abbrev pub flash_platform : Platform
flash_platform = record {
  xip_base = 0x1000_0000;
  sram0_base = 0x2000_0000;
  sram4_base = 0x2004_0000;
  bl2_header_size = 0x400;
  bl2_trailer_size = 0x400;
  provisioning_code_padded_size = 0x1000;
  provisioning_values_padded_size = 0x200;
  provisioning_data_padded_size = 0x200;
}

pub flash_platform-IsPlatform : IsPlatform flash_platform
flash_platform-IsPlatform = record {
  code_fits = omega arith;
  flash_first = omega arith;
  sram_order = omega arith;
  sram_fits = omega arith;
}

regions-IsApart_example : IsApart switches flash_platform
regions-IsApart_example = regions-IsApart switches flash_platform flash_platform-IsPlatform

-- The veneers in the last 256 bytes of the Secure code.
abbrev mapped : Regions
mapped = record {
  veneer_base = 0x1007_0B00;
  veneer_limit = 0x1007_0BFF;
  non_secure_partition_base = 0x1007_1000;
  non_secure_partition_limit = 0x100D_0FFF;
  sram4_base = 0x2004_0000;
  ppb_base = 0xE000_0000;
}

mapped-IsMapped : IsMapped switches flash_platform mapped
mapped-IsMapped = record {
  loads = refl;
  flash_block = refl;
  sram_block = refl;
  veneer_start = refl;
  veneer_end = refl;
  veneer_low = omega arith;
  veneer_some = omega arith;
  veneer_high = omega arith;
  partition_from = refl;
  partition_to = refl;
  sram4 = refl;
  ppb_start = refl;
  ppb_after = omega arith;
  ppb_fits = omega arith;
}

attribution-holds_example :
    attribution (sau_and_idau_cfg sau_api mapped sau_reset) 0x1007_0B20 ≡ callable
unfolding holds
attribution-holds_example =
    attribution-holds switches flash_platform mapped sau_api sau_reset s_code 0x1007_0B20
      flash_platform-IsPlatform mapped-IsMapped sau_api-IsSauApi (refl, refl, refl, refl) refl
