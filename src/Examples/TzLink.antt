-- ===== src/Examples/TzLink.antt =====
-- The theorems on the linker scripts of examples/minimal-tz.
use rp2350_tz_tee.Prelude.{◌≡◌, arith, refl, true, some, inl}
use rp2350_tz_tee.Hw.Sau.{secure, attribution}
use rp2350_tz_tee.Hw.DmaMpu.{dma_open}
use rp2350_tz_tee.Tz.Config.{tz_isolation_config}
use rp2350_tz_tee.Tz.Main.Run.{IsImage}
use rp2350_tz_tee.Hw.Align.{align_up}
use rp2350_tz_tee.Tz.Linker.Ns.{NsContents, NsMap, IsContents, ns_place, ns_link}
use rp2350_tz_tee.Tz.Linker.Image.{IsBuilt, ns_link-IsImage}
use rp2350_tz_tee.Tz.Linker.Loaded.{at_ns_main, at_ns_main_lem}
use rp2350_tz_tee.Tz.Linker.Secure.{SecureContents, SecureMap, s_place, s_link}
use rp2350_tz_tee.Tz.Linker.Guarded.{stack, holds, secure_parts_guarded}
use rp2350_tz_tee.Examples.Tz.{after_reset, ppb_base, ppb_base-IsPpbBase}
use rp2350_tz_tee.Examples.TzRun.{image, flashed, flashed-IsBytes, image-IsImage}

abbrev contents : NsContents
contents = record {
  vectors_size = 16;
  text_section = record { align = 4; size = 0x2FF0 };
  rodata_section = record { align = 4; size = 0xF00 };
  data_section = record { align = 4; size = 0x100 };
  bss_section = record { align = 4; size = 8 };
}

abbrev placed : NsMap
placed = record {
  text_start = 0x2004_0010;
  text_end = 0x2004_3000;
  rodata_end = 0x2004_3F00;
  data_start = 0x2004_3F00;
  data_end = 0x2004_4000;
  bss_start = 0x2004_4000;
  bss_end = 0x2004_4008;
  stack_top = 0x2008_0000;
  stack_bottom = 0x2007_F000;
}

contents-IsContents : IsContents contents
contents-IsContents = record {
  text_aligned = omega arith;
  rodata_aligned = omega arith;
  data_aligned = omega arith;
  bss_aligned = omega arith;
}

contents_link : ns_link contents ≡ some placed
unfolding ns_link ns_place align_up
contents_link = refl

image-IsBuilt : IsBuilt placed image flashed
image-IsBuilt = record {
  bss_from = refl;
  bss_to = refl;
  stack = refl;
  blob = image-IsImage.vectors;
  thumb = refl;
  challenge_low = omega arith;
  challenge_high = omega arith;
  result_low = omega arith;
  result_high = omega arith;
  apart = inl (omega arith);
}

ns_link-IsImage_example : IsImage image flashed
ns_link-IsImage_example =
    ns_link-IsImage contents placed image flashed contents-IsContents contents_link image-IsBuilt

at_ns_main_lem_example : at_ns_main placed 0x1_0000 flashed 0x2004_0000 ≡ flashed 0x1010_0000
at_ns_main_lem_example =
    at_ns_main_lem contents placed 0x1_0000 flashed 0x2004_0000 contents-IsContents contents_link
      flashed-IsBytes (omega arith)

abbrev secure_contents : SecureContents
secure_contents = record {
  stubs = 16;
  in_scratch_x = 0;
  stack_1 = 0x800;
  stack_1_align = 8;
  in_scratch_y = 0;
  stack = 0x800;
  stack_align = 8;
}

abbrev secure_placed : SecureMap
secure_placed = record {
  veneer_base = 0x100F_F000;
  veneer_limit = 0x100F_F020;
  scratch_x_end = 0x2008_0000;
  scratch_y_end = 0x2008_1000;
  heap_limit = 0x2004_0000;
  stack_limit = 0x2004_0000;
  stack_1_top = 0x2008_1000;
  stack_top = 0x2008_2000;
  stack_1_bottom = 0x2008_0800;
  stack_bottom = 0x2008_1800;
}

secure_contents_link : s_link secure_contents ≡ some secure_placed
unfolding s_link s_place align_up
secure_contents_link = refl

-- A word of the Secure stack of core 0.
secure_parts_guarded_example :
    (attribution (tz_isolation_config ppb_base 0 after_reset).sau 0x2008_1FFC ≡ secure)
    × (dma_open (tz_isolation_config ppb_base 0 after_reset).dma 0x2008_1FFC ≡ true)
unfolding holds
secure_parts_guarded_example =
    secure_parts_guarded secure_contents secure_placed ppb_base 0 after_reset stack 0x2008_1FFC
      ppb_base-IsPpbBase (refl, refl, refl, refl)
      (record { stack_1_aligned = omega arith; stack_aligned = omega arith }) secure_contents_link
      refl
