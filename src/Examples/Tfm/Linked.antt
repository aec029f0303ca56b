-- ===== src/Examples/Tfm/Linked.antt =====
-- The rights of unprivileged code on a small Secure image.
use rp2350_tz_tee.Prelude.{ℕ, ◌≡◌, arith, refl, true, false, none, some, inl, List, [], ◌∷◌}
use rp2350_tz_tee.Hw.Align.{align_up}
use rp2350_tz_tee.Hw.Pmp.{read}
use rp2350_tz_tee.Tfm.Mpu.{region_num}
use rp2350_tz_tee.Tfm.Isolation.{
  hal_success, Platform, mpu_region_attributes, tfm_hal_set_up_static_boundaries,
}
use rp2350_tz_tee.Tfm.Isolation.Static.{static_boundaries_succeed}
use rp2350_tz_tee.Tfm.Isolation.Access.{IsMpuMacros, unprivileged_allows}
use rp2350_tz_tee.Tfm.Linker.{Alignments, IsAlignments, Contents}
use rp2350_tz_tee.Tfm.Linker.Code.{place_code}
use rp2350_tz_tee.Tfm.Linker.Data.{place_data}
use rp2350_tz_tee.Tfm.Linker.Link.{
  Image, IsImage, Memories, memories, memories-IsMemories, Linked, place, link, symbols_of,
}
use rp2350_tz_tee.Tfm.Linker.Areas.{psa_data, holds}
use rp2350_tz_tee.Tfm.Linker.Bound.{Call, bind_all, bound_boundaries_allow}
use rp2350_tz_tee.Tfm.Isolation.Bind.{contains}
use rp2350_tz_tee.Tfm.Isolation.Bind.Elsewhere.{IsOutside}
use rp2350_tz_tee.Examples.Tfm.{build, mpu_api, mpu_api-IsMpuApi, mpu_reset}
use rp2350_tz_tee.Examples.Tfm.Boundaries.{platform, spe, filter_succeeds, load_info, mmio}
use rp2350_tz_tee.Examples.Tfm.Layout.{switches, flash_platform, flash_platform-IsPlatform}

abbrev pub alignments : Alignments
alignments = record {
  veneers = 32;
  psa_code = 32;
  app_code = 32;
  unpriv_code = 32;
  pt_ro = 32;
  shared_data = 8;
  msp_stack = 32;
  sp_meta = 32;
  app_data = 32;
  psa_data = 32;
}

pub alignments-IsAlignments : IsAlignments alignments
alignments-IsAlignments = record {
  veneers = (omega arith, refl);
  psa_code = (omega arith, refl);
  app_code = (omega arith, refl);
  unpriv_code = (omega arith, refl);
  pt_ro = omega arith;
  shared_data = omega arith;
  msp_stack = omega arith;
  sp_meta = (omega arith, refl);
  app_data = (omega arith, refl);
  psa_data = (omega arith, refl);
}

abbrev words : ℕ → Contents
words n = record { align = 4; size = n }

abbrev pub secure_image : Image
secure_image = record {
  at_end = false;
  enable_heap = false;
  code = record {
    vectors = words 0x110;
    reset = words 0x80;
    stubs = 0x40;
    load_list = 0x100;
    psa_rot = 0x1000;
    app_rot = 0x1000;
    extab = words 0;
    exidx = words 8;
    binary_info = words 0x20;
    tfm_code = 0x4000;
    unpriv_code = 0x2000;
  };
  ram = record {
    ram_vectors = words 0x110;
    heap = 0;
    sp_meta = 0;
    app_data = 0x20;
    app_bss = 0x20;
    psa_data = 0x20;
    psa_bss = 0x20;
    tfm_data = 0x100;
    uninitialized = words 0;
    tfm_bss = 0x100;
  };
  loads = 0x140;
}

pub secure_image-IsImage : IsImage secure_image
secure_image-IsImage = record {
  code = record {
    vectors_aligned = omega arith;
    reset_aligned = omega arith;
    extab_aligned = omega arith;
    exidx_aligned = omega arith;
    info_aligned = omega arith;
  };
  ram = record { vectors_aligned = omega arith; uninitialized_aligned = omega arith };
}

abbrev at_map : Memories
at_map = memories switches flash_platform

abbrev pub image_map : Linked
image_map = place build alignments secure_image at_map

pub image_link : link build alignments secure_image at_map ≡ some image_map
unfolding link place place_code place_data align_up
image_link = refl

mpu_api-IsMpuMacros : IsMpuMacros mpu_api
mpu_api-IsMpuMacros = record {
  enable_bit_0 = refl;
  rbar_base = λ base ro np xn h g f. omega arith;
  rbar_flags = λ base ro np xn h g f. omega arith;
  rlar_limit = λ limit idx h. omega arith;
  rlar_on = λ limit idx h. omega arith;
  pxn_limit = λ limit pxn idx h g. omega arith;
  pxn_on = λ limit pxn idx h g. omega arith;
}

abbrev pub linked_platform : Platform
linked_platform = record platform { symbols = symbols_of image_map }

-- A partition is bound, then one without a place for its handle.
abbrev pub calls : List Call
calls =
    record { load_info = some load_info; boundary = some 9 }
    ∷ (record { load_info = some load_info; boundary = none } ∷ [])

set_up_succeeds : (tfm_hal_set_up_static_boundaries linked_platform 0 spe).0 ≡ hal_success
unfolding mpu_region_attributes
set_up_succeeds =
    (static_boundaries_succeed linked_platform 0 spe mpu_api-IsMpuApi refl).1
      (filter_succeeds, omega arith)

pub data_held : holds build image_map psa_data 0x2000_0D70 ≡ true
unfolding holds place place_code place_data align_up
data_held = refl

-- The device of the example lies above all memories.
away : (x : ℕ) → contains mmio.list x ≡ true → IsOutside (mmio.deref x) 0x2000_0D70
away x h = inl (omega arith)

-- Unprivileged code cannot read the data of a PSA RoT partition.
bound_boundaries_allow_example :
    unprivileged_allows
      (bind_all linked_platform mmio calls
        (tfm_hal_set_up_static_boundaries linked_platform 0 spe).2).mpu
      (region_num mpu_api mpu_reset)
      read
      0x2000_0D70
    ≡ false
bound_boundaries_allow_example =
    bound_boundaries_allow linked_platform mmio calls 0 spe alignments secure_image at_map image_map
      psa_data read 0x2000_0D70 mpu_api-IsMpuApi mpu_api-IsMpuMacros
      (memories-IsMemories switches flash_platform flash_platform-IsPlatform (omega arith))
      alignments-IsAlignments secure_image-IsImage image_link refl refl set_up_succeeds
      (omega arith) away data_held
