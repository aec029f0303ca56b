-- ===== src/Tfm/Defs.antt =====
-- reference/region_defs.h: where the images and their data lie, for the switches of the build. What
-- the file defines under BL2 only has a definition here for every build.
pub mod Areas
pub mod Apart
pub mod Attributed
use rp2350_tz_tee.Prelude.{ℕ, ◌+◌, ◌-◌, Bool, true, false, ◌&&◌, ltb, if◌then◌else◌}
use rp2350_tz_tee.Tfm.Flash.{
  Images, one_image, two_images, flash_s_partition_size, flash_ns_partition_size, flash_total_size,
  flash_area_0_offset, flash_area_2_offset, flash_area_bl2_size, flash_otp_nv_counters_area_offset,
  flash_otp_nv_counters_area_size,
}

-- The switches that the file tests.
pub record Switches : Type 0 where
  pub images : Images  -- MCUBOOT_IMAGE_NUMBER
  pub bl2 : Bool  -- BL2
  pub link_to_secondary : Bool  -- LINK_TO_SECONDARY_PARTITION
  pub load_ns_image : Bool  -- TFM_LOAD_NS_IMAGE

-- The address map of the SDK, and the sizes that the build of TF-M gives.
pub record Platform : Type 0 where
  pub xip_base : ℕ
  pub sram0_base : ℕ
  pub sram4_base : ℕ
  pub bl2_header_size : ℕ
  pub bl2_trailer_size : ℕ
  pub provisioning_code_padded_size : ℕ
  pub provisioning_values_padded_size : ℕ
  pub provisioning_data_padded_size : ℕ

abbrev pub is_one_image : Images → Bool
is_one_image one_image = true
is_one_image two_images = false

abbrev pub s_heap_size : ℕ
s_heap_size = 0x200

abbrev pub s_msp_stack_size : ℕ
s_msp_stack_size = 0x800

abbrev pub ns_heap_size : ℕ
ns_heap_size = 0x1000

abbrev pub ns_vector_allocated_size : ℕ
ns_vector_allocated_size = 0x124

abbrev pub boot_tfm_shared_data_size : ℕ
boot_tfm_shared_data_size = 0x400

module _ (b : Switches) (p : Platform) where
  abbrev pub s_image_primary_partition_offset : ℕ
  s_image_primary_partition_offset =
      if b.bl2
      then (if b.link_to_secondary then flash_area_2_offset b.images else flash_area_0_offset)
      else 0x0

  abbrev pub s_image_secondary_partition_offset : ℕ
  s_image_secondary_partition_offset =
      if b.link_to_secondary then flash_area_0_offset else flash_area_2_offset b.images

  abbrev pub ns_image_primary_partition_offset : ℕ
  ns_image_primary_partition_offset =
      (if b.link_to_secondary then flash_area_2_offset b.images else flash_area_0_offset)
      + flash_s_partition_size

  abbrev pub image_s_code_size : ℕ
  image_s_code_size =
      if is_one_image b.images
        && ltb s_image_primary_partition_offset ns_image_primary_partition_offset
      then flash_s_partition_size - p.bl2_header_size
      else flash_s_partition_size - p.bl2_header_size - p.bl2_trailer_size

  abbrev pub image_ns_code_size : ℕ
  image_ns_code_size = flash_ns_partition_size - p.bl2_header_size - p.bl2_trailer_size

  abbrev pub s_image_primary_area_offset : ℕ
  s_image_primary_area_offset = s_image_primary_partition_offset + p.bl2_header_size

  abbrev pub s_code_start : ℕ
  s_code_start = p.xip_base + s_image_primary_area_offset

  abbrev pub s_code_size : ℕ
  s_code_size = image_s_code_size

  abbrev pub s_code_limit : ℕ
  s_code_limit = s_code_start + s_code_size - 1

  abbrev pub s_data_overall_size : ℕ
  s_data_overall_size = 0x30000

  abbrev pub s_data_start : ℕ
  s_data_start = p.sram0_base

  abbrev pub s_data_size : ℕ
  s_data_size = s_data_overall_size

  abbrev pub s_data_limit : ℕ
  s_data_limit = s_data_start + s_data_size - 1

  abbrev pub ns_image_primary_area_offset : ℕ
  ns_image_primary_area_offset = ns_image_primary_partition_offset + p.bl2_header_size

  abbrev pub ns_code_start : ℕ
  ns_code_start = p.xip_base + ns_image_primary_area_offset

  abbrev pub ns_code_size : ℕ
  ns_code_size = if b.load_ns_image then image_ns_code_size else 0x0

  abbrev pub ns_code_limit : ℕ
  ns_code_limit = ns_code_start + ns_code_size - 1

  abbrev pub ns_code_core1_start : ℕ
  ns_code_core1_start = ns_code_start + ns_vector_allocated_size

  abbrev pub ns_data_overall_size : ℕ
  ns_data_overall_size = 0x40000

  abbrev pub ns_data_start : ℕ
  ns_data_start = p.sram4_base

  abbrev pub ns_data_size : ℕ
  ns_data_size = if b.load_ns_image then ns_data_overall_size else 0

  abbrev pub ns_data_limit : ℕ
  ns_data_limit = ns_data_start + ns_data_size - 1

  abbrev pub ns_partition_start : ℕ
  ns_partition_start = p.xip_base + ns_image_primary_partition_offset

  abbrev pub ns_partition_size : ℕ
  ns_partition_size = if b.load_ns_image then flash_ns_partition_size else 0x0

  abbrev pub secondary_partition_start : ℕ
  secondary_partition_start = p.xip_base + s_image_secondary_partition_offset

  abbrev pub secondary_partition_size : ℕ
  secondary_partition_size = flash_s_partition_size + flash_ns_partition_size

  abbrev pub bl2_code_start : ℕ
  bl2_code_start = p.xip_base

  abbrev pub bl2_code_size : ℕ
  bl2_code_size = flash_area_bl2_size

  abbrev pub bl2_data_start : ℕ
  bl2_data_start = s_data_start

  abbrev pub bl2_data_size : ℕ
  bl2_data_size = s_data_size

  abbrev pub boot_tfm_shared_data_base : ℕ
  boot_tfm_shared_data_base = s_data_start

  abbrev pub provisioning_bundle_code_start : ℕ
  provisioning_bundle_code_start = ns_data_start

  abbrev pub provisioning_bundle_code_size : ℕ
  provisioning_bundle_code_size = p.provisioning_code_padded_size

  abbrev pub provisioning_bundle_values_start : ℕ
  provisioning_bundle_values_start = provisioning_bundle_code_start + provisioning_bundle_code_size

  abbrev pub provisioning_bundle_values_size : ℕ
  provisioning_bundle_values_size = p.provisioning_values_padded_size

  abbrev pub provisioning_bundle_data_start : ℕ
  provisioning_bundle_data_start =
      provisioning_bundle_values_start + provisioning_bundle_values_size

  abbrev pub provisioning_bundle_data_size : ℕ
  provisioning_bundle_data_size = p.provisioning_data_padded_size

  abbrev pub provisioning_bundle_start : ℕ
  provisioning_bundle_start =
      p.xip_base + flash_otp_nv_counters_area_offset b.images + flash_otp_nv_counters_area_size

  abbrev pub provisioning_bundle_magic : ℕ
  provisioning_bundle_magic = 0x18

  abbrev pub scratch_x_start : ℕ
  scratch_x_start = bl2_data_start + bl2_data_size

  abbrev pub scratch_x_size : ℕ
  scratch_x_size = 0x1000

  abbrev pub scratch_y_start : ℕ
  scratch_y_start = scratch_x_start + scratch_x_size

  abbrev pub scratch_y_size : ℕ
  scratch_y_size = 0x1000

  -- The condition of the `#error` line.
  abbrev pub bundle_error : Bool
  bundle_error = ltb (p.xip_base + flash_total_size) (
      provisioning_bundle_start + provisioning_bundle_code_size + provisioning_bundle_values_size
      + provisioning_bundle_data_size + provisioning_bundle_magic)
