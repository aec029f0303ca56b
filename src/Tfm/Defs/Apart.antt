-- ===== src/Tfm/Defs/Apart.antt =====
-- The images, the other slot, the bootloader and the data do not overlap, whatever the build.
use rp2350_tz_tee.Prelude.{ℕ, ◌+◌, ◌-◌, ◌^◌, ◌≤◌, ◌<◌, ◌≡◌, ◌&&◌, Bool, ltb, arith, refl, false}
use rp2350_tz_tee.Tfm.Flash.{
  Images, one_image, two_images, flash_ns_partition_size, flash_total_size, flash_area_2_offset,
  flash_area_scratch_offset,
}
use rp2350_tz_tee.Tfm.Defs.{
  Switches, Platform, s_code_start, s_code_size, s_data_start, s_data_size, ns_code_start,
  ns_code_size, ns_data_start, ns_partition_start, secondary_partition_start,
  secondary_partition_size, bl2_code_start, bl2_code_size, boot_tfm_shared_data_base,
  boot_tfm_shared_data_size, scratch_x_start, scratch_y_start, scratch_y_size,
}

-- What the SDK's address map and the sizes of the image headers give: room for code in a partition,
-- flash below RAM, and 256 KB of RAM from SRAM0 up to SRAM4.
pub record IsPlatform (p : Platform) : Type 0 where
  pub code_fits : p.bl2_header_size + p.bl2_trailer_size < flash_ns_partition_size
  pub flash_first : p.xip_base + flash_total_size ≤ p.sram0_base
  pub sram_order : p.sram0_base + 0x40000 ≤ p.sram4_base
  pub sram_fits : p.sram4_base + 0x40000 ≤ 2 ^ 32

-- Whether two areas overlap, given by their starts and sizes.
abbrev pub overlap : ℕ → ℕ → ℕ → ℕ → Bool
overlap start size start' size' = ltb start (start' + size') && ltb start' (start + size)

-- From the start of the Secure code to the end of the Non-Secure partition.
abbrev pub slot_rest : Switches → Platform → ℕ
slot_rest b p = ns_partition_start b p + flash_ns_partition_size - s_code_start b p

-- The layout that the file means: Secure code below the Non-Secure partition of the same slot, the
-- bootloader below both, the other slot apart from them, and the data apart from each other.
pub record IsApart (b : Switches) (p : Platform) : Type 0 where
  pub s_code_below : s_code_start b p + s_code_size b p ≤ ns_partition_start b p
  pub s_code_some : 0 < s_code_size b p
  pub ns_code_from : ns_partition_start b p ≤ ns_code_start b p
  pub ns_code_to :
      ns_code_start b p + ns_code_size b p ≤ ns_partition_start b p + flash_ns_partition_size
  pub partition_to :
      ns_partition_start b p + flash_ns_partition_size
      ≤ p.xip_base + flash_area_scratch_offset b.images
  pub bl2_apart :
      (b.bl2 && overlap (bl2_code_start b p) (bl2_code_size b p) (s_code_start b p) (slot_rest b p))
      ≡ false
  pub secondary_apart :
      (b.bl2
        && overlap
            (secondary_partition_start b p)
            (secondary_partition_size b p)
            (s_code_start b p)
            (slot_rest b p))
      ≡ false
  pub secondary_to :
      secondary_partition_start b p + secondary_partition_size b p
      ≤ p.xip_base + flash_area_scratch_offset b.images
  pub data_apart : s_data_start b p + s_data_size b p ≤ scratch_x_start b p
  pub scratch_below : scratch_y_start b p + scratch_y_size b p ≤ ns_data_start b p
  pub shared_inside :
      boot_tfm_shared_data_base b p + boot_tfm_shared_data_size ≤ s_data_start b p + s_data_size b p

pub area_2 : (n : Images) → flash_area_2_offset n ≡ 0xD1000
area_2 one_image = refl
area_2 two_images = refl

pub area_scratch : (n : Images) → flash_area_scratch_offset n ≡ 0x191000
area_scratch one_image = refl
area_scratch two_images = refl

-- Whatever the switches of the build, with headers that leave room for code in a partition, flash
-- below RAM and 256 KB up to SRAM4: Secure code lies below the Non-Secure partition of its slot
-- and is not empty, Non-Secure code lies in that partition, with the bootloader its code lies
-- below and the other slot apart from both, both slots end below the scratch area, and Secure
-- data, the scratch banks and Non-Secure data follow each other with the shared data inside the
-- first.
pub regions-IsApart : (b : Switches) (p : Platform) → IsPlatform p → IsApart b p
regions-IsApart b p h = record {
  s_code_below = ground (arith, area_2 b.images);
  s_code_some = ground arith;
  ns_code_from = ground arith;
  ns_code_to = ground arith;
  partition_to = ground (arith, area_2 b.images, area_scratch b.images);
  bl2_apart = ground (arith, area_2 b.images);
  secondary_apart = ground (arith, area_2 b.images);
  secondary_to = ground (arith, area_2 b.images, area_scratch b.images);
  data_apart = ground arith;
  scratch_below = ground arith;
  shared_inside = ground arith;
}
