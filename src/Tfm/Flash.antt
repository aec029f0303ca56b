-- ===== src/Tfm/Flash.antt =====
-- reference/flash_layout.h: the offsets of the flash areas, for one and for two images.
use rp2350_tz_tee.Prelude.{ℕ, ◌+◌, ◌*◌, ◌/◌, ◌%◌, Bool, not, ◌||◌, ◌==◌, ltb}

-- `MCUBOOT_IMAGE_NUMBER`, where one also stands for a build that does not define it.
pub data Images : Type 0 where
  one_image two_images : Images

abbrev pub flash_s_partition_size : ℕ
flash_s_partition_size = 0x60000

abbrev pub flash_ns_partition_size : ℕ
flash_ns_partition_size = 0x60000

abbrev pub flash_max_partition_size : ℕ
flash_max_partition_size = flash_s_partition_size

abbrev pub flash_area_image_sector_size : ℕ
flash_area_image_sector_size = 0x1000

abbrev pub flash_total_size : ℕ
flash_total_size = 0x200000

abbrev pub flash_area_bl2_offset : ℕ
flash_area_bl2_offset = 0x0

abbrev pub flash_area_bl2_size : ℕ
flash_area_bl2_size = 0x11000

abbrev pub flash_area_0_id : ℕ
flash_area_0_id = 1

abbrev pub flash_area_0_offset : ℕ
flash_area_0_offset = flash_area_bl2_offset + flash_area_bl2_size

abbrev pub flash_area_0_size : Images → ℕ
flash_area_0_size one_image = flash_s_partition_size + flash_ns_partition_size
flash_area_0_size two_images = flash_s_partition_size

-- Areas 1 and 3 are those of two images.
abbrev pub flash_area_1_id : ℕ
flash_area_1_id = flash_area_0_id + 1

abbrev pub flash_area_1_offset : ℕ
flash_area_1_offset = flash_area_0_offset + flash_area_0_size two_images

abbrev pub flash_area_1_size : ℕ
flash_area_1_size = flash_ns_partition_size

abbrev pub flash_area_2_id : Images → ℕ
flash_area_2_id one_image = flash_area_0_id + 1
flash_area_2_id two_images = flash_area_1_id + 1

abbrev pub flash_area_2_offset : Images → ℕ
flash_area_2_offset one_image = flash_area_0_offset + flash_area_0_size one_image
flash_area_2_offset two_images = flash_area_1_offset + flash_area_1_size

abbrev pub flash_area_2_size : Images → ℕ
flash_area_2_size one_image = flash_s_partition_size + flash_ns_partition_size
flash_area_2_size two_images = flash_s_partition_size

abbrev pub flash_area_3_id : ℕ
flash_area_3_id = flash_area_2_id two_images + 1

abbrev pub flash_area_3_offset : ℕ
flash_area_3_offset = flash_area_2_offset two_images + flash_area_2_size two_images

abbrev pub flash_area_3_size : ℕ
flash_area_3_size = flash_ns_partition_size

abbrev pub flash_area_scratch_id : Images → ℕ
flash_area_scratch_id one_image = flash_area_2_id one_image + 1
flash_area_scratch_id two_images = flash_area_3_id + 1

abbrev pub flash_area_scratch_offset : Images → ℕ
flash_area_scratch_offset one_image = flash_area_2_offset one_image + flash_area_2_size one_image
flash_area_scratch_offset two_images = flash_area_3_offset + flash_area_3_size

abbrev pub flash_area_scratch_size : ℕ
flash_area_scratch_size = 0x8000

abbrev pub mcuboot_status_max_entries : Images → ℕ
mcuboot_status_max_entries one_image =
    (flash_s_partition_size + flash_ns_partition_size) / flash_area_scratch_size
mcuboot_status_max_entries two_images = flash_max_partition_size / flash_area_scratch_size

abbrev pub mcuboot_max_img_sectors : Images → ℕ
mcuboot_max_img_sectors one_image =
    (flash_s_partition_size + flash_ns_partition_size) / flash_area_image_sector_size
mcuboot_max_img_sectors two_images = flash_max_partition_size / flash_area_image_sector_size

abbrev pub flash_ps_area_offset : Images → ℕ
flash_ps_area_offset n = flash_area_scratch_offset n + flash_area_scratch_size

abbrev pub flash_ps_area_size : ℕ
flash_ps_area_size = 2 * flash_area_image_sector_size

abbrev pub flash_its_area_offset : Images → ℕ
flash_its_area_offset n = flash_ps_area_offset n + flash_ps_area_size

abbrev pub flash_its_area_size : ℕ
flash_its_area_size = 2 * flash_area_image_sector_size

abbrev pub flash_otp_nv_counters_area_offset : Images → ℕ
flash_otp_nv_counters_area_offset n = flash_its_area_offset n + flash_its_area_size

abbrev pub flash_otp_nv_counters_area_size : ℕ
flash_otp_nv_counters_area_size = 2 * flash_area_image_sector_size

abbrev pub flash_otp_nv_counters_sector_size : ℕ
flash_otp_nv_counters_sector_size = flash_area_image_sector_size

abbrev pub secure_image_offset : ℕ
secure_image_offset = 0x0

abbrev pub secure_image_max_size : ℕ
secure_image_max_size = flash_s_partition_size

abbrev pub non_secure_image_offset : ℕ
non_secure_image_offset = secure_image_offset + secure_image_max_size

abbrev pub non_secure_image_max_size : ℕ
non_secure_image_max_size = flash_ns_partition_size

abbrev pub tfm_hal_flash_program_unit : ℕ
tfm_hal_flash_program_unit = 0x100

abbrev pub tfm_hal_ps_flash_area_addr : Images → ℕ
tfm_hal_ps_flash_area_addr n = flash_ps_area_offset n

abbrev pub tfm_hal_ps_flash_area_size : ℕ
tfm_hal_ps_flash_area_size = flash_ps_area_size

abbrev pub tfm_hal_its_flash_area_addr : Images → ℕ
tfm_hal_its_flash_area_addr n = flash_its_area_offset n

abbrev pub tfm_hal_its_flash_area_size : ℕ
tfm_hal_its_flash_area_size = flash_its_area_size

abbrev pub tfm_otp_nv_counters_area_size : ℕ
tfm_otp_nv_counters_area_size = flash_otp_nv_counters_area_size / 2

abbrev pub tfm_otp_nv_counters_area_addr : Images → ℕ
tfm_otp_nv_counters_area_addr n = flash_otp_nv_counters_area_offset n

abbrev pub tfm_otp_nv_counters_backup_area_addr : Images → ℕ
tfm_otp_nv_counters_backup_area_addr n =
    tfm_otp_nv_counters_area_addr n + tfm_otp_nv_counters_area_size

-- The conditions of the `#error` lines, in their order.
abbrev pub storage_error : ℕ → Bool
storage_error size =
    not (size % flash_area_image_sector_size == 0)
    || size / flash_area_image_sector_size == 0
    || size / flash_area_image_sector_size == 1
    || size / flash_area_image_sector_size == 3

abbrev pub counters_error : Bool
counters_error =
    not (flash_otp_nv_counters_area_size % flash_area_image_sector_size == 0)
    || ltb flash_otp_nv_counters_area_size (2 * flash_otp_nv_counters_sector_size)
    || not (flash_otp_nv_counters_area_size / flash_otp_nv_counters_sector_size % 2 == 0)

unfoldable layout_error : Images → Bool
layout_error n =
    not (flash_s_partition_size % flash_area_image_sector_size == 0)
    || not (flash_ns_partition_size % flash_area_image_sector_size == 0)
    || counters_error
    || ltb flash_total_size (flash_otp_nv_counters_area_offset n + flash_otp_nv_counters_area_size)
    || storage_error tfm_hal_ps_flash_area_size
    || storage_error tfm_hal_its_flash_area_size
