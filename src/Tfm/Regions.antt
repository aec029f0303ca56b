-- ===== src/Tfm/Regions.antt =====
-- What reference/target_cfg.c takes from elsewhere: `memory_regions`, two addresses of the SDK's
-- address map, and the masks of CMSIS and of the SDK.
use rp2350_tz_tee.Prelude.{ℕ, ◌%◌, ◌^◌, ◌≤◌, ◌<◌, ◌≡◌}

-- `struct memory_region_limits`, with `SRAM4_BASE` and `PPB_BASE`.
pub record Regions : Type 0 where
  pub veneer_base : ℕ
  pub veneer_limit : ℕ
  pub non_secure_partition_base : ℕ
  pub non_secure_partition_limit : ℕ
  pub sram4_base : ℕ
  pub ppb_base : ℕ

-- What the linker and the SDK give: blocks of 32 bytes, in the order of the address map.
pub record IsRegions (r : Regions) : Type 0 where
  pub veneer_start : r.veneer_base % 32 ≡ 0
  pub veneer_end : r.veneer_limit % 32 ≡ 31
  pub veneer_some : r.veneer_base ≤ r.veneer_limit
  pub ns_after : r.veneer_limit < r.non_secure_partition_base
  pub ns_start : r.non_secure_partition_base % 32 ≡ 0
  pub ns_end : r.non_secure_partition_limit % 32 ≡ 31
  pub ns_some : r.non_secure_partition_base ≤ r.non_secure_partition_limit
  pub sram4_after : r.non_secure_partition_limit < r.sram4_base
  pub sram4_start : r.sram4_base % 32 ≡ 0
  pub ppb_after : r.sram4_base < r.ppb_base
  pub ppb_start : r.ppb_base % 32 ≡ 0
  pub ppb_fits : r.ppb_base < 2 ^ 32
