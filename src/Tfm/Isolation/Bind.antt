-- ===== src/Tfm/Isolation/Bind.antt =====
-- `tfm_hal_bind_boundary` of reference/tfm_hal_isolation_rp2350.c: the named MMIO of a partition,
-- its MPU regions, and the handle.
pub mod Regions
pub mod Outcome
pub mod Elsewhere
pub mod Units
use rp2350_tz_tee.Prelude.{
  ℕ, ◌+◌, ◌-◌, ◌*◌, ◌^◌, Bool, true, false, ◌&&◌, ◌||◌, not, if◌then◌else◌, ◌==◌, leb,
}
use rp2350_tz_tee.Prelude.{bit_and, bit_or, List, [], ◌∷◌, Option, none, some}
use rp2350_tz_tee.Prelude.Words.{u32}
use rp2350_tz_tee.Tfm.Build.{IsolationLevel, level_1, level_2, level_3}
use rp2350_tz_tee.Tfm.Filter.{
  access_ctrl_configure_to_secure_privileged, access_ctrl_configure_to_secure_unprivileged,
}
use rp2350_tz_tee.Tfm.Mpu.{Mpu, MpuApi, region_num}
use rp2350_tz_tee.Tfm.Isolation.{
  Status, hal_success, hal_error_generic, Spe, Platform, limit_value, disable_if_on,
}

-- An element of the asset list of a partition.
pub record Asset : Type 0 where
  pub attr : ℕ
  pub dev_ref : ℕ

-- `struct partition_load_info_t`, by what `IS_PSA_ROT`, `IS_NS_AGENT_TZ` and `LOAD_INFO_ASSET`
-- give of it.
pub record LoadInfo : Type 0 where
  pub is_psa_rot : Bool
  pub is_ns_agent_tz : Bool
  pub assets : List Asset

-- `struct platform_data_t`
pub record PlatformData : Type 0 where
  pub periph_start : ℕ
  pub periph_limit : ℕ
  pub periph_ppc_bank : ℕ
  pub periph_ppc_mask : ℕ

-- The list of `get_partition_named_mmio_list`, `REFERENCE_TO_PTR` with what it points to, and two
-- constants of the TF-M headers.
pub record Mmio : Type 0 where
  pub list : List ℕ
  pub deref : ℕ → PlatformData
  pub named_mmio : ℕ
  pub do_not_configure : ℕ

-- The inner loop: whether the reference is in the list.
unfoldable pub contains : List ℕ → ℕ → Bool
contains [] x = false
contains (y ∷ ys) x = x == y || contains ys x

-- `~mask` of 32 bits
abbrev pub complement : ℕ → ℕ
complement mask = 2 ^ 32 - 1 - mask

abbrev pub is_privileged : IsolationLevel → LoadInfo → Bool
is_privileged level_1 ld = true
is_privileged level_2 ld = ld.is_psa_rot
is_privileged level_3 ld = ld.is_psa_rot

abbrev pub is_level_2 : IsolationLevel → Bool
is_level_2 level_2 = true
is_level_2 _ = false

abbrev pub bit : Bool → ℕ
bit true = 1
bit false = 0

-- `partition_attrs`
unfoldable pub handle : Bool → Bool → ℕ
handle privileged ns_agent_tz =
    bit_or (bit_and (bit privileged * 2 ^ 1) (2 ^ 1)) (bit_and (bit ns_agent_tz * 2 ^ 0) (2 ^ 0))

module _ (p : Platform) (mmio : Mmio) where
  open p use {api, build, bus, ac}

  -- The MPU with the region of a device added under number `n`.
  unfoldable pub add_device : PlatformData → ℕ → Mpu → Mpu
  add_device d n m = api.enable api.ctrl_flags (
      api.set_region n (api.mpu_rbar d.periph_start api.sh_non 0 1 1)
        (limit_value api build d.periph_limit 1 2) (disable_if_on api m))

  -- The part under `TFM_ISOLATION_LEVEL == 2` for an unprivileged partition.
  unfoldable pub map_device : PlatformData → Spe bus → Status × Spe bus
  map_device d s =
      if leb (region_num api s.mpu) s.n_configured_regions
      then (hal_error_generic, s)
      else if not (bit_and d.periph_start (complement api.rbar_base_msk) == 0)
      then (hal_error_generic, s)
      else if not (bit_and d.periph_limit (complement api.rlar_limit_msk) == 0x1F)
      then (hal_error_generic, s)
      else (
        hal_success,
        record s {
          mpu = add_device d s.n_configured_regions s.mpu;
          n_configured_regions = u32 (s.n_configured_regions + 1);
        },
      )

  -- The access control of a device.
  unfoldable pub set_access : Bool → PlatformData → Spe bus → Spe bus
  set_access privileged d s = if d.periph_ppc_bank == mmio.do_not_configure then s else record s {
    devices =
        if privileged
        then access_ctrl_configure_to_secure_privileged bus ac d.periph_ppc_mask s.devices
        else access_ctrl_configure_to_secure_unprivileged bus ac d.periph_ppc_mask s.devices;
  }

  -- One round of the loop over the assets.
  unfoldable pub bind_asset : Bool → Asset → Spe bus → Status × Spe bus
  bind_asset privileged asset s =
      if bit_and asset.attr mmio.named_mmio == 0
      then (hal_success, s)
      else if not (contains mmio.list asset.dev_ref)
      then (hal_error_generic, s)
      else let d = mmio.deref asset.dev_ref in
        let s' = set_access privileged d s in
        if is_level_2 build.isolation_level && not privileged
        then map_device d s'
        else (hal_success, s')

  -- The loop: a round that fails ends it.
  unfoldable pub bind_assets : Bool → List Asset → Spe bus → Status × Spe bus
  bind_assets privileged [] s = (hal_success, s)
  bind_assets privileged (asset ∷ assets) s =
      let (status, s') = bind_asset privileged asset s in
      let rest = bind_assets privileged assets s' in
      elim status [ hal_success ↦ rest | other ↦ (other, s') ]

  -- `none` is a null pointer; of `p_boundary` it is the value behind it.
  unfoldable pub tfm_hal_bind_boundary :
      Option LoadInfo → Option ℕ → Spe bus → Status × Option ℕ × Spe bus
  tfm_hal_bind_boundary none boundary s = (hal_error_generic, boundary, s)
  tfm_hal_bind_boundary (some ld) none s = (hal_error_generic, none, s)
  tfm_hal_bind_boundary (some ld) (some boundary) s =
      let privileged = is_privileged build.isolation_level ld in
      let (status, s') = bind_assets privileged ld.assets s in
      elim status [
        | hal_success ↦ (hal_success, some (handle privileged ld.is_ns_agent_tz), s')
        | other ↦ (other, some boundary, s')
      ]
