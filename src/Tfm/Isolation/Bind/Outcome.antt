-- ===== src/Tfm/Isolation/Bind/Outcome.antt =====
-- When binding succeeds, and the handle that it gives.
use rp2350_tz_tee.Prelude.{
  ℕ, ◌+◌, ◌*◌, ◌^◌, ◌≤◌, ◌<◌, ◌≡◌, ◌≢◌, ◌↔◌, Bool, true, false, ◌&&◌, ◌||◌, not, List, [], ◌∷◌,
}
use rp2350_tz_tee.Prelude.{arith, refl, some, if◌then◌else◌, ◌==◌, ltb, bit_and, ap}
use rp2350_tz_tee.Tfm.Build.{level_2}
use rp2350_tz_tee.Tfm.Mpu.{IsMpuApi, region_num}
use rp2350_tz_tee.Tfm.Isolation.{hal_success, Spe, Platform}
use rp2350_tz_tee.Tfm.Isolation.Bind.{
  Mmio, PlatformData, Asset, LoadInfo, contains, complement, is_privileged, is_level_2, bit, handle,
  map_device, set_access, bind_asset, bind_assets, tfm_hal_bind_boundary,
}
use rp2350_tz_tee.Tfm.Isolation.Bind.Regions.{bind_asset-Extends, region_num-Extends}

handle_lem :
    (privileged ns_agent_tz : Bool)
    → handle privileged ns_agent_tz ≡ 2 * bit privileged + bit ns_agent_tz
unfolding handle
handle_lem true true = refl
handle_lem true false = refl
handle_lem false true = refl
handle_lem false false = refl

module _ (p : Platform) (mmio : Mmio) where
  open p use {api, bus, build}

  -- Whether an asset is named MMIO.
  abbrev pub is_named : Asset → Bool
  is_named asset = not (bit_and asset.attr mmio.named_mmio == 0)

  -- Whether a device spans whole blocks of the MPU.
  abbrev pub is_aligned : PlatformData → Bool
  is_aligned d =
      bit_and d.periph_start (complement api.rbar_base_msk) == 0
      && bit_and d.periph_limit (complement api.rlar_limit_msk) == 0x1F

  -- Whether the named assets are all in the list of the platform.
  unfoldable pub all_listed : List Asset → Bool
  all_listed [] = true
  all_listed (asset ∷ assets) =
      (not (is_named asset) || contains mmio.list asset.dev_ref) && all_listed assets

  -- Whether the devices of the named assets all span whole blocks.
  unfoldable pub all_aligned : List Asset → Bool
  all_aligned [] = true
  all_aligned (asset ∷ assets) =
      (not (is_named asset) || is_aligned (mmio.deref asset.dev_ref)) && all_aligned assets

  -- How many assets are named.
  unfoldable pub count_named : List Asset → ℕ
  count_named [] = 0
  count_named (asset ∷ assets) =
      let rest = count_named assets in if is_named asset then rest + 1 else rest

  set_access_same :
      (privileged : Bool) (d : PlatformData) (s : Spe bus)
      → ((set_access p mmio privileged d s).mpu ≡ s.mpu)
        × ((set_access p mmio privileged d s).n_configured_regions ≡ s.n_configured_regions)
  unfolding set_access
  set_access_same privileged d s = ground arith

  -- Without MPU regions, the list alone decides.
  bind_assets_listed :
      (privileged : Bool) (assets : List Asset) (s : Spe bus)
      → (is_level_2 build.isolation_level && not privileged) ≡ false
      → ((bind_assets p mmio privileged assets s).0 ≡ hal_success) ↔ (all_listed assets ≡ true)
  unfolding bind_assets bind_asset all_listed
  bind_assets_listed privileged [] s h = ground arith
  bind_assets_listed privileged (asset ∷ assets) s h =
      ground
        (arith, bind_assets_listed privileged assets (bind_asset p mmio privileged asset s).1 h)

  -- With both pointers given, `tfm_hal_bind_boundary` on success sets the handle to twice the
  -- privilege bit plus the bit of the Non-Secure agent, and otherwise leaves the handle alone.
  pub tfm_hal_bind_boundary_handle :
      (ld : LoadInfo) (boundary : ℕ) (s : Spe bus)
      → let privileged = is_privileged build.isolation_level ld in
        let result = tfm_hal_bind_boundary p mmio (some ld) (some boundary) s in
        (result.0 ≡ hal_success → result.1 ≡ some (2 * bit privileged + bit ld.is_ns_agent_tz))
        × (result.0 ≢ hal_success → result.1 ≡ some boundary)
  unfolding tfm_hal_bind_boundary
  tfm_hal_bind_boundary_handle ld boundary s =
      ground (arith, handle_lem (is_privileged build.isolation_level ld) ld.is_ns_agent_tz)

  -- Where no MPU regions are needed (another isolation level than 2, or a privileged partition),
  -- `tfm_hal_bind_boundary` succeeds exactly if every named asset is in the platform's list.
  pub tfm_hal_bind_boundary_listed :
      (ld : LoadInfo) (boundary : ℕ) (s : Spe bus)
      → (is_level_2 build.isolation_level && not (is_privileged build.isolation_level ld)) ≡ false
      → ((tfm_hal_bind_boundary p mmio (some ld) (some boundary) s).0 ≡ hal_success)
        ↔ (all_listed ld.assets ≡ true)
  unfolding tfm_hal_bind_boundary
  tfm_hal_bind_boundary_listed ld boundary s h =
      ground (arith, bind_assets_listed (is_privileged build.isolation_level ld) ld.assets s h)

  -- One round under level 2 for an unprivileged partition.
  bind_asset_mapped :
      (asset : Asset) (s : Spe bus)
      → is_level_2 build.isolation_level ≡ true
      → s.n_configured_regions ≤ region_num api s.mpu
      → region_num api s.mpu < 2 ^ 32
      → let result = bind_asset p mmio false asset s in
        (result.0 ≡ hal_success ↔ (
          (not (is_named asset)
            || (contains mmio.list asset.dev_ref
                && is_aligned (mmio.deref asset.dev_ref)
                && ltb s.n_configured_regions (region_num api s.mpu)))
          ≡ true))
        × (result.0 ≡ hal_success
            → result.1.n_configured_regions
              ≡ (if is_named asset then s.n_configured_regions + 1 else s.n_configured_regions))
  unfolding bind_asset map_device
  bind_asset_mapped asset s h le lt =
      let same = set_access_same false (mmio.deref asset.dev_ref) s in
      let num = ap (region_num api) same.0 in ground arith

  bind_assets_mapped :
      (assets : List Asset) (s : Spe bus)
      → IsMpuApi api
      → is_level_2 build.isolation_level ≡ true
      → s.n_configured_regions ≤ region_num api s.mpu
      → region_num api s.mpu < 2 ^ 32
      → let result = bind_assets p mmio false assets s in
        (result.0 ≡ hal_success ↔ (
          (all_listed assets ≡ true)
          × (all_aligned assets ≡ true)
          × (s.n_configured_regions + count_named assets ≤ region_num api s.mpu)))
        × (result.0 ≡ hal_success
            → result.1.n_configured_regions ≡ s.n_configured_regions + count_named assets)
  unfolding bind_assets all_listed all_aligned count_named
  bind_assets_mapped [] s laws h le lt = ground arith
  bind_assets_mapped (asset ∷ assets) s laws h le lt =
      let ext = bind_asset-Extends p laws mmio false asset s lt in
      let num = region_num-Extends p laws ext in
      let s' = (bind_asset p mmio false asset s).1 in
      let one = bind_asset_mapped asset s h le lt in
      let rest = bind_assets_mapped assets s' laws h (rw num (ext.bounded le)) (rw num lt) in
      ground arith

  -- Under isolation level 2, for an unprivileged partition and as long as no more regions are
  -- counted than the hardware has (fewer than 2 ^ 32), `tfm_hal_bind_boundary` succeeds exactly if
  -- every named asset is in the platform's list, their devices span whole MPU blocks, and the
  -- regions left suffice; then the count grows by the number of named assets.
  pub tfm_hal_bind_boundary_mapped :
      (ld : LoadInfo) (boundary : ℕ) (s : Spe bus)
      → IsMpuApi api
      → build.isolation_level ≡ level_2
      → ld.is_psa_rot ≡ false
      → s.n_configured_regions ≤ region_num api s.mpu
      → region_num api s.mpu < 2 ^ 32
      → let result = tfm_hal_bind_boundary p mmio (some ld) (some boundary) s in
        (result.0 ≡ hal_success ↔ (
          (all_listed ld.assets ≡ true)
          × (all_aligned ld.assets ≡ true)
          × (s.n_configured_regions + count_named ld.assets ≤ region_num api s.mpu)))
        × (result.0 ≡ hal_success
            → result.2.n_configured_regions ≡ s.n_configured_regions + count_named ld.assets)
  unfolding tfm_hal_bind_boundary
  tfm_hal_bind_boundary_mapped ld boundary s laws level unpriv le lt =
      let at_2 : is_level_2 build.isolation_level ≡ true = ground arith in
      let low : is_privileged build.isolation_level ld ≡ false = ground arith in
      ground (arith, low, bind_assets_mapped ld.assets s laws at_2 le lt)
