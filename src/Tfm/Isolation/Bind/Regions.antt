-- ===== src/Tfm/Isolation/Bind/Regions.antt =====
-- What binding does to the MPU: it adds regions behind the configured ones, and nothing else.
use rp2350_tz_tee.Prelude.{ℕ, ◌+◌, ◌^◌, ◌≤◌, ◌<◌, ◌≡◌, ◌≢◌, Bool, List, [], ◌∷◌}
use rp2350_tz_tee.Prelude.{arith, refl, Option, none, some, bit_and, ◌∙◌, ◌/◌, ap, ◌⊎◌, inl, inr}
use rp2350_tz_tee.Prelude.Words.{u32}
use rp2350_tz_tee.Tfm.Mpu.{Mpu, IsMpuApi, region_num, enable_bit}
use rp2350_tz_tee.Tfm.Isolation.{Spe, Platform}
use rp2350_tz_tee.Tfm.Isolation.Bind.{
  Mmio, is_privileged, PlatformData, Asset, LoadInfo, add_device, map_device, set_access,
  bind_asset, bind_assets, tfm_hal_bind_boundary,
}

module _ (p : Platform) (laws : IsMpuApi p.api) where
  open p use {api, bus, build}

  -- From `s` to `s'` regions were only added: the configured ones stand, the count grew and stayed
  -- within the hardware, and an MPU that was on is on.
  pub record Extends (s s' : Spe bus) : Type 0 where
    pub same_type : s'.mpu.type ≡ s.mpu.type
    pub grows : s.n_configured_regions ≤ s'.n_configured_regions
    pub bounded :
        s.n_configured_regions ≤ region_num api s.mpu
        → s'.n_configured_regions ≤ region_num api s.mpu
    pub bases : (j : ℕ) → j < s.n_configured_regions → s'.mpu.rbar j ≡ s.mpu.rbar j
    pub limits : (j : ℕ) → j < s.n_configured_regions → s'.mpu.rlar j ≡ s.mpu.rlar j
    pub on : enable_bit api s.mpu ≢ 0 → enable_bit api s'.mpu ≢ 0

  Extends-refl : (s : Spe bus) → Extends s s
  Extends-refl s = record {
    same_type = refl;
    grows = omega arith;
    bounded = λ h. h;
    bases = λ j h. refl;
    limits = λ j h. refl;
    on = λ h. h;
  }

  Extends-trans : {s t u : Spe bus} → Extends s t → Extends t u → Extends s u
  Extends-trans {s} {t} {u} a b = record {
    same_type = b.same_type ∙ a.same_type;
    grows = omega arith;
    bounded = λ h. ground (
      arith,
      a.bounded,
      b.bounded,
      ap (λ (t : ℕ). bit_and t api.dregion_msk / 2 ^ api.dregion_pos) a.same_type,
    );
    bases = λ j h. b.bases j (omega arith) ∙ a.bases j h;
    limits = λ j h. b.limits j (omega arith) ∙ a.limits j h;
    on = λ h. b.on (a.on h);
  }

  pub region_num-Extends :
      {s t : Spe bus} → Extends s t → region_num api t.mpu ≡ region_num api s.mpu
  region_num-Extends e = ap (λ (t : ℕ). bit_and t api.dregion_msk / 2 ^ api.dregion_pos) e.same_type

  -- Where neither the MPU nor the count changes, nothing is added.
  Extends-same :
      (s t : Spe bus)
      → t.mpu ≡ s.mpu
      → t.n_configured_regions ≡ s.n_configured_regions
      → Extends s t
  Extends-same s t e g = record {
    same_type = ap (λ (m : Mpu). m.type) e;
    grows = omega arith;
    bounded = λ h. rw g h;
    bases = λ j h. ap (λ (m : Mpu). m.rbar j) e;
    limits = λ j h. ap (λ (m : Mpu). m.rlar j) e;
    on = λ h. rw e h;
  }

  set_access-Extends :
      (mmio : Mmio) (privileged : Bool) (d : PlatformData) (s : Spe bus)
      → Extends s (set_access p mmio privileged d s)
  unfolding set_access
  set_access-Extends mmio privileged d s = Extends-same s _ (ground arith) (ground arith)

  add_device_type :
      (mmio : Mmio) (d : PlatformData) (n : ℕ) (m : Mpu) → (add_device p mmio d n m).type ≡ m.type
  unfolding add_device
  add_device_type mmio d n m =
      rw (laws.type_enable, laws.type_set) (ground (arith, laws.type_disable m))

  add_device_at :
      (mmio : Mmio) (d : PlatformData) (n j : ℕ) (m : Mpu)
      → j < n
      → ((add_device p mmio d n m).rbar j ≡ m.rbar j)
        × ((add_device p mmio d n m).rlar j ≡ m.rlar j)
  unfolding add_device
  add_device_at mmio d n j m h =
      rw (laws.rbar_enable, laws.rlar_enable, laws.rbar_set, laws.rlar_set)
        (ground (
          arith,
          ap (λ (f : ℕ → ℕ). f j) (laws.rbar_disable m),
          ap (λ (f : ℕ → ℕ). f j) (laws.rlar_disable m),
        ))

  -- Either nothing changes, or a region is added within the hardware.
  pub map_device_cases :
      (mmio : Mmio) (d : PlatformData) (s : Spe bus)
      → ((map_device p mmio d s).1 ≡ s)
        ⊎ ((s.n_configured_regions < region_num api s.mpu)
            × ((map_device p mmio d s).1 ≡ record s {
              mpu = add_device p mmio d s.n_configured_regions s.mpu;
              n_configured_regions = u32 (s.n_configured_regions + 1);
            }))
  unfolding map_device
  map_device_cases mmio d s = ground arith

  map_device-Extends :
      (mmio : Mmio) (d : PlatformData) (s : Spe bus)
      → region_num api s.mpu < 2 ^ 32
      → Extends s (map_device p mmio d s).1
  map_device-Extends mmio d s h = elim (map_device_cases mmio d s) [
    | inl e ↦ rw e (Extends-refl s)
    | inr done ↦ rw (done.1) record {
      same_type = add_device_type mmio d s.n_configured_regions s.mpu;
      grows = ground arith;
      bounded = λ g. ground arith;
      bases = λ j g. (add_device_at mmio d s.n_configured_regions j s.mpu g).0;
      limits = λ j g. (add_device_at mmio d s.n_configured_regions j s.mpu g).1;
      on = λ g. unfold add_device in laws.enabled api.ctrl_flags _;
    }
  ]

  bind_asset_cases :
      (mmio : Mmio) (privileged : Bool) (asset : Asset) (s : Spe bus)
      → let d = mmio.deref asset.dev_ref in
        let s' = set_access p mmio privileged d s in
        let t = (bind_asset p mmio privileged asset s).1 in
        (t ≡ s) ⊎ ((t ≡ s') ⊎ (t ≡ (map_device p mmio d s').1))
  unfolding bind_asset
  bind_asset_cases mmio privileged asset s = ground arith

  pub bind_asset-Extends :
      (mmio : Mmio) (privileged : Bool) (asset : Asset) (s : Spe bus)
      → region_num api s.mpu < 2 ^ 32
      → Extends s (bind_asset p mmio privileged asset s).1
  bind_asset-Extends mmio privileged asset s h =
      let d = mmio.deref asset.dev_ref in
      let s' = set_access p mmio privileged d s in
      let access = set_access-Extends mmio privileged d s in
      elim (bind_asset_cases mmio privileged asset s) [
        | inl e ↦ rw e (Extends-refl s)
        | inr (inl e) ↦ rw e access
        | inr (inr e) ↦
            rw e (
              Extends-trans access
                (map_device-Extends mmio d s' (rw (region_num-Extends access) h)))
      ]

  pub bind_assets_cases :
      (mmio : Mmio) (privileged : Bool) (asset : Asset) (assets : List Asset) (s : Spe bus)
      → let s' = (bind_asset p mmio privileged asset s).1 in
        let t = (bind_assets p mmio privileged (asset ∷ assets) s).1 in
        (t ≡ s') ⊎ (t ≡ (bind_assets p mmio privileged assets s').1)
  unfolding bind_assets
  bind_assets_cases mmio privileged asset assets s = ground arith

  bind_assets-Extends :
      (mmio : Mmio) (privileged : Bool) (assets : List Asset) (s : Spe bus)
      → region_num api s.mpu < 2 ^ 32
      → Extends s (bind_assets p mmio privileged assets s).1
  bind_assets-Extends mmio privileged [] s h = unfold bind_assets in Extends-refl s
  bind_assets-Extends mmio privileged (asset ∷ assets) s h =
      let first = bind_asset-Extends mmio privileged asset s h in
      let s' = (bind_asset p mmio privileged asset s).1 in
      let rest = bind_assets-Extends mmio privileged assets s' (rw (region_num-Extends first) h) in
      elim (bind_assets_cases mmio privileged asset assets s) [
        | inl e ↦ rw e first
        | inr e ↦ rw e (Extends-trans first rest)
      ]

  -- Whatever `tfm_hal_bind_boundary` returns, it only adds MPU regions: those configured before
  -- keep their registers, the count does not shrink and stays within the number of regions of the
  -- hardware (below 2 ^ 32), and an MPU that was on is on.
  pub tfm_hal_bind_boundary-Extends :
      (mmio : Mmio) (ld : Option LoadInfo) (boundary : Option ℕ) (s : Spe bus)
      → region_num api s.mpu < 2 ^ 32
      → Extends s (tfm_hal_bind_boundary p mmio ld boundary s).2
  unfolding tfm_hal_bind_boundary
  tfm_hal_bind_boundary-Extends mmio none boundary s h = Extends-refl s
  tfm_hal_bind_boundary-Extends mmio (some ld) none s h = Extends-refl s
  tfm_hal_bind_boundary-Extends mmio (some ld) (some boundary) s h =
      let privileged = is_privileged build.isolation_level ld in
      let last : (tfm_hal_bind_boundary p mmio (some ld) (some boundary) s).2
          ≡ (bind_assets p mmio privileged ld.assets s).1 =
        ground arith in
      rw last (bind_assets-Extends mmio privileged ld.assets s h)
