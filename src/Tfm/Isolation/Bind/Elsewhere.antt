-- ===== src/Tfm/Isolation/Bind/Elsewhere.antt =====
-- Binding changes no right outside the devices of the platform.
use rp2350_tz_tee.Prelude.{
  ◌≢◌, ℕ, ◌/◌, ◌^◌, ◌≤◌, ◌<◌, ◌≡◌, ◌⊎◌, inl, inr, Bool, true, false, ◌&&◌, ◌==◌, not, bit_and,
  Bool-cases, if_both, ==_iff, if◌then◌else◌, List, [], ◌∷◌, Option, none, some, arith, refl, ap,
  ◌∙◌,
}
use rp2350_tz_tee.Hw.Pmp.{Access}
use rp2350_tz_tee.Tfm.Mpu.{Mpu, IsMpuApi, region_num, enable_bit}
use rp2350_tz_tee.Tfm.Isolation.{Spe, Platform, Region, Status, limit_value}
use rp2350_tz_tee.Tfm.Isolation.Access.{
  covers, hits, regions_from, hits_same, allowed, regions_decide, IsMpuMacros, unprivileged_allows,
}
use rp2350_tz_tee.Tfm.Isolation.Bind.{
  Mmio, is_privileged, is_level_2, PlatformData, Asset, LoadInfo, contains, add_device, map_device,
  set_access, bind_asset, bind_assets, tfm_hal_bind_boundary,
}
use rp2350_tz_tee.Tfm.Isolation.Bind.Regions.{
  map_device_cases, bind_assets_cases, bind_asset-Extends, region_num-Extends,
  tfm_hal_bind_boundary-Extends,
}

-- The address lies in no block of 32 bytes of the device.
abbrev pub IsOutside : PlatformData → ℕ → Type 0
IsOutside d a = (a / 32 < d.periph_start / 32) ⊎ (d.periph_limit / 32 < a / 32)

-- The regions of the hardware, `n` of them, that are not counted are off.
pub record IsSpare (p : Platform) (n : ℕ) (s : Spe p.bus) : Type 0 where
  pub off : (j : ℕ) → s.n_configured_regions ≤ j → j < n → s.mpu.rlar j ≡ 0

module _ (p : Platform) (mmio : Mmio) (laws : IsMpuApi p.api) (macros : IsMpuMacros p.api)
    (n a : ℕ) where
  open p use {api, bus, build}

  -- The same regions cover the address in both states, and the rest is off.
  record Alike (s t : Spe bus) : Type 0 where
    pub spare : IsSpare p n t
    pub same : hits (regions_from t.mpu n 0) a ≡ hits (regions_from s.mpu n 0) a

  Alike-refl : (s : Spe bus) → IsSpare p n s → Alike s s
  Alike-refl s h = record { spare = h; same = refl }

  Alike-trans : {s t u : Spe bus} → Alike s t → Alike t u → Alike s u
  Alike-trans x y = record { spare = y.spare; same = y.same ∙ x.same }

  set_access_mpu :
      (privileged : Bool) (d : PlatformData) (s : Spe bus)
      → (set_access p mmio privileged d s).mpu ≡ s.mpu
  unfolding set_access
  set_access_mpu privileged d s = ground arith

  set_access-Alike :
      (privileged : Bool) (d : PlatformData) (s : Spe bus)
      → IsSpare p n s
      → Alike s (set_access p mmio privileged d s)
  unfolding set_access
  set_access-Alike privileged d s h =
      if_both (Alike s) (d.periph_ppc_bank == mmio.do_not_configure) (Alike-refl s h)
        (record { spare = record { off = h.off }; same = refl })

  -- The regions after a device is added under number `k`.
  add_device_region :
      (d : PlatformData) (k j : ℕ) (m : Mpu)
      → ((add_device p mmio d k m).rbar j
          ≡ (if k == j then api.mpu_rbar d.periph_start api.sh_non 0 1 1 else m.rbar j))
        × ((add_device p mmio d k m).rlar j
            ≡ (if k == j then limit_value api build d.periph_limit 1 2 else m.rlar j))
  unfolding add_device
  add_device_region d k j m =
      rw (laws.rbar_enable, laws.rlar_enable, laws.rbar_set, laws.rlar_set)
        (ground (
          arith,
          ap (λ (f : ℕ → ℕ). f j) (laws.rbar_disable m),
          ap (λ (f : ℕ → ℕ). f j) (laws.rlar_disable m),
        ))

  -- The region of a device does not cover an address outside it.
  device_covers :
      (d : PlatformData)
      → IsOutside d a
      → covers
          (record {
            rbar = api.mpu_rbar d.periph_start api.sh_non 0 1 1;
            rlar = limit_value api build d.periph_limit 1 2;
          })
          a
        ≡ false
  device_covers d out = ground (
    arith,
    out,
    macros.rbar_base d.periph_start 0 1 1 (omega arith) (omega arith) (omega arith),
    macros.rlar_limit d.periph_limit 2 (omega arith),
    macros.pxn_limit d.periph_limit 1 2 (omega arith) (omega arith),
  )

  add_device-hits :
      (d : PlatformData) (k : ℕ) (m : Mpu)
      → IsOutside d a
      → m.rlar k ≡ 0
      → hits (regions_from (add_device p mmio d k m) n 0) a ≡ hits (regions_from m n 0) a
  add_device-hits d k m out off = hits_same (add_device p mmio d k m) m n 0 a (λ i lo hi.
      let (base, limit) = add_device_region d k i m in
      elim (Bool-cases (k == i)) [
        | inl t ↦ inr (
          rw (base, limit, t) (device_covers d out),
          ground (arith, t, off, ap m.rlar ((==_iff k i).0 t)),
        )
        | inr f ↦ inl (rw (base, limit, f) refl)
      ])

  map_device-Alike :
      (d : PlatformData) (s : Spe bus)
      → IsOutside d a
      → region_num api s.mpu ≡ n
      → n < 2 ^ 32
      → IsSpare p n s
      → Alike s (map_device p mmio d s).1
  map_device-Alike d s out count small h = elim (map_device_cases p laws mmio d s) [
    | inl e ↦ rw e (Alike-refl s h)
    | inr (lt, e) ↦ rw e (record {
      spare = record {
        off = λ j lo hi.
            ground (arith, (add_device_region d s.n_configured_regions j s.mpu).1, h.off j);
      };
      same =
          add_device-hits d s.n_configured_regions s.mpu out
            (h.off s.n_configured_regions (omega arith) (omega arith));
    })
  ]

  -- One round, for a list whose devices do not hold the address.
  bind_asset-Alike :
      (privileged : Bool) (asset : Asset) (s : Spe bus)
      → ((x : ℕ) → contains mmio.list x ≡ true → IsOutside (mmio.deref x) a)
      → region_num api s.mpu ≡ n
      → n < 2 ^ 32
      → IsSpare p n s
      → Alike s (bind_asset p mmio privileged asset s).1
  unfolding bind_asset
  bind_asset-Alike privileged asset s away count small h =
      let d = mmio.deref asset.dev_ref in
      let s' = set_access p mmio privileged d s in
      let access = set_access-Alike privileged d s h in
      let mapped = λ (out : IsOutside d a).
        Alike-trans access (
          map_device-Alike d s' out (rw (set_access_mpu privileged d s) count) small
            access.spare) in
      if_both (λ (r : Status × Spe bus). Alike s r.1) (bit_and asset.attr mmio.named_mmio == 0)
        (Alike-refl s h)
        (elim (Bool-cases (contains mmio.list asset.dev_ref)) [
          | inl listed ↦ rw listed (
              if_both (λ (r : Status × Spe bus). Alike s r.1)
                (is_level_2 build.isolation_level && not privileged)
                (mapped (away asset.dev_ref listed)) access)
          | inr off ↦ rw off (Alike-refl s h)
        ])

  bind_assets-Alike :
      (privileged : Bool) (assets : List Asset) (s : Spe bus)
      → ((x : ℕ) → contains mmio.list x ≡ true → IsOutside (mmio.deref x) a)
      → region_num api s.mpu ≡ n
      → n < 2 ^ 32
      → IsSpare p n s
      → Alike s (bind_assets p mmio privileged assets s).1
  bind_assets-Alike privileged [] s away count small h = unfold bind_assets in Alike-refl s h
  bind_assets-Alike privileged (asset ∷ assets) s away count small h =
      let s' = (bind_asset p mmio privileged asset s).1 in
      let first = bind_asset-Alike privileged asset s away count small h in
      let grown = bind_asset-Extends p laws mmio privileged asset s (rw count small) in
      let rest =
        bind_assets-Alike privileged assets s' away (region_num-Extends p laws grown ∙ count) small
          first.spare in
      elim (bind_assets_cases p laws mmio privileged asset assets s) [
        | inl e ↦ rw e first
        | inr e ↦ rw e (Alike-trans first rest)
      ]

module _ (p : Platform) (mmio : Mmio) (laws : IsMpuApi p.api) (macros : IsMpuMacros p.api)
    (ld : Option LoadInfo) (boundary : Option ℕ) (s : Spe p.bus) (a : ℕ) where
  open p use {api}

  abbrev result : Spe p.bus
  result = (tfm_hal_bind_boundary p mmio ld boundary s).2

  bind_boundary-Alike :
      region_num api s.mpu < 2 ^ 32
      → IsSpare p (region_num api s.mpu) s
      → ((x : ℕ) → contains mmio.list x ≡ true → IsOutside (mmio.deref x) a)
      → Alike p mmio laws macros (region_num api s.mpu) a s result
  unfolding tfm_hal_bind_boundary
  bind_boundary-Alike small spare away =
      elim ld
        as (λ l.
          Alike p mmio laws macros (region_num api s.mpu) a s
            (tfm_hal_bind_boundary p mmio l boundary s).2) [
              | none ↦ Alike-refl p mmio laws macros (region_num api s.mpu) a s spare
              | some l ↦
                  elim boundary
                    as (λ b.
                      Alike p mmio laws macros (region_num api s.mpu) a s
                        (tfm_hal_bind_boundary p mmio (some l) b s).2) [
                          | none ↦ Alike-refl p mmio laws macros (region_num api s.mpu) a s spare
                          | some b ↦
                              let privileged = is_privileged p.build.isolation_level l in
                              let last : (tfm_hal_bind_boundary p mmio (some l) (some b) s).2
                                  ≡ (bind_assets p mmio privileged l.assets s).1 =
                                ground arith in
                              rw last (
                                bind_assets-Alike p mmio laws macros (region_num api s.mpu) a
                                  privileged l.assets s away refl small spare)
                        ]
            ]

  -- If the MPU is on and has fewer than 2^32 regions, those that are not counted are off, and the address
  -- is in no block of 32 bytes of a listed device, `tfm_hal_bind_boundary`, with any arguments and
  -- whatever it returns, leaves the uncounted regions off and changes no access to the address
  -- that the MPU lets unprivileged code do.
  pub bind_boundary_elsewhere :
      (k : Access)
      → region_num api s.mpu < 2 ^ 32
      → enable_bit api s.mpu ≢ 0
      → IsSpare p (region_num api s.mpu) s
      → ((x : ℕ) → contains mmio.list x ≡ true → IsOutside (mmio.deref x) a)
      → IsSpare p (region_num api s.mpu) result
        × (unprivileged_allows result.mpu (region_num api s.mpu) k a
            ≡ unprivileged_allows s.mpu (region_num api s.mpu) k a)
  bind_boundary_elsewhere k small on spare away =
      let at = bind_boundary-Alike small spare away in
      let running = (tfm_hal_bind_boundary-Extends p laws mmio ld boundary s small).on on in
      let n = region_num api s.mpu in
      (
        at.spare,
        rw
            (
              regions_decide api result.mpu n a k macros running,
              regions_decide api s.mpu n a k macros on,
            )
            (ap (λ (rs : List Region). allowed rs k) at.same),
      )
