-- ===== src/Tfm/Isolation/Static.antt =====
-- What `tfm_hal_set_up_static_boundaries` leaves in the MPU, and its error paths.
use rp2350_tz_tee.Prelude.{ℕ, zero, suc, ◌+◌, ◌-◌, ◌≤◌, ◌<◌, ◌≡◌, ◌≢◌, ◌↔◌, true, ◌&&◌}
use rp2350_tz_tee.Prelude.{if◌then◌else◌, ltb, leb, List, [], ◌∷◌, arith, ap}
use rp2350_tz_tee.Prelude.Lists.{length, get_or, get_or-cons}
use rp2350_tz_tee.Tfm.Build.{success}
use rp2350_tz_tee.Tfm.Dma.{dma_security_config}
use rp2350_tz_tee.Tfm.Filter.{bus_filter_cfg}
use rp2350_tz_tee.Tfm.Mpu.{Mpu, MpuApi, IsMpuApi, region_num, enable_bit}
use rp2350_tz_tee.Tfm.Isolation.{
  Status, hal_success, hal_error_generic, Spe, Platform, Region, mpu_region_attributes, clear_from,
  set_from, set_attributes, disable_if_on, configure_mpu, prot_boundary_val, set_up_mpu, check_dma,
  check_filter, tfm_hal_set_up_static_boundaries,
}

module _ (c : MpuApi) (api : IsMpuApi c) where
  rlar-clear_from :
      (left i j : ℕ) (m : Mpu)
      → (clear_from c left i m).rlar j ≡ (if leb i j && ltb j (i + left) then 0 else m.rlar j)
  unfolding clear_from
  rlar-clear_from zero i j m = ground arith
  rlar-clear_from (suc left) i j m =
      ground (arith, rlar-clear_from left (i + 1) j (c.clr_region i m), api.rlar_clr i j m)

  set_from_at :
      (rs : List Region) (i j : ℕ) (m : Mpu) (d : Region)
      → let inside = leb i j && ltb j (i + length rs) in
        ((set_from c rs i m).rbar j ≡ (if inside then (get_or rs (j - i) d).rbar else m.rbar j))
        × ((set_from c rs i m).rlar j ≡ (if inside then (get_or rs (j - i) d).rlar else m.rlar j))
  unfolding set_from
  set_from_at [] i j m d = ground arith
  set_from_at (r ∷ rs) i j m d =
      let rest = set_from_at rs (i + 1) j (c.set_region i r.rbar r.rlar m) d in
      let shift : j - i - 1 ≡ j - (i + 1) = omega arith in
      let head = get_or-cons r rs (j - i) d in
      (
        ground (
          arith,
          rest.0,
          api.rbar_set i r.rbar r.rlar j m,
          ap (λ q. q.rbar) head,
          ap (λ k. get_or rs k d) shift,
        ),
        ground (
          arith,
          rest.1,
          api.rlar_set i r.rbar r.rlar j m,
          ap (λ q. q.rlar) head,
          ap (λ k. get_or rs k d) shift,
        ),
      )

  rlar-set_attributes : (m : Mpu) → (set_attributes c m).rlar ≡ m.rlar
  rlar-set_attributes m = simp api.rlar_attr

  -- What `configure_mpu` leaves in region `j`.
  pub record Configured (rs : List Region) (m : Mpu) (d : Region) (j : ℕ) : Type 0 where
    pub base_at : j < length rs → (configure_mpu c rs m).rbar j ≡ (get_or rs j d).rbar
    pub limit_at : j < length rs → (configure_mpu c rs m).rlar j ≡ (get_or rs j d).rlar
    pub off_above : length rs ≤ j → j < region_num c m → (configure_mpu c rs m).rlar j ≡ 0

  configure_mpu_lem : (rs : List Region) (m : Mpu) (d : Region) (j : ℕ) → Configured rs m d j
  unfolding configure_mpu
  configure_mpu_lem rs m d j =
      let cleared = clear_from c (region_num c m) 0 (disable_if_on c m) in
      let before = set_attributes c cleared in
      let filled = set_from_at rs 0 j before d in
      record {
        base_at = λ h. ground (
          arith,
          filled.0,
          ap (λ (f : ℕ → ℕ). f j) (api.rbar_enable c.ctrl_flags (set_from c rs 0 before)),
        );
        limit_at = λ h. ground (
          arith,
          filled.1,
          ap (λ (f : ℕ → ℕ). f j) (api.rlar_enable c.ctrl_flags (set_from c rs 0 before)),
        );
        off_above = λ h g. ground (
          arith,
          filled.1,
          ap (λ (f : ℕ → ℕ). f j) (api.rlar_enable c.ctrl_flags (set_from c rs 0 before)),
          ap (λ (f : ℕ → ℕ). f j) (rlar-set_attributes cleared),
          rlar-clear_from (region_num c m) 0 j (disable_if_on c m),
        );
      }

module _ (p : Platform) (boundary : ℕ) (s : Spe p.bus) where
  open p use {api, build, symbols}

  abbrev regions_of : List Region
  regions_of = mpu_region_attributes api build symbols

  abbrev result : Status × ℕ × Spe p.bus
  result = tfm_hal_set_up_static_boundaries p boundary s

  -- When `tfm_hal_set_up_static_boundaries` does not succeed, it returns the generic error and
  -- leaves the boundary value, the MPU and the count of its regions as they were.
  pub static_boundaries_fail :
      result.0 ≢ hal_success
      → (result.0 ≡ hal_error_generic)
        × (result.1 ≡ boundary)
        × (result.2.mpu ≡ s.mpu)
        × (result.2.n_configured_regions ≡ s.n_configured_regions)
  unfolding tfm_hal_set_up_static_boundaries check_filter check_dma set_up_mpu
  static_boundaries_fail h = ground arith

  -- With memory protection built in, `tfm_hal_set_up_static_boundaries` succeeds exactly if
  -- `bus_filter_cfg` does and the MPU has as many regions as the table has rows.
  pub static_boundaries_succeed :
      IsMpuApi api
      → build.memory_protect ≡ true
      → ((result.0 ≡ hal_success) ↔ (
          ((bus_filter_cfg p.bus build p.ac s.devices).0 ≡ success)
          × (length regions_of ≤ region_num api s.mpu)))
  unfolding tfm_hal_set_up_static_boundaries check_filter check_dma set_up_mpu dma_security_config
  static_boundaries_succeed laws on = ground arith

  -- If `tfm_hal_set_up_static_boundaries` succeeds with memory protection built in, then the
  -- boundary value is `PROT_BOUNDARY_VAL`, as many regions are counted as the table has, the MPU
  -- is on, every row of the table stands in the region of its number, and every further region of
  -- the hardware is off.
  pub static_boundaries_configure :
      (j : ℕ) (d : Region)
      → IsMpuApi api
      → build.memory_protect ≡ true
      → result.0 ≡ hal_success
      → (result.1 ≡ prot_boundary_val)
        × (result.2.n_configured_regions ≡ length regions_of)
        × (enable_bit api result.2.mpu ≢ 0)
        × (j < length regions_of
            → (result.2.mpu.rbar j ≡ (get_or regions_of j d).rbar)
              × (result.2.mpu.rlar j ≡ (get_or regions_of j d).rlar))
        × (length regions_of ≤ j → j < region_num api s.mpu → result.2.mpu.rlar j ≡ 0)
  unfolding tfm_hal_set_up_static_boundaries check_filter check_dma set_up_mpu dma_security_config
  static_boundaries_configure j d laws on ok =
      let mpu : result.2.mpu ≡ configure_mpu api regions_of s.mpu = ground arith in
      let at = configure_mpu_lem api laws regions_of s.mpu d j in
      (
        ground arith,
        ground arith,
        rw mpu (unfold configure_mpu in laws.enabled api.ctrl_flags _),
        (λ h. rw mpu (at.base_at h, at.limit_at h)),
        (λ h g. rw mpu (at.off_above h g)),
      )
