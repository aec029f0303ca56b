-- ===== src/Tfm/Isolation/Allow.antt =====
-- What unprivileged code may do after `tfm_hal_set_up_static_boundaries`.
use rp2350_tz_tee.Prelude.{ℕ, ◌≤◌, ◌≡◌, true}
use rp2350_tz_tee.Prelude.Lists.{length}
use rp2350_tz_tee.Hw.Pmp.{Access}
use rp2350_tz_tee.Tfm.Mpu.{Mpu, IsMpuApi, region_num}
use rp2350_tz_tee.Tfm.Isolation.{
  hal_success, Spe, Platform, Region, mpu_region_attributes, tfm_hal_set_up_static_boundaries,
}
use rp2350_tz_tee.Tfm.Isolation.Static.{static_boundaries_succeed, static_boundaries_configure}
use rp2350_tz_tee.Tfm.Isolation.Access.{
  IsMpuMacros, hits_configured, regions_decide, unprivileged_allows,
}
use rp2350_tz_tee.Tfm.Isolation.Rights.{table, table_allows, IsTable, table_encoded, allowed-table}

module _ (p : Platform) (boundary : ℕ) (s : Spe p.bus) where
  open p use {api, build, symbols}

  abbrev after : Mpu
  after = (tfm_hal_set_up_static_boundaries p boundary s).2.mpu

  abbrev rows : ℕ
  rows = length (mpu_region_attributes api build symbols)

  -- With a table of whole blocks that do not overlap, the table decides every unprivileged access.
  pub static_boundaries_allow :
      (k : Access) (a : ℕ)
      → IsMpuApi api
      → IsMpuMacros api
      → IsTable (table build symbols)
      → build.memory_protect ≡ true
      → (tfm_hal_set_up_static_boundaries p boundary s).0 ≡ hal_success
      → unprivileged_allows after (region_num api s.mpu) k a
        ≡ table_allows (table build symbols) k a
  static_boundaries_allow k a laws macros ok on done =
      let d : Region = record { rbar = 0; rlar = 0 } in
      let rs = mpu_region_attributes api build symbols in
      let enough : rows ≤ region_num api s.mpu =
        ((static_boundaries_succeed p boundary s laws on).0 done).1 in
      let at = λ (j : ℕ). static_boundaries_configure p boundary s j d laws on done in
      let (v0, n0, running, row0, off0) = at 0 in
      rw
        (
          regions_decide api after (region_num api s.mpu) a k macros running,
          hits_configured rs after (region_num api s.mpu) a d enough
              (λ i h. (let (v, n, enabled, row, off) = at i in row h))
              (λ i h g. (let (v, n, enabled, row, off) = at i in off h g)),
          table_encoded api build symbols,
        )
        (allowed-table api build macros (table build symbols) k a ok)
