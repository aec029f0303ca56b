-- ===== src/Tfm/Sau/Attribution.antt =====
-- What `sau_and_idau_cfg` makes of every address.
use rp2350_tz_tee.Prelude.{ℕ, ◌-◌, ◌%◌, bit_and, bit_or, ◌≡◌}
use rp2350_tz_tee.Prelude.{true, false, refl, ◌&&◌, ◌||◌, arith, leb, if◌then◌else◌}
use rp2350_tz_tee.Prelude.Words.{align_down, or_low, or_two}
use rp2350_tz_tee.Hw.Sau.{
  Sau, Attribution, secure, nonsecure, callable, attribution, hits, merge, of_hit, region_hit,
  attribution_on, miss, once, region_hit_off, region_hit_nonsecure, region_hit_callable,
}
use rp2350_tz_tee.Tfm.Regions.{Regions, IsRegions}
use rp2350_tz_tee.Tfm.Sau.{SauApi, IsSauApi, below_ppb, sau_regions, sau_and_idau_cfg}

-- The SAU regions that the function leaves alone are off.
abbrev pub UnusedOff : Sau → Type 0
UnusedOff s = (s.rlar 0 % 2 ≡ 0) × (s.rlar 1 % 2 ≡ 0) × (s.rlar 5 % 2 ≡ 0) × (s.rlar 6 % 2 ≡ 0)

-- The intended map: the veneers, the Non-Secure partition, and all from SRAM4 up to the PPB.
unfoldable pub intended : Regions → ℕ → Attribution
intended r a =
    if leb r.veneer_base a && leb a r.veneer_limit
    then callable
    else if (leb r.non_secure_partition_base a && leb a r.non_secure_partition_limit)
        || (leb r.sram4_base a && leb a (r.ppb_base - 1))
    then nonsecure
    else secure

-- The values that reach the registers.
pub record Written (c : SauApi) (r : Regions) : Type 0 where
  pub base_2 : bit_and r.veneer_base c.rbar_baddr ≡ r.veneer_base
  pub limit_2 :
      bit_or (bit_or (bit_and r.veneer_limit c.rlar_laddr) c.rlar_enable) c.rlar_nsc
      ≡ r.veneer_limit - 28
  pub base_3 : bit_and r.non_secure_partition_base c.rbar_baddr ≡ r.non_secure_partition_base
  pub limit_3 :
      bit_or (bit_and r.non_secure_partition_limit c.rlar_laddr) c.rlar_enable
      ≡ r.non_secure_partition_limit - 30
  pub base_4 : bit_and r.sram4_base c.rbar_baddr ≡ r.sram4_base
  pub limit_4 : bit_or (bit_and (below_ppb r) c.rlar_laddr) c.rlar_enable ≡ r.ppb_base - 1 - 30

pub written : (c : SauApi) (r : Regions) → IsSauApi c → IsRegions r → Written c r
written c r api ok =
    rw (api.base, api.limit, api.enable, api.nsc)
      record {
        base_2 = omega (arith, align_down r.veneer_base (omega arith));
        limit_2 =
            rw
              (
                align_down r.veneer_limit (omega arith),
                or_low 5 (r.veneer_limit - r.veneer_limit % 32) 1 (omega arith) (omega arith),
              )
              (omega (arith, or_two (r.veneer_limit - r.veneer_limit % 32) (omega arith)));
        base_3 = omega (arith, align_down r.non_secure_partition_base (omega arith));
        limit_3 = rw (align_down r.non_secure_partition_limit (omega arith)) (
            omega (
              arith,
              or_low 5 (r.non_secure_partition_limit - r.non_secure_partition_limit % 32) 1
                  (omega arith) (omega arith),
            ));
        base_4 = omega (arith, align_down r.sram4_base (omega arith));
        limit_4 = rw (align_down (below_ppb r) (omega arith)) (
            omega (arith, or_low 5 (below_ppb r - below_ppb r % 32) 1 (omega arith) (omega arith)));
      }

-- The regions after the register writes, one by one.
record Spans (c : SauApi) (r : Regions) (s : Sau) (a : ℕ) : Type 0 where
  zeroth : region_hit ((sau_regions c r s).rbar 0) ((sau_regions c r s).rlar 0) a ≡ miss
  first : region_hit ((sau_regions c r s).rbar 1) ((sau_regions c r s).rlar 1) a ≡ miss
  veneers :
      region_hit ((sau_regions c r s).rbar 2) ((sau_regions c r s).rlar 2) a
      ≡ (if leb r.veneer_base a && leb a r.veneer_limit then once true else miss)
  partition : region_hit ((sau_regions c r s).rbar 3) ((sau_regions c r s).rlar 3) a ≡ (
      if leb r.non_secure_partition_base a && leb a r.non_secure_partition_limit
      then once false
      else miss)
  rest :
      region_hit ((sau_regions c r s).rbar 4) ((sau_regions c r s).rlar 4) a
      ≡ (if leb r.sram4_base a && leb a (r.ppb_base - 1) then once false else miss)
  fifth : region_hit ((sau_regions c r s).rbar 5) ((sau_regions c r s).rlar 5) a ≡ miss
  sixth : region_hit ((sau_regions c r s).rbar 6) ((sau_regions c r s).rlar 6) a ≡ miss
  seventh : region_hit ((sau_regions c r s).rbar 7) ((sau_regions c r s).rlar 7) a ≡ miss

spans :
    (c : SauApi) (r : Regions) (s : Sau) (a : ℕ)
    → IsSauApi c
    → IsRegions r
    → UnusedOff s
    → Spans c r s a
unfolding sau_regions
spans c r s a api ok off =
    let w = written c r api ok in
    record {
      zeroth = region_hit_off (s.rbar 0) (s.rlar 0) a (off.0);
      first = region_hit_off (s.rbar 1) (s.rlar 1) a (off.1);
      veneers =
          rw (w.base_2, w.limit_2)
            (region_hit_callable r.veneer_base r.veneer_limit a (omega arith) (omega arith));
      partition =
          rw (w.base_3, w.limit_3)
            (region_hit_nonsecure r.non_secure_partition_base r.non_secure_partition_limit a
              (omega arith) (omega arith));
      rest =
          rw (w.base_4, w.limit_4)
            (region_hit_nonsecure r.sram4_base (r.ppb_base - 1) a (omega arith) (omega arith));
      fifth = region_hit_off (s.rbar 5) (s.rlar 5) a (off.2);
      sixth = region_hit_off (s.rbar 6) (s.rlar 6) a (off.3);
      seventh = region_hit_off 0 0 a refl;
    }

-- After `sau_and_idau_cfg`, on a 32-byte aligned and ordered memory map and with the SAU regions
-- it leaves alone off, every address has the intended attribution: the veneers are Non-Secure-
-- Callable, the Non-Secure partition and everything from SRAM4 to the PPB are Non-Secure, and all
-- else is Secure.
pub attribution-sau_and_idau_cfg :
    (c : SauApi) (r : Regions) (s : Sau) (a : ℕ)
    → IsSauApi c
    → IsRegions r
    → UnusedOff s
    → attribution (sau_and_idau_cfg c r s) a ≡ intended r a
unfolding sau_and_idau_cfg of_hit hits merge intended
attribution-sau_and_idau_cfg c r s a api ok off =
    let s' = sau_regions c r s in
    rw (attribution_on (c.tz_sau_enable s') a (api.turns_on s'))
      (rw (api.keeps_rbar s', api.keeps_rlar s') (ground (arith, spans c r s a api ok off)))
