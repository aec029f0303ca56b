-- ===== src/Tfm/Sau.antt =====
-- `sau_and_idau_cfg` of reference/target_cfg.c. The bootrom regions are compiled out (`#if 0`).
pub mod Attribution
use rp2350_tz_tee.Prelude.{ℕ, ◌+◌, ◌-◌, ◌^◌, ◌%◌, ◌≡◌, bit_and, bit_or}
use rp2350_tz_tee.Prelude.Words.{u32}
use rp2350_tz_tee.Prelude.Maps.{◌▷◌}
use rp2350_tz_tee.Hw.Sau.{Sau, set_rnr, set_rbar, set_rlar}
use rp2350_tz_tee.Tfm.Regions.{Regions}

-- The masks of CMSIS, and `TZ_SAU_Enable`.
pub record SauApi : Type 0 where
  pub rbar_baddr : ℕ
  pub rlar_laddr : ℕ
  pub rlar_enable : ℕ
  pub rlar_nsc : ℕ
  pub tz_sau_enable : Sau → Sau

-- What CMSIS documents of them.
pub record IsSauApi (c : SauApi) : Type 0 where
  pub base : c.rbar_baddr ≡ 0xFFFF_FFE0
  pub limit : c.rlar_laddr ≡ 0xFFFF_FFE0
  pub enable : c.rlar_enable ≡ 1
  pub nsc : c.rlar_nsc ≡ 2
  pub turns_on : (s : Sau) → (c.tz_sau_enable s).ctrl % 2 ≡ 1
  pub keeps_rbar : (s : Sau) → (c.tz_sau_enable s).rbar ≡ s.rbar
  pub keeps_rlar : (s : Sau) → (c.tz_sau_enable s).rlar ≡ s.rlar

-- `PPB_BASE - 1`
abbrev pub below_ppb : Regions → ℕ
below_ppb r = u32 (r.ppb_base + 2 ^ 32 - 1)

-- The register writes before the unit is turned on.
unfoldable pub sau_regions : SauApi → Regions → Sau → Sau
sau_regions c r s =
    s
    ▷ set_rnr 2
    ▷ set_rbar (bit_and r.veneer_base c.rbar_baddr)
    ▷ set_rlar (bit_or (bit_or (bit_and r.veneer_limit c.rlar_laddr) c.rlar_enable) c.rlar_nsc)
    ▷ set_rnr 3
    ▷ set_rbar (bit_and r.non_secure_partition_base c.rbar_baddr)
    ▷ set_rlar (bit_or (bit_and r.non_secure_partition_limit c.rlar_laddr) c.rlar_enable)
    ▷ set_rnr 4
    ▷ set_rbar (bit_and r.sram4_base c.rbar_baddr)
    ▷ set_rlar (bit_or (bit_and (below_ppb r) c.rlar_laddr) c.rlar_enable)
    ▷ set_rnr 7
    ▷ set_rbar 0
    ▷ set_rlar 0

unfoldable pub sau_and_idau_cfg : SauApi → Regions → Sau → Sau
sau_and_idau_cfg c r s = c.tz_sau_enable (sau_regions c r s)
