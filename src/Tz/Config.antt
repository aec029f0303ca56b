-- ===== src/Tz/Config.antt =====
-- examples/minimal-tz/secure/tz_config.c: the SAU and the DMA-MPU. `PPB_BASE` is the SDK's
-- and `SCB_AIRCR_BFHFNMINS_Msk` is CMSIS's, so both are parameters. The barriers order accesses
-- and leave no value behind.
pub mod Attribution
use rp2350_tz_tee.Prelude.{ℕ, zero, suc, ◌+◌, ◌-◌, ◌*◌, ◌^◌, bit_and, bit_or}
use rp2350_tz_tee.Prelude.Maps.{◌▷◌}
use rp2350_tz_tee.Prelude.Words.{u32}
use rp2350_tz_tee.Hw.Sau.{Sau, set_rnr, set_rbar, set_rlar, set_ctrl}
use rp2350_tz_tee.Hw.DmaMpu.{DmaMpu, set_mpu_ctrl, set_bar, set_lar}
use rp2350_tz_tee.Tz.Layout.{
  veneer_start, veneer_limit, ns_flash_start, ns_flash_limit, ns_ram_start, ns_ram_limit,
}

-- What `tz_isolation_config` writes.
pub record Chip : Type 0 where
  pub sau : Sau
  pub aircr : ℕ
  pub dma : DmaMpu

abbrev pub rlar_enable : ℕ
rlar_enable = 1

abbrev pub rlar_nsc : ℕ
rlar_nsc = 2

-- `~0x1Fu`, the same mask for the bases and the limits of both units.
abbrev pub addr_msk : ℕ
addr_msk = 2 ^ 32 - 1 - 0x1F

abbrev pub lar_p : ℕ
lar_p = 2

abbrev pub lar_en : ℕ
lar_en = 1

-- `PPB_BASE - 1u`
abbrev pub below_ppb : ℕ → ℕ
below_ppb ppb_base = u32 (ppb_base + 2 ^ 32 - 1)

-- The SAU part of `tz_sau_config`.
unfoldable pub sau_regions : ℕ → Sau → Sau
sau_regions ppb_base s =
    s
    ▷ set_rnr 0
    ▷ set_rbar (bit_and veneer_start addr_msk)
    ▷ set_rlar (bit_or (bit_or (bit_and veneer_limit addr_msk) rlar_enable) rlar_nsc)
    ▷ set_rnr 1
    ▷ set_rbar (bit_and ns_flash_start addr_msk)
    ▷ set_rlar (bit_or (bit_and ns_flash_limit addr_msk) rlar_enable)
    ▷ set_rnr 2
    ▷ set_rbar (bit_and ns_ram_start addr_msk)
    ▷ set_rlar (bit_or (bit_and ns_ram_limit addr_msk) rlar_enable)
    ▷ set_rnr 3
    ▷ set_rbar (bit_and 0x4000_0000 addr_msk)
    ▷ set_rlar (bit_or (bit_and (below_ppb ppb_base) addr_msk) rlar_enable)
    ▷ set_ctrl 1

unfoldable pub aircr_value : ℕ → ℕ → ℕ
aircr_value bfhfnmins aircr =
    bit_or (bit_or (0x05FA * 2 ^ 16) (bit_and aircr 0x0000_FFFF)) bfhfnmins

unfoldable pub tz_sau_config : ℕ → ℕ → Chip → Chip
unfolding sau_regions aircr_value
tz_sau_config ppb_base bfhfnmins c = record c {
  sau = sau_regions ppb_base c.sau;
  aircr = aircr_value bfhfnmins c.aircr;
}

-- `for (int i = 3; i < 8; i++)`, by the rounds left.
unfoldable pub disable_regions : ℕ → ℕ → DmaMpu → DmaMpu
disable_regions zero i d = d
disable_regions (suc left) i d = disable_regions left (i + 1) (d ▷ set_bar i 0 ▷ set_lar i 0)

-- The register writes of `tz_dma_mpu_config`.
unfoldable pub dma_regions : ℕ → DmaMpu → DmaMpu
unfolding disable_regions
dma_regions ppb_base d =
    d
    ▷ set_mpu_ctrl (bit_or (bit_or 1 2) 4)
    ▷ set_bar 0 (bit_and veneer_start addr_msk)
    ▷ set_lar 0 (bit_or (bit_or (bit_and veneer_limit addr_msk) lar_p) lar_en)
    ▷ set_bar 1 (bit_and ns_flash_start addr_msk)
    ▷ set_lar 1 (bit_or (bit_or (bit_and ns_flash_limit addr_msk) lar_p) lar_en)
    ▷ set_bar 2 (bit_and ns_ram_start addr_msk)
    ▷ set_lar 2 (bit_or (bit_or (bit_and (below_ppb ppb_base) addr_msk) lar_p) lar_en)
    ▷ disable_regions 5 3

unfoldable pub tz_dma_mpu_config : ℕ → Chip → Chip
unfolding dma_regions
tz_dma_mpu_config ppb_base c = record c { dma = dma_regions ppb_base c.dma }

unfoldable pub tz_isolation_config : ℕ → ℕ → Chip → Chip
unfolding tz_sau_config tz_dma_mpu_config
tz_isolation_config ppb_base bfhfnmins c =
    tz_dma_mpu_config ppb_base (tz_sau_config ppb_base bfhfnmins c)
