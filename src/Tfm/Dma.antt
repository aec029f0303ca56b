-- ===== src/Tfm/Dma.antt =====
-- `dma_security_config` of reference/target_cfg.c.
pub mod Mirror
use rp2350_tz_tee.Prelude.{ℕ, zero, suc, ◌+◌, ◌-◌, ◌*◌, ◌^◌, ◌≡◌, bit_and, bit_or}
use rp2350_tz_tee.Prelude.Words.{u32}
use rp2350_tz_tee.Prelude.Maps.{update, ◌▷◌}
use rp2350_tz_tee.Hw.DmaMpu.{DmaMpu, set_mpu_ctrl, set_bar, set_lar}
use rp2350_tz_tee.Tfm.Build.{PlatErr, success}
use rp2350_tz_tee.Tfm.Regions.{Regions}
use rp2350_tz_tee.Tfm.Sau.{below_ppb}

-- The addresses and bits of the SDK's DMA headers.
pub record DmaApi : Type 0 where
  pub dma_base : ℕ
  pub seccfg_ch0_offset : ℕ
  pub seccfg_ch0_p : ℕ
  pub ctrl_ns_hide_addr : ℕ
  pub ctrl_s : ℕ
  pub ctrl_p : ℕ
  pub bar0 : ℕ
  pub lar0_addr : ℕ
  pub lar0_p : ℕ
  pub lar0_en : ℕ

-- What the SDK documents of them.
pub record IsDmaApi (c : DmaApi) : Type 0 where
  pub base : c.bar0 ≡ 0xFFFF_FFE0
  pub limit : c.lar0_addr ≡ 0xFFFF_FFE0
  pub privileged : c.lar0_p ≡ 2
  pub enable : c.lar0_en ≡ 1
  pub hide : c.ctrl_ns_hide_addr ≡ 8
  pub secure : c.ctrl_s ≡ 4
  pub default_privileged : c.ctrl_p ≡ 2

-- The channel registers by their address, and the memory protection unit.
pub record Dma : Type 0 where
  pub regs : ℕ → ℕ
  pub mpu : DmaMpu

-- The address of the register of channel `i`.
abbrev pub seccfg : DmaApi → ℕ → ℕ
seccfg c i = u32 (c.dma_base + c.seccfg_ch0_offset + i * 4)

-- `for (int i=0; i<16; i++)`, from `i` with `left` rounds to go.
unfoldable pub channels_from : ℕ → ℕ → DmaApi → (ℕ → ℕ) → ℕ → ℕ
channels_from zero i c regs = regs
channels_from (suc left) i c regs =
    channels_from left (i + 1) c (update regs (seccfg c i) c.seccfg_ch0_p)

-- The limit of region 1 is made from `veneer_limit`, as in the source.
unfoldable pub mpu_regions : DmaApi → Regions → DmaMpu → DmaMpu
mpu_regions c r d =
    d
    ▷ set_mpu_ctrl (bit_or (bit_or c.ctrl_ns_hide_addr c.ctrl_s) c.ctrl_p)
    ▷ set_bar 0 (bit_and r.veneer_base c.bar0)
    ▷ set_lar 0 (bit_or (bit_or (bit_and r.veneer_limit c.lar0_addr) c.lar0_p) c.lar0_en)
    ▷ set_bar 1 (bit_and r.non_secure_partition_base c.bar0)
    ▷ set_lar 1 (bit_or (bit_or (bit_and r.veneer_limit c.lar0_addr) c.lar0_p) c.lar0_en)
    ▷ set_bar 2 (bit_and r.sram4_base c.bar0)
    ▷ set_lar 2 (bit_or (bit_or (bit_and (below_ppb r) c.lar0_addr) c.lar0_p) c.lar0_en)
    ▷ set_bar 3 0
    ▷ set_lar 3 0
    ▷ set_bar 4 0
    ▷ set_lar 4 0
    ▷ set_bar 5 0
    ▷ set_lar 5 0
    ▷ set_bar 6 0
    ▷ set_lar 6 0
    ▷ set_bar 7 0
    ▷ set_lar 7 0

unfoldable pub dma_security_config : DmaApi → Regions → Dma → PlatErr × Dma
dma_security_config c r d =
    (success, record { regs = channels_from 16 0 c d.regs; mpu = mpu_regions c r d.mpu })
