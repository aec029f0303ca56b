-- ===== src/Tfm/Dma/Mirror.antt =====
-- How far the DMA's protection unit mirrors the SAU.
use rp2350_tz_tee.Prelude.{
  ℕ, zero, suc, ◌+◌, ◌-◌, ◌*◌, ◌%◌, ◌^◌, ◌<◌, ◌≤◌, bit_and, bit_or, ◌≡◌, ◌≢◌, ◌↔◌,
}
use rp2350_tz_tee.Prelude.{true, ◌&&◌, ◌||◌, arith, leb, ltb, ◌==◌, if◌then◌else◌}
use rp2350_tz_tee.Prelude.Maps.{update}
use rp2350_tz_tee.Prelude.Words.{align_down, or_low}
use rp2350_tz_tee.Hw.Sau.{Sau, secure, attribution}
use rp2350_tz_tee.Hw.DmaMpu.{DmaMpu, dma_open, open_below, held_below, open_off, open_span}
use rp2350_tz_tee.Tfm.Regions.{Regions, IsRegions}
use rp2350_tz_tee.Tfm.Sau.{SauApi, IsSauApi, below_ppb, sau_and_idau_cfg}
use rp2350_tz_tee.Tfm.Sau.Attribution.{UnusedOff, intended, attribution-sau_and_idau_cfg}
use rp2350_tz_tee.Tfm.Dma.{
  DmaApi, IsDmaApi, Dma, seccfg, channels_from, mpu_regions, dma_security_config,
}

-- A limit register with both flags.
limit_word :
    (c : DmaApi) (limit : ℕ)
    → IsDmaApi c
    → limit % 32 ≡ 31
    → limit < 2 ^ 32
    → bit_or (bit_or (bit_and limit c.lar0_addr) c.lar0_p) c.lar0_en ≡ limit - 28
limit_word c limit api h g =
    rw (api.limit, api.privileged, api.enable)
      (rw
        (
          align_down limit g,
          or_low 5 (limit - limit % 32) 2 (omega arith) (omega arith),
          or_low 1 (limit - limit % 32 + 2) 1 (omega arith) (omega arith),
        )
        (omega arith))

base_word :
    (c : DmaApi) (base : ℕ)
    → IsDmaApi c
    → base % 32 ≡ 0
    → base < 2 ^ 32
    → bit_and base c.bar0 ≡ base
base_word c base api h g = rw (api.base) (omega (arith, align_down base g))

pub dma_open-mpu_regions :
    (c : DmaApi) (r : Regions) (d : DmaMpu) (a : ℕ)
    → IsDmaApi c
    → IsRegions r
    → dma_open (mpu_regions c r d) a ≡ (
        (leb r.veneer_base a && leb a r.veneer_limit)
        || (leb r.sram4_base a && leb a (r.ppb_base - 1)))
unfolding dma_open open_below held_below mpu_regions
dma_open-mpu_regions c r d a api ok =
    rw
      (
        api.hide,
        api.secure,
        api.default_privileged,
        base_word c r.veneer_base api (omega arith) (omega arith),
        base_word c r.non_secure_partition_base api (omega arith) (omega arith),
        base_word c r.sram4_base api (omega arith) (omega arith),
        limit_word c r.veneer_limit api (omega arith) (omega arith),
        limit_word c (below_ppb r) api (omega arith) (omega arith),
      )
      (ground (
        arith,
        open_span r.veneer_base r.veneer_limit a,
        open_span r.non_secure_partition_base r.veneer_limit a,
        open_span r.sram4_base (below_ppb r) a,
        open_off a,
      ))

-- The addresses of the Non-Secure partition in flash.
abbrev pub IsNsPartition : Regions → ℕ → Type 0
IsNsPartition r a = (r.non_secure_partition_base ≤ a) × (a ≤ r.non_secure_partition_limit)

module _ (sc : SauApi) (dc : DmaApi) (r : Regions) (s : Sau) (d : Dma) (a : ℕ)
    (sau_api : IsSauApi sc) (dma_api : IsDmaApi dc) (ok : IsRegions r) (off : UnusedOff s) where
  -- After `dma_security_config` and `sau_and_idau_cfg`, with the masks of the SDK and of CMSIS, on
  -- an aligned and ordered memory map and with the other SAU regions off, a Non-Secure DMA channel
  -- reaches exactly the addresses that the SAU does not keep Secure and that lie outside the Non-
  -- Secure flash partition.
  pub dma_security_config_mirrors :
      (dma_open (dma_security_config dc r d).1.mpu a ≡ true)
      ↔ ((attribution (sau_and_idau_cfg sc r s) a ≢ secure) × ¬ IsNsPartition r a)
  unfolding dma_security_config intended
  dma_security_config_mirrors = ground (
    arith,
    dma_open-mpu_regions dc r d.mpu a dma_api ok,
    attribution-sau_and_idau_cfg sc r s a sau_api ok off,
  )

-- The loop over the channels, at every register address.
channels_from_at :
    (left i : ℕ) (c : DmaApi) (regs : ℕ → ℕ) (x : ℕ)
    → c.dma_base + c.seccfg_ch0_offset + (i + left) * 4 ≤ 2 ^ 32
    → let start = c.dma_base + c.seccfg_ch0_offset in
      channels_from left i c regs x ≡ (
        if leb (start + i * 4) x && ltb x (start + (i + left) * 4) && (x - start) % 4 == 0
        then c.seccfg_ch0_p
        else regs x)
unfolding channels_from
channels_from_at zero i c regs x h = ground arith
channels_from_at (suc left) i c regs x h =
    ground (arith, channels_from_at left (i + 1) c (update regs (seccfg c i) c.seccfg_ch0_p) x)

-- `dma_security_config` writes the privileged Non-Secure setting to the configuration registers of
-- all sixteen DMA channels and to no other register, where these fit below 2 ^ 32.
pub dma_security_config_channels :
    (c : DmaApi) (r : Regions) (d : Dma) (x : ℕ)
    → c.dma_base + c.seccfg_ch0_offset + 64 ≤ 2 ^ 32
    → let start = c.dma_base + c.seccfg_ch0_offset in
      (dma_security_config c r d).1.regs x ≡ (
        if leb start x && ltb x (start + 64) && (x - start) % 4 == 0
        then c.seccfg_ch0_p
        else d.regs x)
unfolding dma_security_config
dma_security_config_channels c r d x h = ground (arith, channels_from_at 16 0 c d.regs x)
