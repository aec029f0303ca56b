-- ===== src/Tfm/Periph/Bound.antt =====
-- Every device of target_cfg.c can be bound to an unprivileged partition.
use rp2350_tz_tee.Prelude.{
  ℕ, ◌+◌, ◌^◌, ◌%◌, ◌≤◌, ◌<◌, ◌≡◌, ◌↔◌, true, false, arith, refl, List, [], ◌∷◌, some,
}
use rp2350_tz_tee.Prelude.Lists.{All}
use rp2350_tz_tee.Prelude.Words.{bit_and_low}
use rp2350_tz_tee.Tfm.Build.{level_2}
use rp2350_tz_tee.Tfm.Mpu.{IsMpuApi, region_num}
use rp2350_tz_tee.Tfm.Isolation.{hal_success, Spe, Platform}
use rp2350_tz_tee.Tfm.Isolation.Bind.{Mmio, PlatformData, Asset, LoadInfo, tfm_hal_bind_boundary}
use rp2350_tz_tee.Tfm.Isolation.Bind.Outcome.{
  is_aligned, all_listed, all_aligned, count_named, tfm_hal_bind_boundary_mapped,
}
use rp2350_tz_tee.Tfm.Periph.{
  Bases, tfm_peripheral_std_uart, tfm_peripheral_timer0, tfm_peripheral_ff_test_uart_region,
  tfm_peripheral_ff_test_watchdog_region, tfm_peripheral_ff_test_nvmem_region,
  tfm_peripheral_ff_test_server_partition_mmio, tfm_peripheral_ff_test_driver_partition_mmio,
}

-- One of the devices of the file.
pub data IsDevice (b : Bases) (d : PlatformData) : Type 0 where
  std_uart : d ≡ tfm_peripheral_std_uart b → IsDevice b d
  timer0 : d ≡ tfm_peripheral_timer0 b → IsDevice b d
  ff_test_uart : d ≡ tfm_peripheral_ff_test_uart_region b → IsDevice b d
  ff_test_watchdog : d ≡ tfm_peripheral_ff_test_watchdog_region b → IsDevice b d
  ff_test_nvmem : d ≡ tfm_peripheral_ff_test_nvmem_region b → IsDevice b d
  ff_test_server : d ≡ tfm_peripheral_ff_test_server_partition_mmio b → IsDevice b d
  ff_test_driver : d ≡ tfm_peripheral_ff_test_driver_partition_mmio b → IsDevice b d

-- The SDK gives each device a block of 16 KB.
abbrev IsBase : ℕ → Type 0
IsBase a = (a % 0x4000 ≡ 0) × (a + 0x4000 ≤ 2 ^ 32)

pub record IsBases (b : Bases) : Type 0 where
  pub uart0 : IsBase b.uart0_base
  pub timer0 : IsBase b.timer0_base
  pub uart1 : IsBase b.uart1_base
  pub watchdog : IsBase b.watchdog_base

-- The device spans whole blocks of 32 bytes.
abbrev IsSpan : PlatformData → Type 0
IsSpan d = (d.periph_start % 32 ≡ 0) × (d.periph_limit % 32 ≡ 31)

device-IsSpan : (b : Bases) (d : PlatformData) → IsBases b → IsDevice b d → IsSpan d
device-IsSpan b d s (std_uart e) = rw e (omega arith, omega arith)
device-IsSpan b d s (timer0 e) = rw e (omega arith, omega arith)
device-IsSpan b d s (ff_test_uart e) = rw e (omega arith, omega arith)
device-IsSpan b d s (ff_test_watchdog e) = rw e (omega arith, omega arith)
device-IsSpan b d s (ff_test_nvmem e) = rw e (omega arith, omega arith)
device-IsSpan b d s (ff_test_server e) = rw e (omega arith, omega arith)
device-IsSpan b d s (ff_test_driver e) = rw e (omega arith, omega arith)

module _ (p : Platform) (mmio : Mmio) (b : Bases) where
  open p use {api, bus, build}

  device-is_aligned :
      (d : PlatformData)
      → IsBases b
      → api.rbar_base_msk ≡ 0xFFFF_FFE0
      → api.rlar_limit_msk ≡ 0xFFFF_FFE0
      → IsDevice b d
      → is_aligned p mmio d ≡ true
  device-is_aligned d s base limit dev =
      let span = device-IsSpan b d s dev in
      rw (base, limit) (ground (arith, bit_and_low 5 d.periph_start, bit_and_low 5 d.periph_limit))

  devices-all_aligned :
      (assets : List Asset)
      → IsBases b
      → api.rbar_base_msk ≡ 0xFFFF_FFE0
      → api.rlar_limit_msk ≡ 0xFFFF_FFE0
      → All (λ a. IsDevice b (mmio.deref a.dev_ref)) assets
      → all_aligned p mmio assets ≡ true
  unfolding all_aligned
  devices-all_aligned [] s base limit h = refl
  devices-all_aligned (asset ∷ assets) s base limit h =
      let first = device-is_aligned (mmio.deref asset.dev_ref) s base limit h.0 in
      let rest = devices-all_aligned assets s base limit h.1 in ground arith

  -- Under isolation level 2, for an unprivileged partition all of whose assets refer to devices of
  -- target_cfg.c, with the 16 KB device blocks of the SDK, the masks of CMSIS, and no more regions
  -- counted than the hardware has (fewer than 2 ^ 32), `tfm_hal_bind_boundary` succeeds exactly if
  -- every named asset is in the platform's list and the regions left suffice.
  pub tfm_hal_bind_boundary_devices :
      (ld : LoadInfo) (boundary : ℕ) (s : Spe bus)
      → IsBases b
      → IsMpuApi api
      → api.rbar_base_msk ≡ 0xFFFF_FFE0
      → api.rlar_limit_msk ≡ 0xFFFF_FFE0
      → build.isolation_level ≡ level_2
      → ld.is_psa_rot ≡ false
      → s.n_configured_regions ≤ region_num api s.mpu
      → region_num api s.mpu < 2 ^ 32
      → All (λ a. IsDevice b (mmio.deref a.dev_ref)) ld.assets
      → ((tfm_hal_bind_boundary p mmio (some ld) (some boundary) s).0 ≡ hal_success) ↔ (
          (all_listed p mmio ld.assets ≡ true)
          × (s.n_configured_regions + count_named p mmio ld.assets ≤ region_num api s.mpu))
  tfm_hal_bind_boundary_devices ld boundary s bases laws base limit level unpriv le lt h =
      let aligned = devices-all_aligned ld.assets bases base limit h in
      let both = (tfm_hal_bind_boundary_mapped p mmio ld boundary s laws level unpriv le lt).0 in
      ((λ e. let c = both.0 e in (c.0, c.2)), (λ c. both.1 (c.0, aligned, c.1)))
