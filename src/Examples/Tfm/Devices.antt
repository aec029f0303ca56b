-- ===== src/Examples/Tfm/Devices.antt =====
-- A partition that asks for the timer of target_cfg.c.
use rp2350_tz_tee.Prelude.{◌+◌, ◌≤◌, ◌≡◌, ◌↔◌, true, arith, refl, [], ◌∷◌, some}
use rp2350_tz_tee.Tfm.Mpu.{region_num}
use rp2350_tz_tee.Tfm.Isolation.{hal_success}
use rp2350_tz_tee.Tfm.Isolation.Bind.{Mmio, tfm_hal_bind_boundary}
use rp2350_tz_tee.Tfm.Isolation.Bind.Outcome.{all_listed, count_named}
use rp2350_tz_tee.Tfm.Periph.{Bases, tfm_peripheral_timer0}
use rp2350_tz_tee.Tfm.Periph.Bound.{IsBases, timer0, tfm_hal_bind_boundary_devices}
use rp2350_tz_tee.Examples.Tfm.{mpu_api, mpu_api-IsMpuApi, mpu_reset}
use rp2350_tz_tee.Examples.Tfm.Boundaries.{platform, spe, asset, load_info}

abbrev bases : Bases
bases = record {
  uart0_base = 0x4007_0000;
  timer0_base = 0x400B_0000;
  uart1_base = 0x4007_8000;
  watchdog_base = 0x400D_8000;
  ac_timer0 = 0xA0;
  ac_uart1 = 0xAC;
  ac_do_not_configure = 0xFFFF;
}

bases-IsBases : IsBases bases
bases-IsBases = record {
  uart0 = (refl, omega arith);
  timer0 = (refl, omega arith);
  uart1 = (refl, omega arith);
  watchdog = (refl, omega arith);
}

abbrev timer_mmio : Mmio
timer_mmio = record {
  list = 7 ∷ [];
  deref = λ r. tfm_peripheral_timer0 bases;
  named_mmio = 4;
  do_not_configure = 0xFFFF;
}

tfm_hal_bind_boundary_devices_example :
    ((tfm_hal_bind_boundary platform timer_mmio (some load_info) (some 9) spe).0 ≡ hal_success) ↔ (
      (all_listed platform timer_mmio (asset ∷ []) ≡ true)
      × (0 + count_named platform timer_mmio (asset ∷ []) ≤ region_num mpu_api mpu_reset))
tfm_hal_bind_boundary_devices_example =
    tfm_hal_bind_boundary_devices platform timer_mmio bases load_info 9 spe bases-IsBases
      mpu_api-IsMpuApi refl refl refl refl (omega arith) (omega arith) (timer0 refl, tt)
