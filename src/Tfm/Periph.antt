-- ===== src/Tfm/Periph.antt =====
-- The peripheral data of reference/target_cfg.c, with the devices for the tests of the PSA firmware
-- framework. A member that an initialiser leaves out is 0.
pub mod Bound
use rp2350_tz_tee.Prelude.{ℕ, ◌+◌, ◌^◌, ◌%◌, ◌≤◌, ◌≡◌}
use rp2350_tz_tee.Prelude.Words.{u32}
use rp2350_tz_tee.Tfm.Isolation.Bind.{PlatformData}

abbrev pub ff_test_nvmem_region_start : ℕ
ff_test_nvmem_region_start = 0x2005_E000

abbrev pub ff_test_nvmem_region_end : ℕ
ff_test_nvmem_region_end = 0x2005_E3FF

abbrev pub ff_test_server_partition_mmio_start : ℕ
ff_test_server_partition_mmio_start = 0x2005_E400

abbrev pub ff_test_server_partition_mmio_end : ℕ
ff_test_server_partition_mmio_end = 0x2005_E4FF

abbrev pub ff_test_driver_partition_mmio_start : ℕ
ff_test_driver_partition_mmio_start = 0x2005_E600

abbrev pub ff_test_driver_partition_mmio_end : ℕ
ff_test_driver_partition_mmio_end = 0x2005_E6FF

-- The addresses of the SDK, and the register indices of the TF-M port.
pub record Bases : Type 0 where
  pub uart0_base : ℕ
  pub timer0_base : ℕ
  pub uart1_base : ℕ
  pub watchdog_base : ℕ
  pub ac_timer0 : ℕ
  pub ac_uart1 : ℕ
  pub ac_do_not_configure : ℕ

module _ (b : Bases) where
  abbrev pub tfm_peripheral_std_uart : PlatformData
  tfm_peripheral_std_uart = record {
    periph_start = b.uart0_base;
    periph_limit = u32 (b.uart0_base + 0x3FFF);
    periph_ppc_bank = 0;
    periph_ppc_mask = b.ac_do_not_configure;
  }

  abbrev pub tfm_peripheral_timer0 : PlatformData
  tfm_peripheral_timer0 = record {
    periph_start = b.timer0_base;
    periph_limit = u32 (b.timer0_base + 0x3FFF);
    periph_ppc_bank = 0;
    periph_ppc_mask = b.ac_timer0;
  }

  abbrev pub tfm_peripheral_ff_test_uart_region : PlatformData
  tfm_peripheral_ff_test_uart_region = record {
    periph_start = b.uart1_base;
    periph_limit = u32 (b.uart1_base + 0x3FFF);
    periph_ppc_bank = 0;
    periph_ppc_mask = b.ac_uart1;
  }

  abbrev pub tfm_peripheral_ff_test_watchdog_region : PlatformData
  tfm_peripheral_ff_test_watchdog_region = record {
    periph_start = b.watchdog_base;
    periph_limit = u32 (b.watchdog_base + 0x3FFF);
    periph_ppc_bank = 0;
    periph_ppc_mask = b.ac_do_not_configure;
  }

  abbrev pub tfm_peripheral_ff_test_nvmem_region : PlatformData
  tfm_peripheral_ff_test_nvmem_region = record {
    periph_start = ff_test_nvmem_region_start;
    periph_limit = ff_test_nvmem_region_end;
    periph_ppc_bank = 0;
    periph_ppc_mask = b.ac_do_not_configure;
  }

  abbrev pub tfm_peripheral_ff_test_server_partition_mmio : PlatformData
  tfm_peripheral_ff_test_server_partition_mmio = record {
    periph_start = ff_test_server_partition_mmio_start;
    periph_limit = ff_test_server_partition_mmio_end;
    periph_ppc_bank = 0;
    periph_ppc_mask = b.ac_do_not_configure;
  }

  abbrev pub tfm_peripheral_ff_test_driver_partition_mmio : PlatformData
  tfm_peripheral_ff_test_driver_partition_mmio = record {
    periph_start = ff_test_driver_partition_mmio_start;
    periph_limit = ff_test_driver_partition_mmio_end;
    periph_ppc_bank = 0;
    periph_ppc_mask = b.ac_do_not_configure;
  }
