-- ===== src/Examples/Tfm.antt =====
-- Concrete parameters for the files of reference/: a bus, the address map, and the APIs.
pub mod Filter
pub mod Maps
pub mod Layout
pub mod Linked
pub mod Sealed
pub mod NsLinked
pub mod Boundaries
pub mod Devices
use rp2350_tz_tee.Prelude.{
  ℕ, ◌+◌, ◌*◌, ◌/◌, ◌^◌, ◌%◌, ◌<◌, ◌≡◌, ◌==◌, if◌then◌else◌, arith, refl, bit_and, bit_or,
}
use rp2350_tz_tee.Prelude.{true, false}
use rp2350_tz_tee.Prelude.Maps.{update}
use rp2350_tz_tee.Prelude.Words.{or_comm, or_low, bit_and_low}
use rp2350_tz_tee.Hw.Sau.{Sau}
use rp2350_tz_tee.Tfm.Build.{Build, level_2}
use rp2350_tz_tee.Tfm.Regions.{Regions, IsRegions}
use rp2350_tz_tee.Tfm.Sau.{SauApi, IsSauApi}
use rp2350_tz_tee.Tfm.Dma.{DmaApi, IsDmaApi, Dma}
use rp2350_tz_tee.Tfm.Filter.{Bus, Offsets, Accessctrl, ns_priv}
use rp2350_tz_tee.Tfm.Filter.Errors.{IsStuck}
use rp2350_tz_tee.Tfm.Filter.Reads.{IsAccessctrl, filters, listed}
use rp2350_tz_tee.Tfm.Mpu.{Mpu, MpuApi, IsMpuApi}

abbrev pub build : Build
build = record {
  memory_protect = true;
  use_trustzone = true;
  partition_meta = false;
  pxn_enable = true;
  multi_core_topology = false;
  isolation_level = level_2;
}

-- Registers that keep the low byte of what is written, and CFGRESET, which sets them all.
abbrev pub byte_bus : Bus
byte_bus = record {
  State = ℕ → ℕ;
  write32 = λ x v s. if x == 0x4006_0008 then (λ y. 0xFC) else update s x (v % 256);
  read32 = λ x s. s x;
}

-- Registers that take nothing.
abbrev pub dead_bus : Bus
dead_bus = record { State = ℕ; write32 = λ x v s. s; read32 = λ x s. 0 }

abbrev pub offsets : Offsets
offsets = record {
  ac_sram0 = 0x1c;
  ac_sram1 = 0x20;
  ac_sram2 = 0x24;
  ac_sram3 = 0x28;
  ac_syscfg = 0xbc;
  ac_clocks_bank_default = 0xc0;
  ac_rsm = 0xdc;
  ac_busctrl = 0x78;
  ac_otp = 0xa8;
  ac_powman = 0xb0;
  ac_trng = 0xb4;
  ac_xosc = 0xc4;
  ac_rosc = 0xc8;
  ac_pll_sys = 0xcc;
  ac_pll_usb = 0xd0;
  ac_ticks = 0xd4;
  ac_xip_ctrl = 0xe0;
  ac_xip_qmi = 0xe4;
  ac_rom = 0x14;
  ac_xip_main = 0x18;
  ac_sram4 = 0x2c;
  ac_sram5 = 0x30;
  ac_sram6 = 0x34;
  ac_sram7 = 0x38;
  ac_sram8 = 0x3c;
  ac_sram9 = 0x40;
  ac_dma = 0x44;
  ac_usbctrl = 0x48;
  ac_pio0 = 0x4c;
  ac_pio1 = 0x50;
  ac_pio2 = 0x54;
  ac_coresight_trace = 0x58;
  ac_coresight_periph = 0x5c;
  ac_sysinfo = 0x60;
  ac_resets = 0x64;
  ac_io_bank0 = 0x68;
  ac_io_bank1 = 0x6c;
  ac_pads_bank0 = 0x70;
  ac_pads_qspi = 0x74;
  ac_adc0 = 0x7c;
  ac_hstx = 0x80;
  ac_i2c0 = 0x84;
  ac_i2c1 = 0x88;
  ac_pwm = 0x8c;
  ac_spi0 = 0x90;
  ac_spi1 = 0x94;
  ac_timer0 = 0x98;
  ac_timer1 = 0x9c;
  ac_uart0 = 0xa0;
  ac_uart1 = 0xa4;
  ac_tbman = 0xac;
  ac_sha256 = 0xb8;
  ac_watchdog = 0xd8;
  ac_xip_aux = 0xe8;
  ac_do_not_configure = 0xFFFF;
}

abbrev pub accessctrl : Accessctrl
accessctrl = record {
  base = 0x4006_0000;
  cfgreset = 0x4006_0008;
  gpio_nsmask_0 = 0x4006_000C;
  gpio_nsmask_1 = 0x4006_0010;
  lock = 0x4006_0000;
  password = 0xACCE_0000;
  offsets = offsets;
}

low_byte : (perm : ℕ) → perm < 256 → bit_or perm 0xACCE_0000 % 256 ≡ perm
low_byte perm h =
    omega (arith, or_comm perm 0xACCE_0000, or_low 16 0xACCE_0000 perm refl (omega arith))

no_cfgreset : (y : ℕ) → filters accessctrl y ≡ true → (y == 0x4006_0008) ≡ false
unfolding filters listed
no_cfgreset y h = ground (arith, h)

pub byte_bus-IsAccessctrl : IsAccessctrl byte_bus accessctrl
byte_bus-IsAccessctrl = record {
  takes = λ x y perm s f h. (let no_reset = no_cfgreset y f in ground (arith, low_byte perm h));
  lock_keeps = λ x v s h. ground arith;
}

pub dead_bus-IsStuck : IsStuck dead_bus accessctrl offsets.ac_rom ns_priv
dead_bus-IsStuck s h = omega arith

abbrev pub regions : Regions
regions = record {
  veneer_base = 0x1007_F000;
  veneer_limit = 0x1007_FFFF;
  non_secure_partition_base = 0x1008_0000;
  non_secure_partition_limit = 0x100F_FFFF;
  sram4_base = 0x2004_0000;
  ppb_base = 0xE000_0000;
}

pub regions-IsRegions : IsRegions regions
regions-IsRegions = record {
  veneer_start = refl;
  veneer_end = refl;
  veneer_some = omega arith;
  ns_after = omega arith;
  ns_start = refl;
  ns_end = refl;
  ns_some = omega arith;
  sram4_after = omega arith;
  sram4_start = refl;
  ppb_after = omega arith;
  ppb_start = refl;
  ppb_fits = omega arith;
}

abbrev pub sau_api : SauApi
sau_api = record {
  rbar_baddr = 0xFFFF_FFE0;
  rlar_laddr = 0xFFFF_FFE0;
  rlar_enable = 1;
  rlar_nsc = 2;
  tz_sau_enable = λ s. record s { ctrl = 1 };
}

pub sau_api-IsSauApi : IsSauApi sau_api
sau_api-IsSauApi = record {
  base = refl;
  limit = refl;
  enable = refl;
  nsc = refl;
  turns_on = λ s. refl;
  keeps_rbar = λ s. refl;
  keeps_rlar = λ s. refl;
}

abbrev pub dma_api : DmaApi
dma_api = record {
  dma_base = 0x5000_0000;
  seccfg_ch0_offset = 0x480;
  seccfg_ch0_p = 2;
  ctrl_ns_hide_addr = 8;
  ctrl_s = 4;
  ctrl_p = 2;
  bar0 = 0xFFFF_FFE0;
  lar0_addr = 0xFFFF_FFE0;
  lar0_p = 2;
  lar0_en = 1;
}

pub dma_api-IsDmaApi : IsDmaApi dma_api
dma_api-IsDmaApi = record {
  base = refl;
  limit = refl;
  privileged = refl;
  enable = refl;
  hide = refl;
  secure = refl;
  default_privileged = refl;
}

abbrev pub mpu_api : MpuApi
mpu_api = record {
  mpu_rbar = λ base sh ro np xn. base / 32 * 32 + sh * 8 + ro * 4 + np * 2 + xn;
  mpu_rlar = λ limit idx. limit / 32 * 32 + idx * 2 + 1;
  mpu_rlar_pxn = λ limit pxn idx. limit / 32 * 32 + pxn * 16 + idx * 2 + 1;
  mpu_attr = λ outer inner. outer * 16 + inner;
  mpu_attr_memory = λ nt wb ra wa. nt * 8 + wb * 4 + ra * 2 + wa;
  disable = λ m. record m { ctrl = 0 };
  enable = λ v m. record m { ctrl = v / 2 * 2 + 1 };
  clr_region = λ i m. record m { rbar = update m.rbar i 0; rlar = update m.rlar i 0 };
  set_region =
      λ i rbar rlar m. record m { rbar = update m.rbar i rbar; rlar = update m.rlar i rlar };
  set_mem_attr = λ i attr m. record m { mair = update m.mair i attr };
  sh_non = 0;
  attr_device = 0;
  attr_device_ngnre = 4;
  dregion_msk = 0xFF00;
  dregion_pos = 8;
  ctrl_enable_msk = 1;
  ctrl_flags = 6;
  rbar_base_msk = 0xFFFF_FFE0;
  rlar_limit_msk = 0xFFFF_FFE0;
}

pub mpu_api-IsMpuApi : IsMpuApi mpu_api
mpu_api-IsMpuApi = record {
  type_disable = λ m. refl;
  rbar_disable = λ m. refl;
  rlar_disable = λ m. refl;
  type_enable = λ v m. refl;
  rbar_enable = λ v m. refl;
  rlar_enable = λ v m. refl;
  enabled = λ v m h. omega (arith, bit_and_low 1 (v / 2 * 2 + 1));
  type_clr = λ i m. refl;
  rlar_clr = λ i j m. refl;
  type_set = λ i b l m. refl;
  rbar_set = λ i b l j m. refl;
  rlar_set = λ i b l j m. refl;
  type_attr = λ i v m. refl;
  rlar_attr = λ i v m. refl;
}

-- The units after a reset; the MPU has eight regions.
abbrev pub sau_reset : Sau
sau_reset = record { rnr = 0; rbar = λ n. 0; rlar = λ n. 0; ctrl = 0 }

abbrev pub dma_reset : Dma
dma_reset = record { regs = λ x. 0; mpu = record { mpu_ctrl = 0; bar = λ n. 0; lar = λ n. 0 } }

abbrev pub mpu_reset : Mpu
mpu_reset = record { type = 0x800; ctrl = 0; rbar = λ n. 0; rlar = λ n. 0; mair = λ n. 0 }
