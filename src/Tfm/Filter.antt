-- ===== src/Tfm/Filter.antt =====
-- `bus_filter_cfg` and the two `access_ctrl_configure_to_...` functions of reference/target_cfg.c.
pub mod Reads
pub mod Errors
use rp2350_tz_tee.Prelude.{
  ℕ, ◌+◌, ◌^◌, Bool, true, false, ◌==◌, if◌then◌else◌, bit_or, List, [], ◌∷◌,
}
use rp2350_tz_tee.Prelude.Words.{u32}
use rp2350_tz_tee.Tfm.Build.{Build, PlatErr, success, system_err}

-- The bus behind `REG_RW` and the register structures: what a write and a read of a device
-- register do is up to the device.
pub record Bus : Type 1 where
  pub State : Type 0
  pub write32 : ℕ → ℕ → State → State
  pub read32 : ℕ → State → ℕ

-- The enumeration `access_ctrl_reg_offset`: where each register of ACCESSCTRL lies.
pub record Offsets : Type 0 where
  pub ac_sram0 : ℕ
  pub ac_sram1 : ℕ
  pub ac_sram2 : ℕ
  pub ac_sram3 : ℕ
  pub ac_syscfg : ℕ
  pub ac_clocks_bank_default : ℕ
  pub ac_rsm : ℕ
  pub ac_busctrl : ℕ
  pub ac_otp : ℕ
  pub ac_powman : ℕ
  pub ac_trng : ℕ
  pub ac_xosc : ℕ
  pub ac_rosc : ℕ
  pub ac_pll_sys : ℕ
  pub ac_pll_usb : ℕ
  pub ac_ticks : ℕ
  pub ac_xip_ctrl : ℕ
  pub ac_xip_qmi : ℕ
  pub ac_rom : ℕ
  pub ac_xip_main : ℕ
  pub ac_sram4 : ℕ
  pub ac_sram5 : ℕ
  pub ac_sram6 : ℕ
  pub ac_sram7 : ℕ
  pub ac_sram8 : ℕ
  pub ac_sram9 : ℕ
  pub ac_dma : ℕ
  pub ac_usbctrl : ℕ
  pub ac_pio0 : ℕ
  pub ac_pio1 : ℕ
  pub ac_pio2 : ℕ
  pub ac_coresight_trace : ℕ
  pub ac_coresight_periph : ℕ
  pub ac_sysinfo : ℕ
  pub ac_resets : ℕ
  pub ac_io_bank0 : ℕ
  pub ac_io_bank1 : ℕ
  pub ac_pads_bank0 : ℕ
  pub ac_pads_qspi : ℕ
  pub ac_adc0 : ℕ
  pub ac_hstx : ℕ
  pub ac_i2c0 : ℕ
  pub ac_i2c1 : ℕ
  pub ac_pwm : ℕ
  pub ac_spi0 : ℕ
  pub ac_spi1 : ℕ
  pub ac_timer0 : ℕ
  pub ac_timer1 : ℕ
  pub ac_uart0 : ℕ
  pub ac_uart1 : ℕ
  pub ac_tbman : ℕ
  pub ac_sha256 : ℕ
  pub ac_watchdog : ℕ
  pub ac_xip_aux : ℕ
  pub ac_do_not_configure : ℕ

-- `ACCESSCTRL_BASE`, the registers of `accessctrl_hw` by their addresses, and the password.
pub record Accessctrl : Type 0 where
  pub base : ℕ
  pub cfgreset : ℕ
  pub gpio_nsmask_0 : ℕ
  pub gpio_nsmask_1 : ℕ
  pub lock : ℕ
  pub password : ℕ
  pub offsets : Offsets

abbrev pub ac_dbg : ℕ
ac_dbg = 2 ^ 7

abbrev pub ac_dma : ℕ
ac_dma = 2 ^ 6

abbrev pub ac_core1 : ℕ
ac_core1 = 2 ^ 5

abbrev pub ac_core0 : ℕ
ac_core0 = 2 ^ 4

abbrev pub ac_sp : ℕ
ac_sp = 2 ^ 3

abbrev pub ac_su : ℕ
ac_su = 2 ^ 2

abbrev pub ac_nsp : ℕ
ac_nsp = 2 ^ 1

abbrev pub ns_priv : ℕ
ns_priv =
    bit_or (bit_or (bit_or (bit_or (bit_or (bit_or ac_dbg ac_dma) ac_core1) ac_core0) ac_sp) ac_su)
      ac_nsp

abbrev pub s_unpriv_c0 : ℕ
s_unpriv_c0 = bit_or (bit_or (bit_or ac_dbg ac_core0) ac_sp) ac_su

abbrev pub s_unpriv_c0_c1 : Build → ℕ
s_unpriv_c0_c1 b =
    if b.multi_core_topology
    then bit_or (bit_or (bit_or (bit_or ac_dbg ac_core0) ac_core1) ac_sp) ac_su
    else s_unpriv_c0

abbrev pub s_priv_c0 : ℕ
s_priv_c0 = bit_or (bit_or ac_dbg ac_core0) ac_sp

-- Peripherals controlled by Secure Core0 and Core1.
abbrev pub c0_c1_unpriv_periph_offsets : Offsets → List ℕ
c0_c1_unpriv_periph_offsets o = o.ac_sram0 ∷ o.ac_sram1 ∷ o.ac_sram2 ∷ o.ac_sram3 ∷ []

-- Peripherals controlled by Secure Core0.
abbrev pub c0_unpriv_periph_offsets : Offsets → List ℕ
c0_unpriv_periph_offsets o =
    o.ac_syscfg ∷ o.ac_clocks_bank_default ∷ o.ac_rsm ∷ o.ac_busctrl ∷ o.ac_otp ∷ o.ac_powman
    ∷ o.ac_trng ∷ o.ac_xosc ∷ o.ac_rosc ∷ o.ac_pll_sys ∷ o.ac_pll_usb ∷ o.ac_ticks ∷ o.ac_xip_ctrl
    ∷ o.ac_xip_qmi ∷ []

-- Peripherals for all bus actors.
abbrev pub ns_priv_periph_offsets : Offsets → List ℕ
ns_priv_periph_offsets o =
    o.ac_rom ∷ o.ac_xip_main ∷ o.ac_sram4 ∷ o.ac_sram5 ∷ o.ac_sram6 ∷ o.ac_sram7 ∷ o.ac_sram8
    ∷ o.ac_sram9 ∷ o.ac_dma ∷ o.ac_usbctrl ∷ o.ac_pio0 ∷ o.ac_pio1 ∷ o.ac_pio2
    ∷ o.ac_coresight_trace ∷ o.ac_coresight_periph ∷ o.ac_sysinfo ∷ o.ac_resets ∷ o.ac_io_bank0
    ∷ o.ac_io_bank1 ∷ o.ac_pads_bank0 ∷ o.ac_pads_qspi ∷ o.ac_adc0 ∷ o.ac_hstx ∷ o.ac_i2c0
    ∷ o.ac_i2c1 ∷ o.ac_pwm ∷ o.ac_spi0 ∷ o.ac_spi1 ∷ o.ac_timer0 ∷ o.ac_timer1 ∷ o.ac_uart0
    ∷ o.ac_uart1 ∷ o.ac_tbman ∷ o.ac_sha256 ∷ o.ac_watchdog ∷ o.ac_xip_aux ∷ []

-- `ACCESSCTRL_BASE + offset`
abbrev pub reg : Accessctrl → ℕ → ℕ
reg ac off = u32 (ac.base + off)

module _ (bus : Bus) where
  open bus use {State, write32, read32}

  -- The error so far, and the devices.
  abbrev pub Progress : Type 0
  Progress = PlatErr × State

  -- A write with the password, then the check that reads it back.
  unfoldable pub write_checked : Accessctrl → ℕ → ℕ → Progress → Progress
  write_checked ac perm off (err, s) =
      let s' = write32 (reg ac off) (bit_or perm ac.password) s in
      ((if read32 (reg ac off) s' == perm then err else system_err), s')

  -- One of the three loops of `bus_filter_cfg`.
  unfoldable pub configure : Accessctrl → ℕ → List ℕ → Progress → Progress
  configure ac perm [] p = p
  configure ac perm (off ∷ offs) p = configure ac perm offs (write_checked ac perm off p)

  -- The reset of ACCESSCTRL and the GPIO masks, before the loops.
  unfoldable pub reset : Accessctrl → State → State
  reset ac s =
      write32 ac.gpio_nsmask_1 0xFF00_FFFF
        (write32 ac.gpio_nsmask_0 0xFFFF_FFFC (write32 ac.cfgreset (bit_or ac.password 0x1) s))

  -- The three loops.
  unfoldable pub configure_all : Build → Accessctrl → Progress → Progress
  configure_all b ac p = configure ac ns_priv (ns_priv_periph_offsets ac.offsets) (
      configure ac s_unpriv_c0 (c0_unpriv_periph_offsets ac.offsets)
        (configure ac (s_unpriv_c0_c1 b) (c0_c1_unpriv_periph_offsets ac.offsets) p))

  unfoldable pub bus_filter_cfg : Build → Accessctrl → State → Progress
  bus_filter_cfg b ac s =
      let (err, s') = configure_all b ac (success, reset ac s) in
      (err, write32 ac.lock (bit_or ac.password 0x6) s')

  unfoldable pub access_ctrl_configure_to_secure_privileged : Accessctrl → ℕ → State → State
  access_ctrl_configure_to_secure_privileged ac off s =
      if off == ac.offsets.ac_do_not_configure
      then s
      else write32 (reg ac off) (bit_or s_priv_c0 ac.password) s

  unfoldable pub access_ctrl_configure_to_secure_unprivileged : Accessctrl → ℕ → State → State
  access_ctrl_configure_to_secure_unprivileged ac off s =
      if off == ac.offsets.ac_do_not_configure
      then s
      else write32 (reg ac off) (bit_or s_unpriv_c0 ac.password) s
