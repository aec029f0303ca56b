-- ===== src/Tfm/Isolation/Handle.antt =====
-- What reference/tfm_hal_isolation_rp2350.c does with the handle of a boundary:
-- `tfm_hal_activate_boundary`, `tfm_hal_memory_check` and `tfm_hal_boundary_need_switch`.
pub mod Laws
use rp2350_tz_tee.Prelude.{
  ℕ, ◌+◌, ◌-◌, ◌/◌, ◌%◌, ◌^◌, Bool, true, false, not, if◌then◌else◌, ◌==◌, ◌&&◌,
}
use rp2350_tz_tee.Prelude.{bit_and, bit_or, Option, some, none}
use rp2350_tz_tee.Prelude.Words.{u32}
use rp2350_tz_tee.Tfm.Isolation.{Status, hal_success, hal_error_invalid_input, hal_error_mem_fault}
use rp2350_tz_tee.Tfm.Isolation.Bind.{complement}

-- `check p size flags` is whether `cmse_check_address_range` returns a pointer that is not NULL;
-- the flags are those of arm_cmse.h, the access types those of tfm_hal_isolation.h.
pub record CheckApi : Type 0 where
  pub check : ℕ → ℕ → ℕ → Bool
  pub mpu_readwrite : ℕ
  pub mpu_read : ℕ
  pub mpu_unpriv : ℕ
  pub nonsecure : ℕ
  pub access_readable : ℕ
  pub access_readwrite : ℕ
  pub access_ns : ℕ

abbrev pub handle_attr_priv_mask : ℕ
handle_attr_priv_mask = 2

abbrev pub handle_attr_ns_mask : ℕ
handle_attr_ns_mask = 1

-- The PRIV attribute of a handle, as the functions test it.
abbrev pub has_priv : ℕ → Bool
has_priv boundary = not (bit_and (u32 boundary) handle_attr_priv_mask == 0)

abbrev pub has_ns : ℕ → Bool
has_ns boundary = not (bit_and (u32 boundary) handle_attr_ns_mask == 0)

-- `ctrl.b.nPRIV = value`: bit 0 of CONTROL.
abbrev pub set_npriv : ℕ → ℕ → ℕ
set_npriv value control = control - control % 2 + value

-- The argument and the result are the CONTROL register; the status is always success.
unfoldable pub tfm_hal_activate_boundary : ℕ → ℕ → Status × ℕ
tfm_hal_activate_boundary boundary control =
    (hal_success, set_npriv (if has_priv boundary then 0 else 1) control)

-- The flags that the access type gives; `none` is the error path.
unfoldable pub access_flags : CheckApi → ℕ → Option ℕ
access_flags c access_type =
    if bit_and access_type c.access_readwrite == c.access_readwrite
    then some (bit_or 0 c.mpu_readwrite)
    else if not (bit_and access_type c.access_readable == 0)
    then some (bit_or 0 c.mpu_read)
    else none

-- The flags that the handle adds; `control_ns` is the Non-Secure CONTROL register.
unfoldable pub boundary_flags : CheckApi → ℕ → ℕ → ℕ → ℕ → ℕ
boundary_flags c boundary access_type control_ns flags =
    let with_ns =
      if bit_and access_type c.access_ns == 0 then flags else bit_or flags c.nonsecure in
    let with_unpriv = if has_priv boundary then with_ns else bit_or with_ns c.mpu_unpriv in
    if has_ns boundary
    then bit_or
        (if control_ns % 2 == 1
          then bit_or with_unpriv c.mpu_unpriv
          else bit_and with_unpriv (complement c.mpu_unpriv))
        c.nonsecure
    else with_unpriv

-- The check under the flags that are collected.
unfoldable pub check_range : CheckApi → ℕ → ℕ → ℕ → ℕ → ℕ → Option ℕ → Status
check_range c boundary base size access_type control_ns none = hal_error_invalid_input
check_range c boundary base size access_type control_ns (some flags) =
    if c.check base size (boundary_flags c boundary access_type control_ns flags)
    then hal_success
    else hal_error_mem_fault

unfoldable pub tfm_hal_memory_check : CheckApi → ℕ → (boundary base size access_type : ℕ) → Status
tfm_hal_memory_check c control_ns boundary base size access_type =
    if size == 0
    then hal_success
    else if base == 0
    then hal_error_invalid_input
    else check_range c boundary base size access_type control_ns (access_flags c access_type)

unfoldable pub tfm_hal_boundary_need_switch : (boundary_from boundary_to : ℕ) → Bool
tfm_hal_boundary_need_switch boundary_from boundary_to =
    if boundary_from == boundary_to
    then false
    else not (has_priv boundary_from && has_priv boundary_to)
