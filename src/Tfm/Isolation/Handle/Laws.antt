-- ===== src/Tfm/Isolation/Handle/Laws.antt =====
-- The handle from binding to activation, switches that may be skipped, and memory checks.
use rp2350_tz_tee.Prelude.{
  ℕ, ◌+◌, ◌*◌, ◌/◌, ◌%◌, ◌≡◌, Bool, true, false, not, if◌then◌else◌, ◌==◌, ◌||◌,
}
use rp2350_tz_tee.Prelude.{arith, refl, bit_and, some, none, ◌⊎◌, inl, inr}
use rp2350_tz_tee.Prelude.Words.{bit_and_low, bit_and_high}
use rp2350_tz_tee.Tfm.Isolation.{
  hal_success, hal_error_invalid_input, hal_error_mem_fault, Platform, Spe,
}
use rp2350_tz_tee.Tfm.Isolation.Bind.{Mmio, LoadInfo, is_privileged, bit, tfm_hal_bind_boundary}
use rp2350_tz_tee.Tfm.Isolation.Bind.Outcome.{tfm_hal_bind_boundary_handle}
use rp2350_tz_tee.Tfm.Isolation.Handle.{
  CheckApi, has_priv, has_ns, tfm_hal_activate_boundary, access_flags, boundary_flags, check_range,
  tfm_hal_memory_check, tfm_hal_boundary_need_switch,
}

has_priv_handle : (privileged ns : Bool) → has_priv (2 * bit privileged + bit ns) ≡ privileged
has_priv_handle true true = refl
has_priv_handle true false = refl
has_priv_handle false true = refl
has_priv_handle false false = refl

-- Activating the handle that a successful `tfm_hal_bind_boundary` gives clears nPRIV for a
-- privileged partition and sets it for an unprivileged one, and changes no other bit of CONTROL.
pub activate-bind :
    (p : Platform) (mmio : Mmio) (ld : LoadInfo) (boundary : ℕ) (s : Spe p.bus) (b control : ℕ)
    → (tfm_hal_bind_boundary p mmio (some ld) (some boundary) s).0 ≡ hal_success
    → (tfm_hal_bind_boundary p mmio (some ld) (some boundary) s).1 ≡ some b
    → ((tfm_hal_activate_boundary b control).1 % 2
        ≡ (if is_privileged p.build.isolation_level ld then 0 else 1))
      × ((tfm_hal_activate_boundary b control).1 / 2 ≡ control / 2)
unfolding tfm_hal_activate_boundary
activate-bind p mmio ld boundary s b control ok e = ground (
  arith,
  (tfm_hal_bind_boundary_handle p mmio ld boundary s).0 ok,
  has_priv_handle (is_privileged p.build.isolation_level ld) ld.is_ns_agent_tz,
)

-- Where `tfm_hal_boundary_need_switch` returns false, activating the second boundary after the
-- first leaves the status and CONTROL of the first.
pub need_switch_skips :
    (boundary_from boundary_to control : ℕ)
    → tfm_hal_boundary_need_switch boundary_from boundary_to ≡ false
    → tfm_hal_activate_boundary boundary_to (tfm_hal_activate_boundary boundary_from control).1
      ≡ tfm_hal_activate_boundary boundary_from control
unfolding tfm_hal_activate_boundary tfm_hal_boundary_need_switch
need_switch_skips boundary_from boundary_to control h = ground arith

-- What arm_cmse.h and tfm_hal_isolation.h give.
pub record IsCheckApi (c : CheckApi) : Type 0 where
  pub readwrite_flag : c.mpu_readwrite ≡ 1
  pub unpriv_flag : c.mpu_unpriv ≡ 4
  pub read_flag : c.mpu_read ≡ 8
  pub nonsecure_flag : c.nonsecure ≡ 18
  pub readable_bit : c.access_readable ≡ 2
  pub readwrite_bits : c.access_readwrite ≡ 6
  pub ns_bit : c.access_ns ≡ 32

-- Whether the access is checked as unprivileged: by the Non-Secure CONTROL for the agent of the
-- Non-Secure world, by the handle for everyone else.
abbrev pub as_unprivileged : (boundary control_ns : ℕ) → Bool
as_unprivileged boundary control_ns =
    if has_ns boundary then control_ns % 2 == 1 else not (has_priv boundary)

-- Whether the access is checked as Non-Secure.
abbrev pub as_nonsecure : (boundary access_type : ℕ) → Bool
as_nonsecure boundary access_type = has_ns boundary || access_type / 32 % 2 == 1

-- The flags as a sum, each at most once.
abbrev pub expected_flags : (boundary access_type control_ns : ℕ) → ℕ
expected_flags boundary access_type control_ns =
    (if access_type / 2 % 4 == 3 then 1 else 8)
    + (if as_unprivileged boundary control_ns then 4 else 0)
    + (if as_nonsecure boundary access_type then 18 else 0)

bits_readwrite : (x : ℕ) → bit_and x 6 ≡ x / 2 % 4 * 2
bits_readwrite x = omega (arith, bit_and_high 1 x 3, bit_and_low 2 (x / 2))

bits_readable : (x : ℕ) → bit_and x 2 ≡ x / 2 % 2 * 2
bits_readable x = omega (arith, bit_and_high 1 x 1, bit_and_low 1 (x / 2))

bits_ns : (x : ℕ) → bit_and x 32 ≡ x / 32 % 2 * 32
bits_ns x = omega (arith, bit_and_high 5 x 1, bit_and_low 1 (x / 32))

boundary_flags_lem :
    (c : CheckApi) (boundary access_type control_ns flags : ℕ)
    → IsCheckApi c
    → (flags ≡ 1) ⊎ (flags ≡ 8)
    → boundary_flags c boundary access_type control_ns flags
      ≡ flags
        + (if as_unprivileged boundary control_ns then 4 else 0)
        + (if as_nonsecure boundary access_type then 18 else 0)
unfolding boundary_flags
boundary_flags_lem c boundary access_type control_ns flags api (inl e) =
    rw (e, api.unpriv_flag, api.nonsecure_flag, api.ns_bit) (ground (arith, bits_ns access_type))
boundary_flags_lem c boundary access_type control_ns flags api (inr e) =
    rw (e, api.unpriv_flag, api.nonsecure_flag, api.ns_bit) (ground (arith, bits_ns access_type))

access_flags_lem :
    (c : CheckApi) (access_type : ℕ)
    → IsCheckApi c
    → access_flags c access_type ≡ (
        if access_type / 2 % 2 == 0 then none else some (if access_type / 2 % 4 == 3 then 1 else 8))
unfolding access_flags
access_flags_lem c access_type api =
    rw (api.readwrite_bits, api.readable_bit, api.readwrite_flag, api.read_flag)
      (ground (arith, bits_readwrite access_type, bits_readable access_type))

-- With the flags of arm_cmse.h and the access types of TF-M, `tfm_hal_memory_check` accepts an
-- empty buffer, refuses a null base or an access that is not readable, and otherwise returns what
-- the range check says under the sum of the flags: the access, unprivileged by the Non-Secure
-- CONTROL for the Non-Secure agent and by the handle for the others, and Non-Secure by the handle
-- or the access type.
pub tfm_hal_memory_check_lem :
    (c : CheckApi) (boundary base size access_type control_ns : ℕ)
    → IsCheckApi c
    → tfm_hal_memory_check c control_ns boundary base size access_type ≡ (
        if size == 0
        then hal_success
        else if base == 0 || access_type / 2 % 2 == 0
        then hal_error_invalid_input
        else if c.check base size (expected_flags boundary access_type control_ns)
        then hal_success
        else hal_error_mem_fault)
unfolding tfm_hal_memory_check check_range
tfm_hal_memory_check_lem c boundary base size access_type control_ns api =
    rw (access_flags_lem c access_type api) (
      ground (
        arith,
        boundary_flags_lem c boundary access_type control_ns 1 api (inl refl),
        boundary_flags_lem c boundary access_type control_ns 8 api (inr refl),
      ))
