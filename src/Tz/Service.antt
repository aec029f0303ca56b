-- ===== src/Tz/Service.antt =====
-- examples/minimal-tz/secure/secure_service.c: the two functions behind the gateway veneers.
pub mod Copy
pub mod Sign
use rp2350_tz_tee.Prelude.{
  ℕ, zero, suc, ◌+◌, ◌-◌, ◌^◌, ◌||◌, not, Bool, ltb, ◌==◌, if◌then◌else◌, bit_or,
}
use rp2350_tz_tee.Prelude.Maps.{update}
use rp2350_tz_tee.Prelude.Words.{u32}
use rp2350_tz_tee.Hw.Memory.{Memory}
use rp2350_tz_tee.Tz.Secret.{secret_next_counter, secret_keyed_transform}

-- What secure_service.c takes from arm_cmse.h. `check p len flags` is whether
-- `cmse_check_address_range` returns a pointer that is not NULL.
pub record Cmse : Type 0 where
  pub check : ℕ → ℕ → ℕ → Bool
  pub nonsecure : ℕ
  pub mpu_read : ℕ
  pub mpu_readwrite : ℕ

abbrev pub secure_sign_max : ℕ
secure_sign_max = 256

-- An `int` by its two's complement pattern.
abbrev pub minus : ℕ → ℕ
minus n = 2 ^ 32 - n

-- The new value of the counter is also the result.
unfoldable pub secure_get_counter : ℕ → ℕ
unfolding secret_next_counter
secure_get_counter s_counter = secret_next_counter s_counter

-- `tmp_in[i] = challenge[i]`, from index `i`.
unfoldable pub copy_in : ℕ → ℕ → Memory → ℕ → (ℕ → ℕ) → ℕ → ℕ
copy_in zero i m challenge tmp = tmp
copy_in (suc left) i m challenge tmp =
    copy_in left (i + 1) m challenge (update tmp i (m (u32 (challenge + i))))

-- `out[i] = tmp_out[i]`, from index `i`.
unfoldable pub copy_out : ℕ → ℕ → (ℕ → ℕ) → ℕ → Memory → Memory
copy_out zero i tmp out m = m
copy_out (suc left) i tmp out m = copy_out left (i + 1) tmp out (update m (u32 (out + i)) (tmp i))

-- The part after the guards; `tmp_in` and `tmp_out` are the stack buffers as they are found.
unfoldable pub sign_body : (ℕ → ℕ) → (ℕ → ℕ) → Memory → ℕ → ℕ → ℕ → Memory
unfolding copy_in copy_out secret_keyed_transform
sign_body tmp_in tmp_out m challenge out len =
    copy_out len 0 (secret_keyed_transform (copy_in len 0 m challenge tmp_in) tmp_out len) out m

unfoldable pub secure_sign : Cmse → (ℕ → ℕ) → (ℕ → ℕ) → Memory → ℕ → ℕ → ℕ → ℕ × Memory
secure_sign c tmp_in tmp_out m challenge out len =
    if len == 0 || ltb secure_sign_max len
    then (minus 1, m)
    else if not (c.check challenge len (bit_or c.nonsecure c.mpu_read))
    then (minus 2, m)
    else if not (c.check out len (bit_or c.nonsecure c.mpu_readwrite))
    then (minus 3, m)
    else (0, sign_body tmp_in tmp_out m challenge out len)
