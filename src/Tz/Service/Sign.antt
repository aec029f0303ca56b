-- ===== src/Tz/Service/Sign.antt =====
-- What the gateway functions promise to the two worlds.
use rp2350_tz_tee.Prelude.{ℕ, ◌+◌, ◌^◌, ◌≤◌, ◌<◌, ◌≡◌, ◌≢◌, ◌↔◌, bit_or, bit_xor}
use rp2350_tz_tee.Prelude.{Bool, true, false, ap, ltb, arith, if◌then◌else◌}
use rp2350_tz_tee.Prelude.Words.{u32}
use rp2350_tz_tee.Hw.Memory.{Memory, IsBytes}
use rp2350_tz_tee.Tz.Secret.{keyed, key_byte, keyed_key}
use rp2350_tz_tee.Tz.Service.{Cmse, secure_sign_max, sign_body, secure_sign}
use rp2350_tz_tee.Tz.Service.Copy.{offset, sign_body_at}

-- The requests that pass the guards.
pub record IsAccepted (c : Cmse) (challenge out len : ℕ) : Type 0 where
  pub some_bytes : 0 < len
  pub few_bytes : len ≤ secure_sign_max
  pub readable : c.check challenge len (bit_or c.nonsecure c.mpu_read) ≡ true
  pub writable : c.check out len (bit_or c.nonsecure c.mpu_readwrite) ≡ true

-- What arm_cmse.h documents of a range that `cmse_check_address_range` accepts with a flag set
-- that asks for Non-Secure access: all of its bytes are Non-Secure.
abbrev pub ChecksNonsecure : Cmse → (ℕ → Bool) → ℕ → Type 0
ChecksNonsecure c is_ns access =
    (p len : ℕ)
    → c.check p len (bit_or c.nonsecure access) ≡ true
    → (j : ℕ) → j < len
    → is_ns (u32 (p + j)) ≡ true

module _ (c : Cmse) (tmp_in tmp_out : ℕ → ℕ) (m : Memory) (challenge out len : ℕ) where
  -- `secure_sign` returns 0 exactly for the requests with 1 to 256 bytes whose challenge is
  -- readable and whose output is writable by the check; any other result is negative, and then
  -- memory is unchanged.
  pub secure_sign_guarded :
      ((secure_sign c tmp_in tmp_out m challenge out len).0 ≡ 0 ↔ IsAccepted c challenge out len)
      × ((secure_sign c tmp_in tmp_out m challenge out len).0 ≢ 0
          → (2 ^ 31 ≤ (secure_sign c tmp_in tmp_out m challenge out len).0)
            × ((secure_sign c tmp_in tmp_out m challenge out len).1 ≡ m))
  unfolding secure_sign
  secure_sign_guarded = (((λ e. ground arith), (λ h. ground arith)), (λ h. ground arith))

  secure_sign_accepted :
      IsAccepted c challenge out len
      → secure_sign c tmp_in tmp_out m challenge out len
        ≡ (0, sign_body tmp_in tmp_out m challenge out len)
  unfolding secure_sign
  secure_sign_accepted h = ground arith

  -- For an accepted request `secure_sign` leaves at every 32-bit address the challenge byte
  -- combined with the key byte of its index, if the address lies in the output buffer, and the old
  -- byte otherwise. The challenge is read before the output is written, so the buffers may
  -- overlap.
  pub secure_sign_at :
      (a : ℕ)
      → IsAccepted c challenge out len
      → out < 2 ^ 32
      → a < 2 ^ 32
      → (secure_sign c tmp_in tmp_out m challenge out len).1 a ≡ (
          if ltb (offset out a) len
          then keyed (m (u32 (challenge + offset out a))) (offset out a)
          else m a)
  secure_sign_at a h g k =
      rw (secure_sign_accepted h)
        (sign_body_at tmp_in tmp_out m challenge out len a (omega arith) g k)

module _ (c : Cmse) (is_ns : ℕ → Bool) (tmp_in tmp_out : ℕ → ℕ) where
  -- `secure_sign`, called with any pointers and length, changes no byte that is not Non-Secure, if
  -- `cmse_check_address_range` accepts for writing only ranges that are Non-Secure throughout.
  pub secure_sign_writes_nonsecure :
      (m : Memory) (challenge out len a : ℕ)
      → ChecksNonsecure c is_ns c.mpu_readwrite
      → out < 2 ^ 32
      → a < 2 ^ 32
      → is_ns a ≡ false
      → (secure_sign c tmp_in tmp_out m challenge out len).1 a ≡ m a
  unfolding secure_sign
  secure_sign_writes_nonsecure m challenge out len a sound g k sec =
      let back : u32 (out + offset out a) ≡ a = omega arith in
      ground (
        arith,
        sign_body_at tmp_in tmp_out m challenge out len a,
        λ (e : c.check out len (bit_or c.nonsecure c.mpu_readwrite) ≡ true).
            sound out len e (offset out a),
        ap is_ns back,
      )

  -- If `cmse_check_address_range` accepts for reading only ranges that are Non-Secure throughout,
  -- then the result of `secure_sign` and the Non-Secure bytes after it are the same for two
  -- memories that agree on the Non-Secure bytes, whatever the Secure bytes and the two stack
  -- buffers hold.
  pub secure_sign_reads_nonsecure :
      (tmp_in' tmp_out' : ℕ → ℕ) (m n : Memory) (challenge out len a : ℕ)
      → ChecksNonsecure c is_ns c.mpu_read
      → out < 2 ^ 32
      → ((b : ℕ) → is_ns b ≡ true → m b ≡ n b)
      → a < 2 ^ 32
      → is_ns a ≡ true
      → ((secure_sign c tmp_in tmp_out m challenge out len).0
          ≡ (secure_sign c tmp_in' tmp_out' n challenge out len).0)
        × ((secure_sign c tmp_in tmp_out m challenge out len).1 a
            ≡ (secure_sign c tmp_in' tmp_out' n challenge out len).1 a)
  unfolding secure_sign
  secure_sign_reads_nonsecure tmp_in' tmp_out' m n challenge out len a sound g same k ns = (
    ground arith,
    ground (
      arith,
      sign_body_at tmp_in tmp_out m challenge out len a,
      sign_body_at tmp_in' tmp_out' n challenge out len a,
      λ (e : c.check challenge len (bit_or c.nonsecure c.mpu_read) ≡ true).
          sound challenge len e (offset out a),
      same (u32 (challenge + offset out a)),
      same a ns,
    ),
  )

-- After an accepted request on a memory of bytes, each output byte combined by exclusive or with
-- its challenge byte is the key byte of its index.
pub secure_sign_gives_key :
    (c : Cmse) (tmp_in tmp_out : ℕ → ℕ) (m : Memory) (challenge out len j : ℕ)
    → IsAccepted c challenge out len
    → IsBytes m
    → out < 2 ^ 32
    → j < len
    → bit_xor
        ((secure_sign c tmp_in tmp_out m challenge out len).1 (u32 (out + j)))
        (m (u32 (challenge + j)))
      ≡ key_byte j
secure_sign_gives_key c tmp_in tmp_out m challenge out len j h bytes g k =
    let at : offset out (u32 (out + j)) ≡ j = omega arith in
    rw (secure_sign_at c tmp_in tmp_out m challenge out len (u32 (out + j)) h g (omega arith), at)
      (ground (arith, keyed_key (m (u32 (challenge + j))) j (bytes _)))
