-- ===== src/Tz/Service/Copy.antt =====
-- The copy loops of `secure_sign`, address by address.
use rp2350_tz_tee.Prelude.{ℕ, zero, suc, ◌+◌, ◌-◌, ◌^◌, ◌≤◌, ◌<◌, ◌≡◌, ◌&&◌, ltb, leb, arith}
use rp2350_tz_tee.Prelude.{if◌then◌else◌}
use rp2350_tz_tee.Prelude.Maps.{update}
use rp2350_tz_tee.Prelude.Words.{u32}
use rp2350_tz_tee.Hw.Memory.{Memory}
use rp2350_tz_tee.Tz.Secret.{keyed, secret_keyed_transform, secret_keyed_transform_at}
use rp2350_tz_tee.Tz.Service.{copy_in, copy_out, sign_body}

-- How far `a` lies behind `p`, round the end of the address space.
abbrev pub offset : ℕ → ℕ → ℕ
offset p a = u32 (a + 2 ^ 32 - p)

copy_in_at :
    (left i : ℕ) (m : Memory) (challenge : ℕ) (tmp : ℕ → ℕ) (j : ℕ)
    → copy_in left i m challenge tmp j
      ≡ (if leb i j && ltb j (i + left) then m (u32 (challenge + j)) else tmp j)
unfolding copy_in
copy_in_at zero i m challenge tmp j = ground arith
copy_in_at (suc left) i m challenge tmp j =
    ground (arith, copy_in_at left (i + 1) m challenge (update tmp i (m (u32 (challenge + i)))) j)

copy_out_at :
    (left i : ℕ) (tmp : ℕ → ℕ) (out : ℕ) (m : Memory) (a : ℕ)
    → i + left ≤ 2 ^ 32
    → out < 2 ^ 32
    → a < 2 ^ 32
    → copy_out left i tmp out m a
      ≡ (if leb i (offset out a) && ltb (offset out a) (i + left) then tmp (offset out a) else m a)
unfolding copy_out
copy_out_at zero i tmp out m a h g k = ground arith
copy_out_at (suc left) i tmp out m a h g k =
    ground (arith, copy_out_at left (i + 1) tmp out (update m (u32 (out + i)) (tmp i)) a)

-- The body of `secure_sign` at every address: inside `out[0..len)` the transformed byte of the
-- challenge as it was before the call, whether or not the buffers overlap, and outside no change.
pub sign_body_at :
    (tmp_in tmp_out : ℕ → ℕ) (m : Memory) (challenge out len a : ℕ)
    → len ≤ 2 ^ 32
    → out < 2 ^ 32
    → a < 2 ^ 32
    → sign_body tmp_in tmp_out m challenge out len a ≡ (
        if ltb (offset out a) len
        then keyed (m (u32 (challenge + offset out a))) (offset out a)
        else m a)
unfolding sign_body
sign_body_at tmp_in tmp_out m challenge out len a h g k =
    let tmp = copy_in len 0 m challenge tmp_in in
    ground (
      arith,
      copy_out_at len 0 (secret_keyed_transform tmp tmp_out len) out m a,
      secret_keyed_transform_at tmp tmp_out len (offset out a),
      copy_in_at len 0 m challenge tmp_in (offset out a),
    )
