-- ===== src/Tz/Secret.antt =====
-- examples/minimal-tz/secure/secret.c and secret.h: the key, the counter and the transform.
use rp2350_tz_tee.Prelude.{ℕ, zero, suc, ◌+◌, ◌%◌, ◌^◌, ◌<◌, bit_xor}
use rp2350_tz_tee.Prelude.{◌≡◌, List, [], ◌∷◌, ◌&&◌, ltb, leb, arith, ◌≢◌}
use rp2350_tz_tee.Prelude.{if◌then◌else◌}
use rp2350_tz_tee.Prelude.Lists.{get_or, get_or-All}
use rp2350_tz_tee.Prelude.Maps.{update}
use rp2350_tz_tee.Prelude.Words.{u8, u32, xor-lt, xor_comm, xor_cancel}

abbrev pub secret_key_len : ℕ
secret_key_len = 16

abbrev pub s_key : List ℕ
s_key =
    0xA5 ∷ 0x5A ∷ 0xDE ∷ 0xAD ∷ 0xBE ∷ 0xEF ∷ 0x00 ∷ 0x11 ∷ 0x22 ∷ 0x33 ∷ 0x44 ∷ 0x55 ∷ 0x66 ∷ 0x77
    ∷ 0x88 ∷ 0x99 ∷ []

-- `s_key[i % SECRET_KEY_LEN]`
unfoldable pub key_byte : ℕ → ℕ
key_byte i = get_or s_key (i % secret_key_len) 0

-- `++s_counter`: the value is stored and returned.
unfoldable pub secret_next_counter : ℕ → ℕ
secret_next_counter s_counter = u32 (s_counter + 1)

-- The loop of `secret_keyed_transform` from index `i`, with `left` rounds to go, over the two
-- stack buffers of its caller.
unfoldable pub transform_from : ℕ → ℕ → (ℕ → ℕ) → (ℕ → ℕ) → ℕ → ℕ
transform_from zero i inp out = out
transform_from (suc left) i inp out =
    transform_from left (i + 1) inp (update out i (u8 (bit_xor (inp i) (key_byte i))))

unfoldable pub secret_keyed_transform : (ℕ → ℕ) → (ℕ → ℕ) → ℕ → ℕ → ℕ
unfolding transform_from
secret_keyed_transform inp out len = transform_from len 0 inp out

pub key_byte-lt : (i : ℕ) → key_byte i < 256
unfolding key_byte
key_byte-lt i = get_or-All (λ x. x < 256) s_key (i % secret_key_len) 0 (omega arith) (omega arith)

-- What `secret_keyed_transform` makes of a byte at index `j`.
abbrev pub keyed : ℕ → ℕ → ℕ
keyed x j = u8 (bit_xor x (key_byte j))

transform_from_at :
    (left i : ℕ) (inp out : ℕ → ℕ) (j : ℕ)
    → transform_from left i inp out j
      ≡ (if leb i j && ltb j (i + left) then keyed (inp j) j else out j)
unfolding transform_from
transform_from_at zero i inp out j = ground arith
transform_from_at (suc left) i inp out j =
    ground (arith, transform_from_at left (i + 1) inp (update out i (keyed (inp i) i)) j)

-- The transform writes the first `len` bytes and leaves the others.
pub secret_keyed_transform_at :
    (inp out : ℕ → ℕ) (len j : ℕ)
    → secret_keyed_transform inp out len j ≡ (if ltb j len then keyed (inp j) j else out j)
unfolding secret_keyed_transform
secret_keyed_transform_at inp out len j = ground (arith, transform_from_at len 0 inp out j)

-- The transform undoes itself: the plain byte and its image give the key away.
pub keyed_key : (x j : ℕ) → x < 256 → bit_xor (keyed x j) x ≡ key_byte j
keyed_key x j h =
    let small : bit_xor x (key_byte j) < 2 ^ 8 = xor-lt 8 x (key_byte j) h (key_byte-lt j) in
    let exact : keyed x j ≡ bit_xor x (key_byte j) = omega arith in
    rw (exact, xor_comm x (key_byte j)) (xor_cancel (key_byte j) x)

-- The value after `n` calls.
unfoldable pub counter_after : ℕ → ℕ → ℕ
counter_after zero s_counter = s_counter
counter_after (suc n) s_counter = counter_after n (secret_next_counter s_counter)

counter_after_at :
    (n s_counter : ℕ) → s_counter < 2 ^ 32 → counter_after n s_counter ≡ u32 (s_counter + n)
unfolding counter_after secret_next_counter
counter_after_at zero s_counter h = ground arith
counter_after_at (suc n) s_counter h =
    ground (arith, counter_after_at n (secret_next_counter s_counter))

-- From a 32-bit start, the values after i and after j > i calls of `secret_next_counter` differ if
-- j - i is below 2 ^ 32, increase while the sum of start and j stays below 2 ^ 32, and agree again
-- if j - i is 2 ^ 32.
pub counter_after_distinct :
    (i j s_counter : ℕ)
    → s_counter < 2 ^ 32
    → i < j
    → (j < i + 2 ^ 32 → counter_after i s_counter ≢ counter_after j s_counter)
      × (s_counter + j < 2 ^ 32 → counter_after i s_counter < counter_after j s_counter)
      × (j ≡ i + 2 ^ 32 → counter_after i s_counter ≡ counter_after j s_counter)
counter_after_distinct i j s_counter h lt =
    ground (arith, counter_after_at i s_counter h, counter_after_at j s_counter h)
