-- ===== src/Prelude/Words.antt =====
-- Facts about `&`, `|` and `^` at variables, as arithmetic.
use Prim.Native.Nat.{ℕ, zero, suc, ◌+◌, ◌-◌, ◌*◌, ◌/◌, ◌%◌, ◌^◌, ◌≤◌, ◌<◌, differ}
use Prim.Native.Nat.{bit_and, bit_or, bit_xor}
use mathlib.Core.Path.{◌≡◌, refl, sym, ap, ◌∙◌}
use native.Mathlib.Nat.{pow-suc, pow-succ', one-le-pow, mul_comm, div-div-eq-div-mul, div-add-mod'}
use native.Mathlib.Omega.{arith}
use rp2350_tz_tee.Prelude.Digits.{bit_and_digit, bit_or_digit, bit_xor_digit}

abbrev pub u8 : ℕ → ℕ
u8 n = n % 256

abbrev pub u32 : ℕ → ℕ
u32 n = n % 2 ^ 32

bit_and-zero_bound : (fuel a : ℕ) → a ≤ fuel → bit_and a 0 ≡ 0
bit_and-zero_bound zero a h = let e : a ≡ 0 = omega arith in rw e
bit_and-zero_bound (suc fuel) a h =
    omega (arith, bit_and_digit a 0, bit_and-zero_bound fuel (a / 2) (omega arith))

pub bit_and-zero : (a : ℕ) → bit_and a 0 ≡ 0
bit_and-zero a = bit_and-zero_bound a a (omega arith)

bit_or-zero_bound : (fuel a : ℕ) → a ≤ fuel → bit_or a 0 ≡ a
bit_or-zero_bound zero a h = let e : a ≡ 0 = omega arith in rw e
bit_or-zero_bound (suc fuel) a h =
    omega (arith, bit_or_digit a 0, bit_or-zero_bound fuel (a / 2) (omega arith))

pub bit_or-zero : (a : ℕ) → bit_or a 0 ≡ a
bit_or-zero a = bit_or-zero_bound a a (omega arith)

mul-pow-suc : (q k : ℕ) → q * 2 ^ suc k ≡ 2 * (q * 2 ^ k)
mul-pow-suc q k = omega (arith, ap (λ (t : ℕ). q * t) (pow-suc 2 k))

-- `|` of a multiple of `2 ^ k` and a number below `2 ^ k` is their sum.
pub bit_or_disjoint : (k q r : ℕ) → r < 2 ^ k → bit_or (q * 2 ^ k) r ≡ q * 2 ^ k + r
bit_or_disjoint zero q r h = let e : r ≡ 0 = omega arith in rw e (bit_or-zero (q * 1) ∙ omega arith)
bit_or_disjoint (suc k) q r h =
    let half : q * 2 ^ suc k ≡ 2 * (q * 2 ^ k) = mul-pow-suc q k in
    let even : q * 2 ^ suc k / 2 ≡ q * 2 ^ k = omega arith in
    bit_or_digit (q * 2 ^ suc k) r
    ∙ rw even (omega (arith, pow-suc 2 k, bit_or_disjoint k q (r / 2) (omega (arith, pow-suc 2 k))))

mod_double : (a p : ℕ) → 0 < p → a % (2 * p) ≡ a / 2 % p * 2 + a % 2
mod_double a p h = grind arith

-- `& (2 ^ k - 1)` is the remainder by `2 ^ k`.
pub bit_and_low : (k a : ℕ) → bit_and a (2 ^ k - 1) ≡ a % 2 ^ k
bit_and_low zero a = bit_and-zero a ∙ omega arith
bit_and_low (suc k) a =
    let pos : 1 ≤ 2 ^ k = one-le-pow k 2 (omega arith) in
    let mask : (2 ^ suc k - 1) / 2 ≡ 2 ^ k - 1 = omega (arith, pow-suc 2 k) in
    bit_and_digit a (2 ^ suc k - 1)
    ∙ rw (mask, bit_and_low k (a / 2))
        (omega (
          arith,
          pow-suc 2 k,
          mod_double a (2 ^ k) (one-le-pow k 2 (omega arith)),
          ap (λ (t : ℕ). a % t) (pow-suc 2 k),
          ap (λ (t : ℕ). a % t) (mul_comm (2 ^ k) 2),
        ))

halve_power : (a k : ℕ) → a / 2 / 2 ^ k ≡ a / 2 ^ suc k
halve_power a k = div-div-eq-div-mul a 2 (2 ^ k) ∙ ap (λ (t : ℕ). a / t) (sym (pow-succ' 2 k))

-- A mask with `k` low zeros acts on the digits above them.
pub bit_and_high : (k a m : ℕ) → bit_and a (m * 2 ^ k) ≡ bit_and (a / 2 ^ k) m * 2 ^ k
bit_and_high zero a m =
    rw ((let e : m * 1 ≡ m = omega arith in e), (let e : a / 1 ≡ a = omega arith in e))
      (omega arith)
bit_and_high (suc k) a m =
    let half : m * 2 ^ suc k ≡ 2 * (m * 2 ^ k) = mul-pow-suc m k in
    let even : m * 2 ^ suc k / 2 ≡ m * 2 ^ k = omega arith in
    bit_and_digit a (m * 2 ^ suc k)
    ∙ rw even (
        omega (
          arith,
          bit_and_high k (a / 2) m,
          mul-pow-suc (bit_and (a / 2 ^ suc k) m) k,
          ap (λ (t : ℕ). bit_and t m * 2 ^ k) (halve_power a k),
        ))

-- `& ~0x1F` on 32 bits clears the low five.
pub align_down : (a : ℕ) → a < 2 ^ 32 → bit_and a 0xFFFF_FFE0 ≡ a - a % 32
align_down a h = omega (arith, bit_and_high 5 a 0x7FF_FFFF, bit_and_low 27 (a / 32))

-- Flags set by `|` on a word whose low `k` bits are clear.
pub or_low : (k a f : ℕ) → a % 2 ^ k ≡ 0 → f < 2 ^ k → bit_or a f ≡ a + f
or_low k a f e h =
    let whole : a / 2 ^ k * 2 ^ k ≡ a = omega (arith, div-add-mod' a (2 ^ k)) in
    rw whole at (bit_or_disjoint k (a / 2 ^ k) f h)

-- The second flag bit, above the first.
pub or_two : (a : ℕ) → a % 4 ≡ 0 → bit_or (a + 1) 2 ≡ a + 3
or_two a h =
    omega (arith, bit_or_digit (a + 1) 2, or_low 1 ((a + 1) / 2) 1 (omega arith) (omega arith))

differ_bits : (a b : ℕ) → a ≤ 1 → b ≤ 1 → differ a b ≡ (a + b) % 2
differ_bits zero zero h k = refl
differ_bits zero (suc b) h k = omega arith
differ_bits (suc a) zero h k = omega arith
differ_bits (suc a) (suc b) h k =
    let e : a ≡ 0 = omega arith in let d : b ≡ 0 = omega arith in rw (e, d)

differ_digits : (a b : ℕ) → differ (a % 2) (b % 2) ≡ (a % 2 + b % 2) % 2
differ_digits a b = differ_bits (a % 2) (b % 2) (omega arith) (omega arith)

xor_cancel_bound : (fuel a b : ℕ) → a ≤ fuel → b ≤ fuel → bit_xor (bit_xor a b) b ≡ a
xor_cancel_bound zero a b h k =
    let e : a ≡ 0 = omega arith in let g : b ≡ 0 = omega arith in rw (e, g)
xor_cancel_bound (suc fuel) a b h k =
    let high : bit_xor a b / 2 ≡ bit_xor (a / 2) (b / 2) =
      omega (arith, bit_xor_digit a b, differ_digits a b) in
    bit_xor_digit (bit_xor a b) b
    ∙ rw high (
        omega (
          arith,
          bit_xor_digit a b,
          differ_digits a b,
          differ_digits (bit_xor a b) b,
          xor_cancel_bound fuel (a / 2) (b / 2) (omega arith) (omega arith),
        ))

-- `^` by the same word twice gives the first word back.
pub xor_cancel : (a b : ℕ) → bit_xor (bit_xor a b) b ≡ a
xor_cancel a b = xor_cancel_bound (a + b) a b (omega arith) (omega arith)

or_comm_bound : (fuel a b : ℕ) → a ≤ fuel → b ≤ fuel → bit_or a b ≡ bit_or b a
or_comm_bound zero a b h k = let e : a ≡ 0 = omega arith in let g : b ≡ 0 = omega arith in rw (e, g)
or_comm_bound (suc fuel) a b h k = omega (
  arith,
  bit_or_digit a b,
  bit_or_digit b a,
  or_comm_bound fuel (a / 2) (b / 2) (omega arith) (omega arith),
)

pub or_comm : (a b : ℕ) → bit_or a b ≡ bit_or b a
or_comm a b = or_comm_bound (a + b) a b (omega arith) (omega arith)

xor_comm_bound : (fuel a b : ℕ) → a ≤ fuel → b ≤ fuel → bit_xor a b ≡ bit_xor b a
xor_comm_bound zero a b h k =
    let e : a ≡ 0 = omega arith in let g : b ≡ 0 = omega arith in rw (e, g)
xor_comm_bound (suc fuel) a b h k = omega (
  arith,
  bit_xor_digit a b,
  bit_xor_digit b a,
  differ_digits a b,
  differ_digits b a,
  xor_comm_bound fuel (a / 2) (b / 2) (omega arith) (omega arith),
)

pub xor_comm : (a b : ℕ) → bit_xor a b ≡ bit_xor b a
xor_comm a b = xor_comm_bound (a + b) a b (omega arith) (omega arith)

pub xor-lt : (k a b : ℕ) → a < 2 ^ k → b < 2 ^ k → bit_xor a b < 2 ^ k
xor-lt zero a b h g =
    let e : a ≡ 0 = omega arith in let d : b ≡ 0 = omega arith in rw (e, d) (omega arith)
xor-lt (suc k) a b h g = omega (
  arith,
  bit_xor_digit a b,
  differ_digits a b,
  pow-suc 2 k,
  xor-lt k (a / 2) (b / 2) (omega (arith, pow-suc 2 k)) (omega (arith, pow-suc 2 k)),
)
