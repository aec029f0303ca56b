-- ===== src/Prelude/Digits.antt =====
-- The bit operations by their lowest binary digit.
use Prim.Native.Nat.{ℕ, zero, suc, ◌+◌, ◌*◌, ◌/◌, ◌%◌, ◌≤◌, min, max, digits, differ}
use Prim.Native.Nat.{bit_and, bit_or, bit_xor, bit_and-bitwise, bit_or-bitwise, bit_xor-bitwise}
use mathlib.Core.Path.{◌≡◌, refl}
use native.Mathlib.Omega.{arith}

module _ (tail : ℕ → ℕ) (op : ℕ → ℕ → ℕ) where
  -- Two amounts of fuel that both cover the first argument give the same digits.
  digits_agree : (a b f g : ℕ) → a ≤ f → a ≤ g → digits tail op f a b ≡ digits tail op g a b
  digits_agree a b zero zero h k = refl
  digits_agree zero b zero (suc g) h k = refl
  digits_agree (suc a) b zero g h k = absurd (omega arith)
  digits_agree zero b (suc f) zero h k = refl
  digits_agree (suc a) b (suc f) zero h k = absurd (omega arith)
  digits_agree zero b (suc f) (suc g) h k = refl
  digits_agree (suc a) b (suc f) (suc g) h k =
      omega (arith, digits_agree (suc a / 2) (b / 2) f g (omega arith) (omega arith))

  digits_unfold :
      (a b : ℕ)
      → digits tail op (suc a) (suc a) b
        ≡ digits tail op (suc a / 2) (suc a / 2) (b / 2) * 2 + op (suc a % 2) (b % 2)
  digits_unfold a b =
      omega (arith, digits_agree (suc a / 2) (b / 2) a (suc a / 2) (omega arith) (omega arith))

pub bit_and_digit : (a b : ℕ) → bit_and a b ≡ bit_and (a / 2) (b / 2) * 2 + min (a % 2) (b % 2)
bit_and_digit zero b = omega (arith, bit_and-bitwise 0 b, bit_and-bitwise 0 (b / 2))
bit_and_digit (suc a) b = omega (
  arith,
  bit_and-bitwise (suc a) b,
  bit_and-bitwise (suc a / 2) (b / 2),
  digits_unfold (λ n. 0) min a b,
)

pub bit_or_digit : (a b : ℕ) → bit_or a b ≡ bit_or (a / 2) (b / 2) * 2 + max (a % 2) (b % 2)
bit_or_digit zero b = omega (arith, bit_or-bitwise 0 b, bit_or-bitwise 0 (b / 2))
bit_or_digit (suc a) b = omega (
  arith,
  bit_or-bitwise (suc a) b,
  bit_or-bitwise (suc a / 2) (b / 2),
  digits_unfold (λ n. n) max a b,
)

pub bit_xor_digit : (a b : ℕ) → bit_xor a b ≡ bit_xor (a / 2) (b / 2) * 2 + differ (a % 2) (b % 2)
bit_xor_digit zero b = omega (arith, bit_xor-bitwise 0 b, bit_xor-bitwise 0 (b / 2))
bit_xor_digit (suc a) b = omega (
  arith,
  bit_xor-bitwise (suc a) b,
  bit_xor-bitwise (suc a / 2) (b / 2),
  digits_unfold (λ n. n) differ a b,
)
