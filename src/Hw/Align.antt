-- ===== src/Hw/Align.antt =====
-- `ALIGN` as the linker documents it.
use rp2350_tz_tee.Prelude.{ℕ, ◌+◌, ◌-◌, ◌*◌, ◌/◌, ◌%◌, ◌≤◌, ◌<◌, ◌≡◌, arith, ap, sym, ◌∙◌}
use native.Mathlib.Nat.{mul_assoc, div-add-mod', mod-lt, mul-add-div_right, div-eq_of_lt}

-- The first multiple of `k` from `n` on.
unfoldable pub align_up : ℕ → ℕ → ℕ
align_up n k = (n + k - 1) / k * k

pub align_up-le : (n k : ℕ) → 0 < k → n ≤ align_up n k
unfolding align_up
align_up-le n k h = omega (arith, div-add-mod' (n + k - 1) k, mod-lt (n + k - 1) h)

pub align_up_word : (n : ℕ) → align_up n 4 % 4 ≡ 0
unfolding align_up
align_up_word n = omega arith

-- A multiple of a multiple of 32 is one.
pub align_up_block : (n k : ℕ) → k % 32 ≡ 0 → align_up n k % 32 ≡ 0
unfolding align_up
align_up_block n k h =
    let q = (n + k - 1) / k in
    let whole : k ≡ k / 32 * 32 = omega arith in
    let e : q * k ≡ q * (k / 32) * 32 =
      ap (λ (t : ℕ). q * t) whole ∙ sym (mul_assoc q (k / 32) 32) in
    omega (arith, e)

-- A multiple stays where it is.
pub align_up_same : (n k : ℕ) → 0 < k → n % k ≡ 0 → align_up n k ≡ n
unfolding align_up
align_up_same n k h at =
    let whole : n ≡ n / k * k = omega (arith, div-add-mod' n k) in
    let split : n + k - 1 ≡ n / k * k + (k - 1) = omega arith in
    let up : (n / k * k + (k - 1)) / k ≡ n / k =
      mul-add-div_right h (n / k) (k - 1)
      ∙ omega (arith, div-eq_of_lt {n = k - 1} {m = k} (omega arith)) in
    rw (split, up) (sym whole)

-- A section that starts and ends on the alignment.
pub section-le : (n k size : ℕ) → 0 < k → n ≤ align_up (align_up n k + size) k
section-le n k size h = omega (arith, align_up-le n k h, align_up-le (align_up n k + size) k h)

-- What the order and the blocks of a linked image follow from.
pub ruleset align_rules = (align_up-le, align_up_word, align_up_block, section-le)
