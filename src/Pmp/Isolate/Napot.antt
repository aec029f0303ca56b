-- ===== src/Pmp/Isolate/Napot.antt =====
-- The address ranges that the PMP entries of main.c stand for.
use rp2350_tz_tee.Prelude.{ℕ, zero, suc, ◌+◌, ◌-◌, ◌*◌, ◌/◌, ◌%◌, ◌^◌, ◌≤◌, ◌<◌, ◌≡◌, ◌↔◌, arith}
use rp2350_tz_tee.Prelude.{◌==◌, ◌⊎◌, true, ap}
use rp2350_tz_tee.Prelude.Words.{bit_or_disjoint}
use rp2350_tz_tee.Hw.Pmp.{
  Pmp, machine, user, Access, trailing_ones, granular, napot_match, pmp_allows,
}
use rp2350_tz_tee.Pmp.Isolate.{pmp_napot, pmp_isolate_secret}
use native.Mathlib.Nat.{pow-suc, one-le-pow}
use native.Mathlib.Numerals.{towards_suc}

-- The powers that meet in the proofs, by the one of the block's words.
record Powers (n q : ℕ) : Type 0 where
  pos : 1 ≤ 2 ^ n
  one : 2 ^ suc n ≡ 2 * 2 ^ n
  two : 2 ^ suc (suc n) ≡ 4 * 2 ^ n
  one' : 2 ^ (n + 1) ≡ 2 * 2 ^ n
  three : 2 ^ (n + 3) ≡ 8 * 2 ^ n
  times_one : q * 2 ^ suc n ≡ 2 * (q * 2 ^ n)
  times_two : q * 2 ^ suc (suc n) ≡ 4 * (q * 2 ^ n)
  times_three : q * 2 ^ (n + 3) ≡ 8 * (q * 2 ^ n)

powers : (n q : ℕ) → Powers n q
powers n q =
    let one : 2 ^ suc n ≡ 2 * 2 ^ n = omega (arith, pow-suc 2 n) in
    let two : 2 ^ suc (suc n) ≡ 4 * 2 ^ n = omega (arith, pow-suc 2 n, pow-suc 2 (suc n)) in
    let three : 2 ^ (n + 3) ≡ 8 * 2 ^ n = simp towards_suc (omega arith) in
    record {
      pos = one-le-pow n 2 (omega arith);
      one = one;
      two = two;
      one' = simp towards_suc (omega arith);
      three = three;
      times_one = omega (arith, ap (λ (t : ℕ). q * t) one);
      times_two = omega (arith, ap (λ (t : ℕ). q * t) two);
      times_three = omega (arith, ap (λ (t : ℕ). q * t) three);
    }

trailing_ones_block : (n fuel q : ℕ) → n < fuel → trailing_ones fuel (q * 2 ^ suc n + 2 ^ n - 1) ≡ n
unfolding trailing_ones
trailing_ones_block zero zero q h = absurd (omega arith)
trailing_ones_block zero (suc fuel) q h = ground arith
trailing_ones_block (suc n) zero q h = absurd (omega arith)
trailing_ones_block (suc n) (suc fuel) q h =
    let half : (q * 2 ^ suc (suc n) + 2 ^ suc n - 1) / 2 ≡ q * 2 ^ suc n + 2 ^ n - 1 =
      omega (arith, powers n q) in
    rw half (ground (arith, powers n q, trailing_ones_block n fuel q (omega arith)))

napot_word :
    (n q : ℕ)
    → (q + 1) * 2 ^ (n + 3) ≤ 2 ^ 32
    → pmp_napot (q * 2 ^ (n + 3)) (2 ^ (n + 3)) ≡ q * 2 ^ suc n + 2 ^ n - 1
unfolding pmp_napot
napot_word n q h =
    let base : q * 2 ^ (n + 3) / 4 ≡ q * 2 ^ suc n = omega (arith, powers n q) in
    let low : (2 ^ (n + 3) / 8 + 4294967296 - 1) % 4294967296 ≡ 2 ^ n - 1 =
      omega (arith, powers n q) in
    rw (base, low, bit_or_disjoint (suc n) q (2 ^ n - 1) (omega (arith, powers n q)))
      (omega (arith, powers n q))

div_block : (q d r : ℕ) → r < d → (q * d + r) / d ≡ q
div_block q d r h = grind arith

block_quotient : (n q : ℕ) → (q * 2 ^ suc n + 2 ^ n - 1) / 2 ^ (n + 1) ≡ q
block_quotient n q =
    let split : q * 2 ^ suc n + 2 ^ n - 1 ≡ q * 2 ^ suc n + (2 ^ n - 1) =
      omega (arith, powers n q) in
    let same : 2 ^ (n + 1) ≡ 2 ^ suc n = omega (arith, powers n q) in
    rw (split, same) (div_block q (2 ^ suc n) (2 ^ n - 1) (omega (arith, powers n q)))

block_iff : (a q s : ℕ) → 0 < s → ((a / s == q) ≡ true) ↔ ((q * s ≤ a) × (a < (q + 1) * s))
block_iff a q s h = grind arith

-- A word for a block of the granule or more has its two low bits set.
granular_word : (n q : ℕ) → 2 ≤ n → granular (q * 2 ^ suc n + 2 ^ n - 1) ≡ q * 2 ^ suc n + 2 ^ n - 1
granular_word zero q h = absurd (omega arith)
granular_word (suc zero) q h = absurd (omega arith)
granular_word (suc (suc k)) q h =
    omega (arith, powers k q, powers (suc (suc k)) q, powers (suc k) q)

-- For a naturally aligned block of 2 ^ (n + 3) bytes, n from 2 (32 bytes, the granule of this PMP)
-- up to 28, within the 32-bit address space, the word that `pmp_napot` makes matches exactly the
-- addresses of the block.
pub napot_match-pmp_napot :
    (n q a : ℕ)
    → 2 ≤ n
    → n ≤ 28
    → (q + 1) * 2 ^ (n + 3) ≤ 2 ^ 32
    → (napot_match (pmp_napot (q * 2 ^ (n + 3)) (2 ^ (n + 3))) a ≡ true)
      ↔ ((q * 2 ^ (n + 3) ≤ a) × (a < (q + 1) * 2 ^ (n + 3)))
unfolding napot_match
napot_match-pmp_napot n q a large small h =
    rw
      (
        napot_word n q h,
        granular_word n q large,
        trailing_ones_block n 32 q (omega arith),
        block_quotient n q,
      )
      (block_iff a q (2 ^ (n + 3)) (omega (arith, powers n q)))

pub napot_prot :
    (g a : ℕ)
    → g % 64 ≡ 0
    → g + 64 ≤ 2 ^ 32
    → (napot_match (pmp_napot g 64) a ≡ true) ↔ ((g ≤ a) × (a < g + 64))
napot_prot g a al fits =
    let whole : g / 64 * 64 ≡ g = omega arith in
    let next : (g / 64 + 1) * 64 ≡ g + 64 = omega arith in
    rw (whole, next) at
      (napot_match-pmp_napot 3 (g / 64) a (omega arith) (omega arith) (omega arith))

-- All ones stand for the whole address space.
pub napot_all : (a : ℕ) → a < 2 ^ 32 → napot_match 0xFFFF_FFFF a ≡ true
unfolding napot_match trailing_ones
napot_all a h = ground arith

-- After `pmp_isolate_secret` with a 64-byte aligned region below the top of the address space,
-- U-mode may access a 32-bit address, in any way, exactly if it lies outside the region, and
-- M-mode may access every address.
pub pmp_isolate_secret_lem :
    (g a : ℕ) (p : Pmp) (k : Access)
    → g % 64 ≡ 0
    → g + 64 ≤ 2 ^ 32
    → a < 2 ^ 32
    → ((pmp_allows (pmp_isolate_secret g p) user k a ≡ true) ↔ ((a < g) ⊎ (g + 64 ≤ a)))
      × (pmp_allows (pmp_isolate_secret g p) machine k a ≡ true)
unfolding pmp_allows pmp_isolate_secret
pmp_isolate_secret_lem g a p k al fits h = ground (arith, napot_prot g a, napot_all a)
