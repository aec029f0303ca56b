-- ===== src/Hw/Memory.antt =====
-- Byte memory behind 32-bit addresses, with the little-endian word accesses of both core types.
use rp2350_tz_tee.Prelude.{ℕ, zero, suc, ◌+◌, ◌*◌, ◌/◌, ◌%◌, ◌^◌, ◌≤◌, ◌<◌, ◌≡◌, ◌⊎◌, arith}
use rp2350_tz_tee.Prelude.Maps.{update}

abbrev pub Memory : Type 0
Memory = ℕ → ℕ

abbrev pub IsBytes : Memory → Type 0
IsBytes m = (a : ℕ) → m a < 256

unfoldable pub load32 : Memory → ℕ → ℕ
load32 m a = m a + 2 ^ 8 * m (a + 1) + 2 ^ 16 * m (a + 2) + 2 ^ 24 * m (a + 3)

unfoldable pub store32 : Memory → ℕ → ℕ → Memory
store32 m a v =
    update
      (update (update (update m a (v % 256)) (a + 1) (v / 2 ^ 8 % 256)) (a + 2) (v / 2 ^ 16 % 256))
      (a + 3) (v / 2 ^ 24 % 256)

pub load32-store32_self : (m : Memory) (a v : ℕ) → v < 2 ^ 32 → load32 (store32 m a v) a ≡ v
unfolding load32 store32
load32-store32_self m a v h = ground arith

pub load32-store32_apart :
    (m : Memory) (a b v : ℕ) → (a + 4 ≤ b) ⊎ (b + 4 ≤ a) → load32 (store32 m a v) b ≡ load32 m b
unfolding load32 store32
load32-store32_apart m a b v h = ground arith

-- A word store changes its four bytes only.
pub store32_outside : (m : Memory) (a b v : ℕ) → (b < a) ⊎ (a + 4 ≤ b) → store32 m a v b ≡ m b
unfolding store32
store32_outside m a b v h = ground arith

pub store32-IsBytes : (m : Memory) (a v : ℕ) → IsBytes m → IsBytes (store32 m a v)
unfolding store32
store32-IsBytes m a v h b = ground (arith, h b)

-- A word moved from `a` to `b` moves its four bytes.
pub store32-load32 :
    (m n : Memory) (a b j : ℕ) → IsBytes m → j < 4 → store32 n b (load32 m a) (b + j) ≡ m (a + j)
unfolding load32 store32
store32-load32 m n a b zero h lt = ground (arith, h a, h (a + 1), h (a + 2), h (a + 3))
store32-load32 m n a b (suc zero) h lt = ground (arith, h a, h (a + 1), h (a + 2), h (a + 3))
store32-load32 m n a b (suc (suc zero)) h lt = ground (arith, h a, h (a + 1), h (a + 2), h (a + 3))
store32-load32 m n a b (suc (suc (suc zero))) h lt =
    ground (arith, h a, h (a + 1), h (a + 2), h (a + 3))
store32-load32 m n a b (suc (suc (suc (suc j)))) h lt = absurd (omega arith)

pub load32-lt : (m : Memory) (a : ℕ) → IsBytes m → load32 m a < 2 ^ 32
unfolding load32
load32-lt m a bytes = omega (arith, bytes a, bytes (a + 1), bytes (a + 2), bytes (a + 3))

-- A word is made of its four bytes.
pub load32-cong :
    (m n : Memory) (a : ℕ) → ((b : ℕ) → a ≤ b → b < a + 4 → m b ≡ n b) → load32 m a ≡ load32 n a
unfolding load32
load32-cong m n a h = omega (
  arith,
  h a (omega arith) (omega arith),
  h (a + 1) (omega arith) (omega arith),
  h (a + 2) (omega arith) (omega arith),
  h (a + 3) (omega arith) (omega arith),
)
