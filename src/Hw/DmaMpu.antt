-- ===== src/Hw/DmaMpu.antt =====
-- The DMA's own memory protection unit on the RP2350: `dma_hw->mpu_ctrl` and the eight
-- `dma_hw->mpu_region[]`, and which addresses they open to a Non-Secure channel.
use rp2350_tz_tee.Prelude.{
  ℕ, zero, suc, ◌+◌, ◌-◌, ◌/◌, ◌%◌, Bool, false, not, ◌&&◌, ◌||◌, leb, ◌≡◌, arith,
}
use rp2350_tz_tee.Prelude.{◌==◌}
use rp2350_tz_tee.Prelude.Maps.{update}

pub record DmaMpu : Type 0 where
  pub mpu_ctrl : ℕ
  pub bar : ℕ → ℕ
  pub lar : ℕ → ℕ

abbrev pub set_mpu_ctrl : ℕ → DmaMpu → DmaMpu
set_mpu_ctrl v d = record d { mpu_ctrl = v }

abbrev pub set_bar : ℕ → ℕ → DmaMpu → DmaMpu
set_bar n v d = record d { bar = update d.bar n v }

abbrev pub set_lar : ℕ → ℕ → DmaMpu → DmaMpu
set_lar n v d = record d { lar = update d.lar n v }

-- An enabled region (bit 0 of LAR) holds the addresses from its base to the end of the 32-byte
-- block of its limit.
unfoldable pub in_region : ℕ → ℕ → ℕ → Bool
in_region bar lar a = lar % 2 == 1 && leb (bar - bar % 32) a && leb a (lar - lar % 32 + 31)

-- Bit 2 of LAR keeps a region Secure; without it a Non-Secure channel may reach the region.
unfoldable pub open_below : DmaMpu → ℕ → ℕ → Bool
open_below d a zero = false
open_below d a (suc n) =
    open_below d a n || (in_region (d.bar n) (d.lar n) a && d.lar n / 4 % 2 == 0)

-- Whether one of the first `n` regions holds the address.
unfoldable pub held_below : DmaMpu → ℕ → ℕ → Bool
held_below d a zero = false
held_below d a (suc n) = held_below d a n || in_region (d.bar n) (d.lar n) a

-- Whether a Non-Secure channel may reach the address. Bit 2 of MPU_CTRL keeps what no region holds
-- Secure; without it all of that is open.
unfoldable pub dma_open : DmaMpu → ℕ → Bool
unfolding open_below held_below
dma_open d a = open_below d a 8 || (d.mpu_ctrl / 4 % 2 == 0 && not (held_below d a 8))

-- A region that is off, and one that is on from `base` to `limit` with P and EN.
pub open_off : (a : ℕ) → in_region 0 0 a ≡ false
unfolding in_region
open_off a = ground arith

pub open_span :
    (base limit a : ℕ)
    → base % 32 ≡ 0
    → limit % 32 ≡ 31
    → (in_region base (limit - 28) a && (limit - 28) / 4 % 2 == 0) ≡ (leb base a && leb a limit)
unfolding in_region
open_span base limit a h g = ground arith
