-- ===== src/Tz/Client/Reset.antt =====
-- What the Non-Secure reset handler clears, and that its loop ends.
use rp2350_tz_tee.Prelude.{
  ℕ, zero, suc, ◌+◌, ◌-◌, ◌*◌, ◌%◌, ◌^◌, ◌≤◌, ◌<◌, ◌≡◌, ◌&&◌, arith, leb, ltb, if◌then◌else◌,
}
use rp2350_tz_tee.Prelude.Words.{u32}
use rp2350_tz_tee.Hw.Memory.{Memory, store32}
use rp2350_tz_tee.Tz.Client.{clear_bss}

zeroed : (m : Memory) (p a : ℕ) → store32 m p 0 a ≡ (if leb p a && ltb a (p + 4) then 0 else m a)
unfolding store32
zeroed m p a = ground arith

-- With fuel for the words from `bss_start` to `bss_end`, a whole number of them below the top of
-- the address space, the loop of `ns_reset` has ended with every byte between the two zero and
-- every other byte as it was.
pub clear_bss_at :
    (fuel p bss_end a : ℕ) (m : Memory)
    → p ≤ bss_end
    → (bss_end - p) % 4 ≡ 0
    → bss_end + 4 ≤ 2 ^ 32
    → bss_end ≤ p + 4 * fuel
    → clear_bss fuel p bss_end m a ≡ (if leb p a && ltb a bss_end then 0 else m a)
unfolding clear_bss
clear_bss_at zero p bss_end a m le al fits h = ground arith
clear_bss_at (suc fuel) p bss_end a m le al fits h =
    let next : p < bss_end → u32 (p + 4) ≡ p + 4 = (λ lt. omega arith) in
    ground (arith, next, zeroed m p a, clear_bss_at fuel (u32 (p + 4)) bss_end a (store32 m p 0))
