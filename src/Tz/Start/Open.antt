-- ===== src/Tz/Start/Open.antt =====
-- Which registers of ACCESSCTRL the Secure start-up opens.
use rp2350_tz_tee.Prelude.{
  ℕ, zero, suc, ◌+◌, ◌-◌, ◌*◌, ◌%◌, ◌^◌, ◌≤◌, ◌<◌, ◌≡◌, ◌&&◌, ◌||◌, ◌==◌, leb, if◌then◌else◌, arith,
}
use rp2350_tz_tee.Prelude.Maps.{update}
use rp2350_tz_tee.Prelude.Words.{u32}
use rp2350_tz_tee.Tz.Start.{Accessctrl, ac_periph_last, open_from, tz_accessctrl_open_ns}

open_from_at :
    (fuel off : ℕ) (regs : ℕ → ℕ) (x : ℕ)
    → ac_periph_last + 4 < off + 4 * fuel
    → off < 2 ^ 31
    → open_from fuel off regs x
      ≡ (if leb off x && leb x ac_periph_last && (x - off) % 4 == 0 then 0xACCE_00FF else regs x)
unfolding open_from
open_from_at zero off regs x h g = ground arith
open_from_at (suc fuel) off regs x h g =
    let rest = open_from_at fuel (u32 (off + 4)) (update regs off 0xACCE_00FF) x in
    let next : u32 (off + 4) ≡ off + 4 = omega arith in ground (arith, rest, next)

-- With fuel for at least 55 rounds, `tz_accessctrl_open_ns` writes the password with all access
-- bits to exactly the registers at the offsets 0x14, 0x18, up to 0xE8; of the others it writes all
-- ones to the two GPIO masks and the reset command to CFGRESET, and nothing else.
pub tz_accessctrl_open_ns_at :
    (ac : Accessctrl) (fuel : ℕ) (regs : ℕ → ℕ) (x : ℕ)
    → 55 ≤ fuel
    → tz_accessctrl_open_ns ac fuel regs x ≡ (
        if leb 0x14 x && leb x 0xE8 && x % 4 == 0
        then 0xACCE_00FF
        else if x == ac.gpio_nsmask_0 || x == ac.gpio_nsmask_1
        then 0xFFFF_FFFF
        else if x == ac.cfgreset
        then 0xACCE_0001
        else regs x)
unfolding tz_accessctrl_open_ns
tz_accessctrl_open_ns_at ac fuel regs x h = ground (
  arith,
  open_from_at fuel 0x14
      (update (update (update regs ac.cfgreset 0xACCE_0001) ac.gpio_nsmask_0 0xFFFF_FFFF)
        ac.gpio_nsmask_1 0xFFFF_FFFF)
      x,
)
