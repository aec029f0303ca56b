-- ===== src/Hw/Sau.antt =====
-- The Security Attribution Unit of ARMv8-M: its registers as `SAU->...` reaches them, and the
-- architecture's rule for the attribution of an address.
use rp2350_tz_tee.Prelude.{
  ℕ, zero, suc, ◌+◌, ◌-◌, ◌/◌, ◌%◌, ◌≡◌, arith, Bool, true, false, ◌&&◌, leb, ◌==◌,
}
use rp2350_tz_tee.Prelude.{if◌then◌else◌}
use rp2350_tz_tee.Prelude.Maps.{update}

-- RBAR and RLAR are banked: RNR selects the region that an access reaches.
pub record Sau : Type 0 where
  pub rnr : ℕ
  pub rbar : ℕ → ℕ
  pub rlar : ℕ → ℕ
  pub ctrl : ℕ

abbrev pub set_rnr : ℕ → Sau → Sau
set_rnr n s = record s { rnr = n }

abbrev pub set_rbar : ℕ → Sau → Sau
set_rbar v s = record s { rbar = update s.rbar s.rnr v }

abbrev pub set_rlar : ℕ → Sau → Sau
set_rlar v s = record s { rlar = update s.rlar s.rnr v }

abbrev pub set_ctrl : ℕ → Sau → Sau
set_ctrl v s = record s { ctrl = v }

pub data Attribution : Type 0 where
  secure nonsecure callable : Attribution

-- How many enabled regions hold an address; of a single one, whether it is Non-Secure-Callable.
pub data Hit : Type 0 where
  miss : Hit
  once : (nsc : Bool) → Hit
  many : Hit

-- A region spans from its base to the last byte of the 32-byte block of its limit.
unfoldable pub region_hit : ℕ → ℕ → ℕ → Hit
region_hit rbar rlar a =
    if rlar % 2 == 1 && leb (rbar - rbar % 32) a && leb a (rlar - rlar % 32 + 31)
    then once (rlar / 2 % 2 == 1)
    else miss

unfoldable pub merge : Hit → Hit → Hit
merge miss h = h
merge h miss = h
merge _ _ = many

-- The regions below `n`.
unfoldable pub hits : Sau → ℕ → ℕ → Hit
hits s a zero = miss
hits s a (suc n) = merge (hits s a n) (region_hit (s.rbar n) (s.rlar n) a)

unfoldable pub of_hit : Hit → Attribution
of_hit miss = secure
of_hit (once false) = nonsecure
of_hit (once true) = callable
of_hit many = secure

-- With the unit off, ALLNS decides. With it on, one matching region of the eight decides, and no
-- match or several make the address Secure.
unfoldable pub attribution : Sau → ℕ → Attribution
unfolding of_hit hits merge
attribution s a =
    if s.ctrl % 2 == 1
    then of_hit (hits s a 8)
    else if s.ctrl / 2 % 2 == 1
    then nonsecure
    else secure

-- With the unit on, the matching regions decide.
pub attribution_on : (s : Sau) (a : ℕ) → s.ctrl % 2 ≡ 1 → attribution s a ≡ of_hit (hits s a 8)
unfolding attribution
attribution_on s a h = ground arith

-- A region that is off, and one that is on from `base` to `limit`, without and with the NSC bit.
pub region_hit_off : (rbar rlar a : ℕ) → rlar % 2 ≡ 0 → region_hit rbar rlar a ≡ miss
unfolding region_hit
region_hit_off rbar rlar a h = ground arith

pub region_hit_nonsecure :
    (base limit a : ℕ)
    → base % 32 ≡ 0
    → limit % 32 ≡ 31
    → region_hit base (limit - 30) a ≡ (if leb base a && leb a limit then once false else miss)
unfolding region_hit
region_hit_nonsecure base limit a h g = ground arith

pub region_hit_callable :
    (base limit a : ℕ)
    → base % 32 ≡ 0
    → limit % 32 ≡ 31
    → region_hit base (limit - 28) a ≡ (if leb base a && leb a limit then once true else miss)
unfolding region_hit
region_hit_callable base limit a h g = ground arith
