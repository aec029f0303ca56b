-- ===== src/Examples/TzAttack.antt =====
-- The adversary of minimal-tz signs into its own memory and then stores to it.
use rp2350_tz_tee.Prelude.{
  inl, ℕ, ◌+◌, ◌≤◌, ◌<◌, ◌≡◌, ◌∙◌, true, arith, refl, ◌&&◌, leb, if◌then◌else◌, List, [],
}
use rp2350_tz_tee.Hw.Sau.{nonsecure, attribution}
use rp2350_tz_tee.Prelude.Words.{u32}
use rp2350_tz_tee.Tz.Config.{tz_isolation_config}
use rp2350_tz_tee.Tz.Config.Attribution.{
  intended, intended_dma, dma_open-tz_isolation_config, attribution-tz_isolation_config,
}
use rp2350_tz_tee.Tz.Service.{secure_sign}
use rp2350_tz_tee.Tz.Service.Sign.{ChecksNonsecure}
use rp2350_tz_tee.Tz.Objects.{Objects}
use rp2350_tz_tee.Tz.Main.{System, readable}
use rp2350_tz_tee.Tz.Attack.{Reach, here, next, store, sign, stored, IsConfined, Reach-IsConfined}
use rp2350_tz_tee.Tz.Secrecy.{Action, Alike, play}
use rp2350_tz_tee.Tz.Secrecy.Play.{play-Alike}
use rp2350_tz_tee.Examples.Tz.{cmse, zeros, fives, after_reset, ppb_base, ppb_base-IsPpbBase}

abbrev isolated : System
isolated = record {
  chip = tz_isolation_config ppb_base 0 after_reset;
  accessctrl = zeros;
  world = record { mem = fives; s_counter = 0 };
}

ns_ram-readable : (a : ℕ) → 0x2004_0000 ≤ a → a < 0x2008_0000 → readable isolated a ≡ true
unfolding intended
ns_ram-readable a lo hi =
    let at : attribution (tz_isolation_config ppb_base 0 after_reset).sau a ≡ nonsecure =
      attribution-tz_isolation_config ppb_base 0 after_reset a ppb_base-IsPpbBase
        (refl, refl, refl, refl)
      ∙ ground arith in
    rw at refl

isolated-ChecksNonsecure : (access : ℕ) → ChecksNonsecure cmse (readable isolated) access
isolated-ChecksNonsecure access p len h j lt =
    ns_ram-readable (u32 (p + j)) (ground arith) (ground arith)

abbrev signed : System
signed = record isolated {
  world = record {
    mem = (secure_sign cmse zeros zeros fives 0x2004_0000 0x2004_0100 16).1;
    s_counter = 0;
  };
}

stored-Reach : Reach cmse isolated (stored signed 0x2004_0000 7)
stored-Reach =
    next (next here (sign zeros zeros 0x2004_0000 0x2004_0100 16 (omega arith) refl))
      (store 0x2004_0000 7 (ns_ram-readable 0x2004_0000 (omega arith) (omega arith)) refl)

abbrev objects : Objects
objects = record {
  key_at = 0x2000_0100;
  counter_at = 0x2000_0110;
  key_low = omega arith;
  key_high = omega arith;
  counter_low = omega arith;
  counter_high = omega arith;
  apart = inl (omega arith);
}

Reach-IsConfined_example : IsConfined objects isolated (stored signed 0x2004_0000 7)
Reach-IsConfined_example =
    Reach-IsConfined ppb_base 0 after_reset cmse objects isolated (stored signed 0x2004_0000 7)
      (omega arith) ppb_base-IsPpbBase (refl, refl, refl, refl) refl (isolated-ChecksNonsecure 1)
      stored-Reach

-- The same system with another Secure RAM.
abbrev hidden : System
hidden = record isolated {
  world = record {
    mem = λ a. if leb 0x2000_0000 a && leb a 0x2003_FFFF then 9 else 5;
    s_counter = 0;
  };
}

hidden-Alike : Alike isolated hidden
unfolding intended intended_dma
hidden-Alike = record {
  same_chip = refl;
  same_counter = refl;
  same_seen = λ a vis.
      let at =
        attribution-tz_isolation_config ppb_base 0 after_reset a ppb_base-IsPpbBase
          (refl, refl, refl, refl) in
      let dma = dma_open-tz_isolation_config ppb_base 0 after_reset a ppb_base-IsPpbBase in
      ground (arith, rw (at, dma) at vis);
}

-- The program that signs whatever it sees.
abbrev signs : List ℕ → (ℕ → ℕ) → Action
signs answers m = Action.sign 0x2004_0000 0x2004_0100 16

play-Alike_example :
    ((play cmse zeros zeros signs 2 [] isolated).0 ≡ (play cmse fives fives signs 2 [] hidden).0)
    × Alike
        (play cmse zeros zeros signs 2 [] isolated).1
        (play cmse fives fives signs 2 [] hidden).1
play-Alike_example =
    play-Alike ppb_base 0 after_reset cmse ppb_base-IsPpbBase (refl, refl, refl, refl) zeros zeros
      fives fives signs 2 [] isolated hidden refl (isolated-ChecksNonsecure 8)
      (isolated-ChecksNonsecure 1) hidden-Alike
