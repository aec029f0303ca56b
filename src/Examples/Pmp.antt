-- ===== src/Examples/Pmp.antt =====
-- The theorems on examples/minimal-pmp with its objects at concrete addresses.
use rp2350_tz_tee.Prelude.{ℕ, ◌+◌, ◌*◌, ◌%◌, ◌^◌, ◌≤◌, ◌<◌, ◌≡◌, ◌↔◌, ◌⊎◌, inl, inr, true, false}
use rp2350_tz_tee.Prelude.{arith, refl, ltb, bit_xor, if◌then◌else◌}
use rp2350_tz_tee.Prelude.Maps.{update}
use rp2350_tz_tee.Prelude.Words.{u8}
use rp2350_tz_tee.Hw.Memory.{Memory}
use rp2350_tz_tee.Hw.Pmp.{Pmp, machine, user, read, write, napot_match, pmp_allows}
use rp2350_tz_tee.Pmp.Link.{Link, IsLinked, IsStacked, key}
use rp2350_tz_tee.Pmp.Isolate.{pmp_napot, pmp_isolate_secret}
use rp2350_tz_tee.Pmp.Isolate.Napot.{napot_match-pmp_napot, pmp_isolate_secret_lem}
use rp2350_tz_tee.Pmp.Sign.{svc_sign}
use rp2350_tz_tee.Pmp.Sign.Guard.{offset, IsProtected, IsClear, svc_sign_at}
use rp2350_tz_tee.Pmp.Trap.{Hart, Frame}
use rp2350_tz_tee.Pmp.Trap.Services.{IsSecret}
use rp2350_tz_tee.Pmp.Attack.{Reach, here, next, store, Reach-isolated}

abbrev pub link : Link
link = record {
  g_mb = 0x2007_0000;
  g_prot = 0x2000_1000;
  g_stage = 0x2000_0800;
  stack_top = 0x2000_0600;
  challenge = 0x2000_3000;
  trap_entry_at = 0x1000_0400;
  u_mode_entry_at = 0x1000_0500;
}

pub link-IsLinked : IsLinked link
link-IsLinked = record {
  aligned = refl;
  low = omega arith;
  high = omega arith;
  mb_fits = omega arith;
  stage_fits = omega arith;
  mb_prot = inr (omega arith);
  stage_prot = inl (omega arith);
  mb_stage_apart = inr (omega arith);
}

pub link-IsStacked : IsStacked link
link-IsStacked = record {
  stack_low = omega arith;
  stack_high = omega arith;
  stack_prot = inl (omega arith);
  stack_mb = inl (omega arith);
  stack_stage = inl (omega arith);
}

abbrev pub pmp_reset : Pmp
pmp_reset = record { pmpaddr = λ n. 0; pmpcfg0 = 0; pmpcfgm0 = 0 }

napot_match-pmp_napot_example :
    (napot_match (pmp_napot (0x80_0040 * 2 ^ (3 + 3)) (2 ^ (3 + 3))) 0x2000_1010 ≡ true)
    ↔ ((0x80_0040 * 2 ^ (3 + 3) ≤ 0x2000_1010) × (0x2000_1010 < (0x80_0040 + 1) * 2 ^ (3 + 3)))
napot_match-pmp_napot_example =
    napot_match-pmp_napot 3 0x80_0040 0x2000_1010 (omega arith) (omega arith) (omega arith)

pmp_isolate_secret_example :
    ((pmp_allows (pmp_isolate_secret 0x2000_1000 pmp_reset) user read 0x2000_1000 ≡ true)
      ↔ ((0x2000_1000 < 0x2000_1000) ⊎ (0x2000_1000 + 64 ≤ 0x2000_1000)))
    × (pmp_allows (pmp_isolate_secret 0x2000_1000 pmp_reset) machine read 0x2000_1000 ≡ true)
pmp_isolate_secret_example =
    pmp_isolate_secret_lem 0x2000_1000 0x2000_1000 pmp_reset read refl (omega arith) (omega arith)

abbrev pub zeros : Memory
zeros a = 0

svc_sign_at_example :
    (4 ≤ 64
      → IsClear link 0x2000_2000 4
      → svc_sign link zeros 0x2000_2000 4 0x2000_2001 ≡ (
          if ltb (offset 0x2000_2000 0x2000_2001) 4
          then u8
              (bit_xor (zeros 0x2000_2001) (zeros (key link + offset 0x2000_2000 0x2000_2001 % 16)))
          else zeros 0x2000_2001))
    × (¬ IsClear link 0x2000_2000 4
        → svc_sign link zeros 0x2000_2000 4 0x2000_2001 ≡ zeros 0x2000_2001)
    × (64 < 4 → svc_sign link zeros 0x2000_2000 4 0x2000_2001 ≡ zeros 0x2000_2001)
svc_sign_at_example =
    svc_sign_at link zeros 0x2000_2000 4 0x2000_2001 link-IsLinked (omega arith) (omega arith)

-- The registers of a request for the signature of four bytes.
abbrev pub request : Frame
request = record {
  a0 = 0x2000_2000;
  a1 = 4;
  a2 = 0;
  a3 = 0;
  a4 = 0;
  a5 = 0;
  a6 = 0;
  a7 = 1;
  t0 = 0;
  t1 = 0;
  t2 = 0;
  t3 = 0;
  t4 = 0;
  t5 = 0;
  t6 = 0;
  ra = 0;
}

-- A hart that has trapped with the given cause, on a memory.
abbrev pub trapped_with : ℕ → Memory → Hart
trapped_with cause m = record {
  mem = m;
  pmp = pmp_isolate_secret 0x2000_1000 pmp_reset;
  mcause = cause;
  mepc = 0x1000_0200;
  mtval = 0x2000_1000;
}

-- U-mode stores a byte outside the protected region.
abbrev stored : Hart
stored = record (trapped_with 8 zeros) { mem = update zeros 0x2000_2000 7 }

stored-Reach : Reach link (trapped_with 8 zeros) stored
stored-Reach =
    let allowed : pmp_allows (pmp_isolate_secret 0x2000_1000 pmp_reset) user write 0x2000_2000
        ≡ true =
      (pmp_isolate_secret_lem 0x2000_1000 0x2000_2000 pmp_reset write refl (omega arith)
          (omega arith)).0.1
        (inr (omega arith)) in
    next here (store 0x2000_2000 7 (omega arith) allowed refl)

Reach-isolated_example :
    (IsProtected link 0x2000_1008 → pmp_allows stored.pmp user read 0x2000_1008 ≡ false)
    × (IsSecret link 0x2000_1008 → stored.mem 0x2000_1008 ≡ zeros 0x2000_1008)
Reach-isolated_example =
    Reach-isolated link pmp_reset 0x2000_1008 read link-IsLinked link-IsStacked refl stored-Reach
