-- ===== src/Examples/Tz.antt =====
-- The theorems on examples/minimal-tz at the RP2350's addresses.
use rp2350_tz_tee.Prelude.{ℕ, ◌+◌, ◌^◌, ◌≤◌, ◌<◌, ◌≡◌, ◌≢◌, ◌↔◌, inl, inr, Bool, true, ◌&&◌}
use rp2350_tz_tee.Prelude.{arith, refl, leb, ltb, bit_xor, if◌then◌else◌}
use rp2350_tz_tee.Prelude.Words.{u32}
use rp2350_tz_tee.Hw.Sau.{secure, attribution}
use rp2350_tz_tee.Hw.DmaMpu.{dma_open}
use rp2350_tz_tee.Hw.Memory.{Memory}
use rp2350_tz_tee.Tz.Config.{Chip, tz_isolation_config}
use rp2350_tz_tee.Tz.Config.Attribution.{
  IsPpbBase, intended, attribution-tz_isolation_config, tz_isolation_config_mirrors,
}
use rp2350_tz_tee.Tz.Secret.{keyed, key_byte, counter_after, counter_after_distinct}
use rp2350_tz_tee.Prelude.{◌||◌, ◌==◌, ◌%◌}
use rp2350_tz_tee.Tz.Start.{Accessctrl, tz_accessctrl_open_ns}
use rp2350_tz_tee.Tz.Client.{World}
use rp2350_tz_tee.Tz.Client.Run.{IsStack}
use rp2350_tz_tee.Tz.Start.Open.{tz_accessctrl_open_ns_at}
use rp2350_tz_tee.Tz.Service.{Cmse, secure_sign}
use rp2350_tz_tee.Tz.Service.Sign.{
  IsAccepted, ChecksNonsecure, secure_sign_guarded, secure_sign_at, secure_sign_gives_key,
}
use rp2350_tz_tee.Tz.Service.Copy.{offset}

-- `PPB_BASE`, and the chip after a reset.
abbrev pub ppb_base : ℕ
ppb_base = 0xE000_0000

pub ppb_base-IsPpbBase : IsPpbBase ppb_base
ppb_base-IsPpbBase = record { aligned = refl; above = omega arith; fits = omega arith }

abbrev pub after_reset : Chip
after_reset = record {
  sau = record { rnr = 0; rbar = λ n. 0; rlar = λ n. 0; ctrl = 0 };
  aircr = 0;
  dma = record { mpu_ctrl = 0; bar = λ n. 0; lar = λ n. 0 };
}

attribution-tz_isolation_config_example :
    attribution (tz_isolation_config ppb_base 0 after_reset).sau 0x1010_0000
    ≡ intended ppb_base 0x1010_0000
attribution-tz_isolation_config_example =
    attribution-tz_isolation_config ppb_base 0 after_reset 0x1010_0000 ppb_base-IsPpbBase
      (refl, refl, refl, refl)

tz_isolation_config_mirrors_example :
    (dma_open (tz_isolation_config ppb_base 0 after_reset).dma 0x2000_0000 ≡ true)
    ↔ (attribution (tz_isolation_config ppb_base 0 after_reset).sau 0x2000_0000 ≢ secure)
tz_isolation_config_mirrors_example =
    tz_isolation_config_mirrors ppb_base 0 after_reset 0x2000_0000 ppb_base-IsPpbBase
      (refl, refl, refl, refl) (inl (omega arith))

counter_after_distinct_example :
    (5 < 2 + 2 ^ 32 → counter_after 2 7 ≢ counter_after 5 7)
    × (7 + 5 < 2 ^ 32 → counter_after 2 7 < counter_after 5 7)
    × (5 ≡ 2 + 2 ^ 32 → counter_after 2 7 ≡ counter_after 5 7)
counter_after_distinct_example = counter_after_distinct 2 5 7 (omega arith) (omega arith)

-- The Non-Secure SRAM, and a check that accepts the ranges within it.
abbrev is_ns : ℕ → Bool
is_ns a = leb 0x2004_0000 a && ltb a 0x2008_0000

abbrev pub cmse : Cmse
cmse = record {
  check = λ p len flags. leb 0x2004_0000 p && leb (p + len) 0x2008_0000;
  nonsecure = 18;
  mpu_read = 8;
  mpu_readwrite = 1;
}

cmse-ChecksNonsecure : (access : ℕ) → ChecksNonsecure cmse is_ns access
cmse-ChecksNonsecure access p len h j lt = ground arith

-- A memory of fives, and stack buffers of zeros.
abbrev pub fives : Memory
fives a = 5

abbrev pub zeros : ℕ → ℕ
zeros a = 0

request-IsAccepted : IsAccepted cmse 0x2004_0000 0x2004_0100 16
request-IsAccepted = record {
  some_bytes = omega arith;
  few_bytes = omega arith;
  readable = refl;
  writable = refl;
}

secure_sign_guarded_example :
    ((secure_sign cmse zeros zeros fives 0x2004_0000 0x2004_0100 16).0 ≡ 0
      ↔ IsAccepted cmse 0x2004_0000 0x2004_0100 16)
    × ((secure_sign cmse zeros zeros fives 0x2004_0000 0x2004_0100 16).0 ≢ 0
        → (2 ^ 31 ≤ (secure_sign cmse zeros zeros fives 0x2004_0000 0x2004_0100 16).0)
          × ((secure_sign cmse zeros zeros fives 0x2004_0000 0x2004_0100 16).1 ≡ fives))
secure_sign_guarded_example = secure_sign_guarded cmse zeros zeros fives 0x2004_0000 0x2004_0100 16

secure_sign_at_example :
    (secure_sign cmse zeros zeros fives 0x2004_0000 0x2004_0100 16).1 0x2004_0103 ≡ (
      if ltb (offset 0x2004_0100 0x2004_0103) 16
      then keyed
          (fives (u32 (0x2004_0000 + offset 0x2004_0100 0x2004_0103)))
          (offset 0x2004_0100 0x2004_0103)
      else fives 0x2004_0103)
secure_sign_at_example =
    secure_sign_at cmse zeros zeros fives 0x2004_0000 0x2004_0100 16 0x2004_0103 request-IsAccepted
      (omega arith) (omega arith)

secure_sign_gives_key_example :
    bit_xor
      ((secure_sign cmse zeros zeros fives 0x2004_0000 0x2004_0100 16).1 (u32 (0x2004_0100 + 2)))
      (fives (u32 (0x2004_0000 + 2)))
    ≡ key_byte 2
secure_sign_gives_key_example =
    secure_sign_gives_key cmse zeros zeros fives 0x2004_0000 0x2004_0100 16 2 request-IsAccepted
      (λ a. omega arith) (omega arith) (omega arith)

abbrev ac_hw : Accessctrl
ac_hw = record { cfgreset = 0x08; gpio_nsmask_0 = 0x0C; gpio_nsmask_1 = 0x10 }

tz_accessctrl_open_ns_at_example : tz_accessctrl_open_ns ac_hw 55 zeros 0x80 ≡ (
    if leb 0x14 0x80 && leb 0x80 0xE8 && 0x80 % 4 == 0
    then 0xACCE_00FF
    else if 0x80 == 0x0C || 0x80 == 0x10
    then 0xFFFF_FFFF
    else if 0x80 == 0x08
    then 0xACCE_0001
    else zeros 0x80)
tz_accessctrl_open_ns_at_example = tz_accessctrl_open_ns_at ac_hw 55 zeros 0x80 (omega arith)

pub arrays-IsStack : IsStack 0x2007_F000 0x2007_F010
arrays-IsStack = record {
  apart = inl (omega arith);
  challenge_mb = inr (omega arith);
  result_mb = inr (omega arith);
  challenge_fits = omega arith;
  result_fits = omega arith;
}

pub arrays-IsAccepted : IsAccepted cmse 0x2007_F000 0x2007_F010 16
arrays-IsAccepted = record {
  some_bytes = omega arith;
  few_bytes = omega arith;
  readable = refl;
  writable = refl;
}

abbrev world : World
world = record { mem = fives; s_counter = 0 }
