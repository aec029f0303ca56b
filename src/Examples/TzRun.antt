-- ===== src/Examples/TzRun.antt =====
-- The theorems on the reset handler and on the whole run of examples/minimal-tz.
use rp2350_tz_tee.Prelude.{inl, ◌+◌, ◌≡◌, arith, refl}
use rp2350_tz_tee.Hw.Memory.{Memory, IsBytes, store32-IsBytes}
use rp2350_tz_tee.Hw.Array.{store_words, store_words_at}
use rp2350_tz_tee.Tz.Layout.{ns_flash_start}
use rp2350_tz_tee.Tz.Client.{NsImage, clear_bss, ns_vectors}
use rp2350_tz_tee.Tz.Client.Reset.{clear_bss_at}
use rp2350_tz_tee.Tz.Objects.{Objects}
use rp2350_tz_tee.Tz.Main.{System, Setting}
use rp2350_tz_tee.Tz.Main.Run.{IsImage}
use rp2350_tz_tee.Examples.Tz.{cmse, zeros, fives, after_reset, ppb_base, arrays-IsStack}

clear_bss_at_example : clear_bss 3 0x2004_4000 0x2004_4008 fives 0x2004_4007 ≡ 0
clear_bss_at_example =
    clear_bss_at 3 0x2004_4000 0x2004_4008 0x2004_4007 fives (omega arith) refl (omega arith)
      (omega arith)

abbrev pub image : NsImage
image = record {
  bss_start = 0x2004_4000;
  bss_end = 0x2004_4008;
  stack_top = 0x2008_0000;
  reset = 0x2004_0101;
  default_handler = 0x2004_0201;
  challenge = 0x2007_F000;
  result = 0x2007_F010;
}

-- The vector table in flash, on a memory that holds 5 everywhere else.
abbrev pub flashed : Memory
flashed = store_words ns_flash_start 0 (ns_vectors image) fives

pub flashed-IsBytes : IsBytes flashed
unfolding store_words
flashed-IsBytes =
    store32-IsBytes _ _ _
      (store32-IsBytes _ _ _ (store32-IsBytes _ _ _ (store32-IsBytes fives _ _ (λ a. omega arith))))

pub image-IsImage : IsImage image flashed
image-IsImage = record {
  vectors = λ i h.
      let from : 0 + i ≡ i = omega arith in
      rw from at (
        store_words_at ns_flash_start 0 (ns_vectors image) fives i
          (omega arith, (omega arith, (omega arith, (omega arith, tt)))) h);
  thumb = refl;
  bss = (omega arith, omega arith);
  bss_order = omega arith;
  bss_words = refl;
  stack = arrays-IsStack;
  challenge_ram = (omega arith, omega arith);
  result_ram = (omega arith, omega arith);
}

abbrev setting : Setting
setting = record {
  ppb_base = ppb_base;
  bfhfnmins = 0;
  registers = record { cfgreset = 8; gpio_nsmask_0 = 12; gpio_nsmask_1 = 16 };
  cmse = cmse;
  tmp_in = zeros;
  tmp_out = zeros;
  image = image;
  result_array = 0x2000_1000;
  sfsr = 8;
  fuel = 0x1_0000;
}

abbrev out_of_reset : System
out_of_reset = record {
  chip = after_reset;
  accessctrl = zeros;
  world = record { mem = flashed; s_counter = 0 };
}

abbrev objects : Objects
objects = record {
  key_at = 0x2000_0100;
  counter_at = 0x2000_0110;
  key_low = omega arith;
  key_high = omega arith;
  counter_low = omega arith;
  counter_high = omega arith;
  apart = inl (omega arith);
}
