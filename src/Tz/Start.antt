-- ===== src/Tz/Start.antt =====
-- examples/minimal-tz/secure/main_s.c: the Secure start-up and the fault handler. Console output
-- and the barriers are left out.
pub mod Open
pub mod Launch
pub mod Fault
use rp2350_tz_tee.Prelude.{ℕ, zero, suc, ◌+◌, ◌-◌, ◌*◌, ◌/◌, ◌%◌, ◌^◌, leb, if◌then◌else◌, bit_or}
use rp2350_tz_tee.Prelude.Maps.{update, ◌▷◌}
use rp2350_tz_tee.Prelude.Words.{u32}
use rp2350_tz_tee.Hw.Memory.{Memory, load32, store32}
use rp2350_tz_tee.Tz.Layout.{ns_flash_start, ns_ram_start, ns_mailbox_addr}

abbrev pub accessctrl_password : ℕ
accessctrl_password = 0xACCE_0000

-- `AC_ALL`: the eight access bits.
abbrev pub ac_all : ℕ
ac_all =
    bit_or
      (bit_or
        (bit_or (bit_or (bit_or (bit_or (bit_or (2 ^ 7) (2 ^ 6)) (2 ^ 5)) (2 ^ 4)) (2 ^ 3)) (2 ^ 2))
        (2 ^ 1))
      (2 ^ 0)

abbrev pub ac_periph_first : ℕ
ac_periph_first = 0x14

abbrev pub ac_periph_last : ℕ
ac_periph_last = 0xE8

-- The registers of ACCESSCTRL that main_s.c writes by name, by their offsets in the SDK's structure.
pub record Accessctrl : Type 0 where
  pub cfgreset : ℕ
  pub gpio_nsmask_0 : ℕ
  pub gpio_nsmask_1 : ℕ

-- `for (off = ...; off <= AC_PERIPH_LAST; off += 4u)` on the words last written to the registers,
-- on fuel.
unfoldable pub open_from : ℕ → ℕ → (ℕ → ℕ) → ℕ → ℕ
open_from zero off regs = regs
open_from (suc fuel) off regs =
    let rest =
      open_from fuel (u32 (off + 4)) (update regs off (bit_or accessctrl_password ac_all)) in
    if leb off ac_periph_last then rest else regs

unfoldable pub tz_accessctrl_open_ns : Accessctrl → ℕ → (ℕ → ℕ) → ℕ → ℕ
tz_accessctrl_open_ns ac fuel regs =
    regs
    ▷ (λ r. update r ac.cfgreset (bit_or accessctrl_password 0x1))
    ▷ (λ r. update r ac.gpio_nsmask_0 0xFFFF_FFFF)
    ▷ (λ r. update r ac.gpio_nsmask_1 0xFFFF_FFFF)
    ▷ open_from fuel ac_periph_first

-- What `launch_nonsecure` hands over: the memory, the Non-Secure VTOR and MSP, and the address that
-- it calls.
pub record Handover : Type 0 where
  pub mem : Memory
  pub vtor : ℕ
  pub msp : ℕ
  pub entry : ℕ

abbrev pub ns_image_copy_bytes : ℕ
ns_image_copy_bytes = 0x0001_0000

-- `dst[i] = src[i]` from index `i`, with `left` rounds to go.
unfoldable pub copy_words : ℕ → ℕ → Memory → Memory
copy_words zero i m = m
copy_words (suc left) i m =
    copy_words left (i + 1) (store32 m (ns_ram_start + 4 * i) (load32 m (ns_flash_start + 4 * i)))

unfoldable pub launch_nonsecure : Memory → Handover
launch_nonsecure m =
    let m' = copy_words (ns_image_copy_bytes / 4) 0 m in
    record {
      mem = m';
      vtor = ns_ram_start;
      msp = load32 m' ns_ram_start;
      entry = (let r = load32 m' (ns_ram_start + 4) in r - r % 2);
    }

-- The words of `s_result`.
abbrev pub sr_mark : ℕ
sr_mark = 0

abbrev pub sr_sfsr : ℕ
sr_sfsr = 1

abbrev pub sr_ns_cnt1 : ℕ
sr_ns_cnt1 = 2

abbrev pub sr_ns_cnt2 : ℕ
sr_ns_cnt2 = 3

abbrev pub sr_ns_sign_rc : ℕ
sr_ns_sign_rc = 4

abbrev pub sr_ns_sign_r0 : ℕ
sr_ns_sign_r0 = 5

abbrev pub sr_ns_leaked : ℕ
sr_ns_leaked = 6

abbrev pub sr_ns_stage : ℕ
sr_ns_stage = 7

-- `s_result[i]` at the address where the linker puts the array.
abbrev pub s_result : ℕ → ℕ → ℕ
s_result at i = at + 4 * i

abbrev pub ns_word : Memory → ℕ → ℕ
ns_word m i = load32 m (ns_mailbox_addr + 4 * i)

-- `isr_hardfault` up to its loop for ever; `sfsr` is the Secure Fault Status Register.
unfoldable pub isr_hardfault : ℕ → ℕ → Memory → Memory
isr_hardfault at sfsr m =
    m
    ▷ (λ n. store32 n (s_result at sr_mark) 0x5ECF_0000)
    ▷ (λ n. store32 n (s_result at sr_sfsr) sfsr)
    ▷ (λ n. store32 n (s_result at sr_ns_cnt1) (ns_word n 1))
    ▷ (λ n. store32 n (s_result at sr_ns_cnt2) (ns_word n 2))
    ▷ (λ n. store32 n (s_result at sr_ns_sign_rc) (ns_word n 3))
    ▷ (λ n. store32 n (s_result at sr_ns_sign_r0) (ns_word n 4))
    ▷ (λ n. store32 n (s_result at sr_ns_leaked) (ns_word n 5))
    ▷ (λ n. store32 n (s_result at sr_ns_stage) (ns_word n 6))
