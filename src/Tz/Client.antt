-- ===== src/Tz/Client.antt =====
-- examples/minimal-tz/nonsecure/main_ns.c: the Non-Secure client, with the gateway services behind
-- its calls, its reset handler and its vector table.
pub mod Run
pub mod Reset
pub mod Outside
use rp2350_tz_tee.Prelude.{
  ℕ, zero, suc, ◌+◌, ◌*◌, ◌^◌, Bool, if◌then◌else◌, bit_or, ltb, List, [], ◌∷◌,
}
use rp2350_tz_tee.Prelude.Maps.{update}
use rp2350_tz_tee.Prelude.Words.{u8, u32}
use rp2350_tz_tee.Hw.Memory.{Memory, load32, store32}
use rp2350_tz_tee.Tz.Layout.{ns_mailbox_addr, s_ram_start}
use rp2350_tz_tee.Tz.Service.{Cmse, secure_get_counter, secure_sign}

abbrev pub ns_mb : ℕ → ℕ
ns_mb i = ns_mailbox_addr + 4 * i

abbrev pub mb_magic : ℕ
mb_magic = 0

abbrev pub mb_cnt1 : ℕ
mb_cnt1 = 1

abbrev pub mb_cnt2 : ℕ
mb_cnt2 = 2

abbrev pub mb_sign_rc : ℕ
mb_sign_rc = 3

abbrev pub mb_sign_r0 : ℕ
mb_sign_r0 = 4

abbrev pub mb_leaked : ℕ
mb_leaked = 5

abbrev pub mb_stage : ℕ
mb_stage = 6

abbrev pub mb_n : ℕ
mb_n = 7

-- Memory but for the two objects of secret.c, which Tz/Objects.antt puts in it: the counter, held
-- here, and the key, which no code writes.
pub record World : Type 0 where
  pub mem : Memory
  pub s_counter : ℕ

abbrev pub put : ℕ → ℕ → World → World
put i v w = record w { mem = store32 w.mem (ns_mb i) v }

-- `for (i = 0; i < MB_N; i++) NS_MB[i] = 0`, from `i`.
unfoldable pub clear_mailbox : ℕ → ℕ → World → World
clear_mailbox zero i w = w
clear_mailbox (suc left) i w = clear_mailbox left (i + 1) (put i 0 w)

-- `NS_MB[i] = secure_get_counter()`
abbrev pub put_counter : ℕ → World → World
put_counter i w =
    let c = secure_get_counter w.s_counter in
    record { mem = store32 w.mem (ns_mb i) c; s_counter = c }

-- The loop that fills the two arrays on the stack, from `i`.
unfoldable pub fill_from : ℕ → ℕ → (challenge result : ℕ) → Memory → Memory
fill_from zero i challenge result m = m
fill_from (suc left) i challenge result m =
    fill_from left (i + 1) challenge result
      (update (update m (challenge + i) (u8 (i + 1))) (result + i) 0)

-- The call of `secure_sign` and the two words that it gives.
unfoldable pub sign : Cmse → (ℕ → ℕ) → (ℕ → ℕ) → (challenge result : ℕ) → World → World
sign c tmp_in tmp_out challenge result w =
    let (rc, m) =
      secure_sign c tmp_in tmp_out (fill_from 16 0 challenge result w.mem) challenge result 16 in
    let r0 =
      bit_or (bit_or (bit_or (m result) (m (result + 1) * 2 ^ 8)) (m (result + 2) * 2 ^ 16))
        (m (result + 3) * 2 ^ 24) in
    record w { mem = store32 (store32 m (ns_mb mb_sign_rc) rc) (ns_mb mb_sign_r0) r0 }

-- How the client ends: the load of Secure memory faults, or the secret leaks.
pub data End : Type 0 where
  faulted leaked : World → End

-- `readable` is whether a Non-Secure load may read the address.
unfoldable pub ns_main :
    Cmse → (ℕ → ℕ) → (ℕ → ℕ) → (ℕ → Bool) → (challenge result : ℕ) → World → End
ns_main c tmp_in tmp_out readable challenge result w =
    let w1 = put mb_stage 1 (put mb_magic 0x4E53_0001 (clear_mailbox mb_n 0 w)) in
    let w2 = put mb_stage 2 (put_counter mb_cnt2 (put_counter mb_cnt1 w1)) in
    let w3 = put mb_stage 3 (sign c tmp_in tmp_out challenge result w2) in
    let w4 = put mb_stage 0xBAD0 w3 in
    if readable s_ram_start
    then leaked (put mb_stage 0xFA11 (put mb_leaked (load32 w4.mem s_ram_start) w4))
    else faulted w4

-- What the linker script of the Non-Secure image and the compiler decide. The address of a function
-- has the Thumb bit.
pub record NsImage : Type 0 where
  pub bss_start : ℕ
  pub bss_end : ℕ
  pub stack_top : ℕ
  pub reset : ℕ
  pub default_handler : ℕ
  pub challenge : ℕ
  pub result : ℕ

-- `for (p = &__bss_start__; p < &__bss_end__; p++) *p = 0u`, on fuel.
unfoldable pub clear_bss : ℕ → (p bss_end : ℕ) → Memory → Memory
clear_bss zero p bss_end m = m
clear_bss (suc fuel) p bss_end m =
    let rest = clear_bss fuel (u32 (p + 4)) bss_end (store32 m p 0) in
    if ltb p bss_end then rest else m

unfoldable pub ns_reset : NsImage → ℕ → Cmse → (ℕ → ℕ) → (ℕ → ℕ) → (ℕ → Bool) → World → End
ns_reset g fuel c tmp_in tmp_out readable w =
    ns_main c tmp_in tmp_out readable g.challenge g.result
      (record w { mem = clear_bss fuel g.bss_start g.bss_end w.mem })

-- `ns_default_handler` up to its loop for ever.
unfoldable pub ns_default_handler : World → World
ns_default_handler w = put mb_stage 0xDEAD w

abbrev pub ns_vectors : NsImage → List ℕ
ns_vectors g = g.stack_top ∷ g.reset ∷ g.default_handler ∷ g.default_handler ∷ []
