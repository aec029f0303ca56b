-- ===== src/Tz/Start/Fault.antt =====
-- What the fault handler records.
use rp2350_tz_tee.Prelude.{ℕ, ◌+◌, ◌*◌, ◌^◌, ◌≤◌, ◌<◌, ◌≡◌, ◌⊎◌, arith, refl, List, [], ◌∷◌}
use rp2350_tz_tee.Prelude.Lists.{length, All}
use rp2350_tz_tee.Hw.Memory.{Memory, IsBytes, load32, load32-lt}
use rp2350_tz_tee.Hw.Array.{store_words, store_words_outside, store_words_word, store_words_at}
use rp2350_tz_tee.Tz.Layout.{ns_mailbox_addr}
use rp2350_tz_tee.Tz.Start.{
  s_result, sr_mark, sr_sfsr, sr_ns_cnt1, sr_ns_cnt2, sr_ns_sign_rc, sr_ns_sign_r0, sr_ns_leaked,
  sr_ns_stage, ns_word, isr_hardfault,
}

-- The words that the handler stores.
abbrev pub words : ℕ → Memory → List ℕ
words sfsr m =
    0x5ECF_0000
    ∷ sfsr
    ∷ ns_word m 1
    ∷ ns_word m 2
    ∷ ns_word m 3
    ∷ ns_word m 4
    ∷ ns_word m 5
    ∷ ns_word m 6
    ∷ []

isr_hardfault_stores :
    (at sfsr : ℕ) (m : Memory)
    → (at + 32 ≤ ns_mailbox_addr) ⊎ (ns_mailbox_addr + 28 ≤ at)
    → isr_hardfault at sfsr m ≡ store_words at 0 (words sfsr m) m
unfolding isr_hardfault store_words
isr_hardfault_stores at sfsr m apart =
    let kept =
      λ (vs : List ℕ) (k : ℕ)
          (h : (ns_mailbox_addr + 4 * k + 4 ≤ at + 0)
            ⊎ (at + 4 * (0 + length vs) ≤ ns_mailbox_addr + 4 * k)).
        store_words_word at 0 vs m (ns_mailbox_addr + 4 * k) h in
    rw
      (
        kept (0x5ECF_0000 ∷ sfsr ∷ []) 1 (omega arith),
        kept (0x5ECF_0000 ∷ sfsr ∷ ns_word m 1 ∷ []) 2 (omega arith),
        kept (0x5ECF_0000 ∷ sfsr ∷ ns_word m 1 ∷ ns_word m 2 ∷ []) 3 (omega arith),
        kept (0x5ECF_0000 ∷ sfsr ∷ ns_word m 1 ∷ ns_word m 2 ∷ ns_word m 3 ∷ []) 4 (omega arith),
        kept (0x5ECF_0000 ∷ sfsr ∷ ns_word m 1 ∷ ns_word m 2 ∷ ns_word m 3 ∷ ns_word m 4 ∷ []) 5
            (omega arith),
        kept
            (0x5ECF_0000
              ∷ sfsr
              ∷ ns_word m 1
              ∷ ns_word m 2
              ∷ ns_word m 3
              ∷ ns_word m 4
              ∷ ns_word m 5
              ∷ [])
            6 (omega arith),
      )
      refl

-- The array behind the handler, for words that fit.
pub isr_hardfault_words :
    (at sfsr : ℕ) (m : Memory)
    → All (λ v. v < 2 ^ 32) (words sfsr m)
    → (at + 32 ≤ ns_mailbox_addr) ⊎ (ns_mailbox_addr + 28 ≤ at)
    → let n = isr_hardfault at sfsr m in
      (load32 n (s_result at sr_mark) ≡ 0x5ECF_0000)
      × (load32 n (s_result at sr_sfsr) ≡ sfsr)
      × (load32 n (s_result at sr_ns_cnt1) ≡ ns_word m 1)
      × (load32 n (s_result at sr_ns_cnt2) ≡ ns_word m 2)
      × (load32 n (s_result at sr_ns_sign_rc) ≡ ns_word m 3)
      × (load32 n (s_result at sr_ns_sign_r0) ≡ ns_word m 4)
      × (load32 n (s_result at sr_ns_leaked) ≡ ns_word m 5)
      × (load32 n (s_result at sr_ns_stage) ≡ ns_word m 6)
      × ((b : ℕ) → (b < at) ⊎ (at + 32 ≤ b) → n b ≡ m b)
isr_hardfault_words at sfsr m all_fit apart =
    let word = λ (k : ℕ) (h : k < 8). store_words_at at 0 (words sfsr m) m k all_fit h in
    rw (isr_hardfault_stores at sfsr m apart) (
      word 0 (omega arith),
      word 1 (omega arith),
      word 2 (omega arith),
      word 3 (omega arith),
      word 4 (omega arith),
      word 5 (omega arith),
      word 6 (omega arith),
      word 7 (omega arith),
      (λ b h. store_words_outside at 0 (words sfsr m) m b (ground arith)),
    )

-- On a memory of bytes, with a 32-bit fault status and a result array apart from the Non-Secure
-- mailbox, `isr_hardfault` leaves the marker, the status and the mailbox words 1 to 6 in the array
-- and changes no byte outside it.
pub isr_hardfault_lem :
    (at sfsr : ℕ) (m : Memory)
    → IsBytes m
    → sfsr < 2 ^ 32
    → (at + 32 ≤ ns_mailbox_addr) ⊎ (ns_mailbox_addr + 28 ≤ at)
    → let n = isr_hardfault at sfsr m in
      (load32 n (s_result at sr_mark) ≡ 0x5ECF_0000)
      × (load32 n (s_result at sr_sfsr) ≡ sfsr)
      × (load32 n (s_result at sr_ns_cnt1) ≡ ns_word m 1)
      × (load32 n (s_result at sr_ns_cnt2) ≡ ns_word m 2)
      × (load32 n (s_result at sr_ns_sign_rc) ≡ ns_word m 3)
      × (load32 n (s_result at sr_ns_sign_r0) ≡ ns_word m 4)
      × (load32 n (s_result at sr_ns_leaked) ≡ ns_word m 5)
      × (load32 n (s_result at sr_ns_stage) ≡ ns_word m 6)
      × ((b : ℕ) → (b < at) ⊎ (at + 32 ≤ b) → n b ≡ m b)
isr_hardfault_lem at sfsr m bytes fits apart =
    let ns_fits = λ (i : ℕ). load32-lt m (ns_mailbox_addr + 4 * i) bytes in
    isr_hardfault_words at sfsr m
      (
        omega arith,
        (fits, (ns_fits 1, (ns_fits 2, (ns_fits 3, (ns_fits 4, (ns_fits 5, (ns_fits 6, tt))))))),
      )
      apart
