-- ===== src/Tz/Client/Outside.antt =====
-- The client writes its mailbox and its two arrays, and nothing else.
use rp2350_tz_tee.Prelude.{ℕ, ◌+◌, ◌^◌, ◌≤◌, ◌<◌, ◌≡◌, ◌⊎◌, arith, sym, ap, Bool, ◌∙◌}
use rp2350_tz_tee.Prelude.Words.{u32}
use rp2350_tz_tee.Hw.Memory.{Memory, store32, store32_outside}
use rp2350_tz_tee.Tz.Layout.{ns_mailbox_addr}
use rp2350_tz_tee.Tz.Service.{Cmse, secure_sign, secure_get_counter}
use rp2350_tz_tee.Tz.Service.Sign.{IsAccepted, secure_sign_at}
use rp2350_tz_tee.Tz.Client.{
  World, faulted, ns_mb, mb_magic, mb_cnt1, mb_cnt2, mb_stage, mb_n, put, clear_mailbox,
  put_counter, fill_from, sign, ns_main,
}
use rp2350_tz_tee.Tz.Client.Run.{IsStack, fill_from_at}

-- A byte of none of the client's objects.
pub record IsElsewhere (challenge result a : ℕ) : Type 0 where
  pub small : a < 2 ^ 32
  pub mb : (a < ns_mailbox_addr) ⊎ (ns_mailbox_addr + 28 ≤ a)
  pub challenge_off : (a < challenge) ⊎ (challenge + 16 ≤ a)
  pub result_off : (a < result) ⊎ (result + 16 ≤ a)

over_outside :
    (m : Memory) (i v a : ℕ)
    → i < 7
    → (a < ns_mailbox_addr) ⊎ (ns_mailbox_addr + 28 ≤ a)
    → store32 m (ns_mb i) v a ≡ m a
over_outside m i v a h out = store32_outside m (ns_mb i) a v (omega arith)

module _ (c : Cmse) (tmp_in tmp_out : ℕ → ℕ) (challenge result : ℕ) (w : World)
    (s : IsStack challenge result) (ok : IsAccepted c challenge result 16) (a : ℕ)
    (e : IsElsewhere challenge result a) where
  sign_outside : (sign c tmp_in tmp_out challenge result w).mem a ≡ w.mem a
  unfolding sign
  sign_outside =
      let m = fill_from 16 0 challenge result w.mem in
      let n = secure_sign c tmp_in tmp_out m challenge result 16 in
      over_outside _ 4 _ a (omega arith) e.mb
      ∙ over_outside n.1 3 n.0 a (omega arith) e.mb
      ∙ ground (
        arith,
        secure_sign_at c tmp_in tmp_out m challenge result 16 a ok (omega arith) e.small,
        fill_from_at 16 0 challenge result w.mem a s,
        e,
      )

  start_outside :
      let w1 = put mb_stage 1 (put mb_magic 0x4E53_0001 (clear_mailbox mb_n 0 w)) in
      (put mb_stage 2 (put_counter mb_cnt2 (put_counter mb_cnt1 w1))).mem a ≡ w.mem a
  unfolding clear_mailbox
  start_outside =
      over_outside _ 6 _ a (omega arith) e.mb
      ∙ over_outside _ 2 _ a (omega arith) e.mb
      ∙ over_outside _ 1 _ a (omega arith) e.mb
      ∙ over_outside _ 6 _ a (omega arith) e.mb
      ∙ over_outside _ 0 _ a (omega arith) e.mb
      ∙ over_outside _ 6 _ a (omega arith) e.mb
      ∙ over_outside _ 5 _ a (omega arith) e.mb
      ∙ over_outside _ 4 _ a (omega arith) e.mb
      ∙ over_outside _ 3 _ a (omega arith) e.mb
      ∙ over_outside _ 2 _ a (omega arith) e.mb
      ∙ over_outside _ 1 _ a (omega arith) e.mb
      ∙ over_outside w.mem 0 _ a (omega arith) e.mb

module _ (c : Cmse) (tmp_in tmp_out : ℕ → ℕ) (challenge result : ℕ) (w : World)
    (s : IsStack challenge result) (ok : IsAccepted c challenge result 16) (a : ℕ)
    (e : IsElsewhere challenge result a) where
  pub ns_main_outside :
      (readable : ℕ → Bool) (w' : World)
      → ns_main c tmp_in tmp_out readable challenge result w ≡ faulted w'
      → w'.mem a ≡ w.mem a
  unfolding ns_main
  ns_main_outside readable w' h =
      let w1 = put mb_stage 1 (put mb_magic 0x4E53_0001 (clear_mailbox mb_n 0 w)) in
      let w2 = put mb_stage 2 (put_counter mb_cnt2 (put_counter mb_cnt1 w1)) in
      let w4 = put mb_stage 0xBAD0 (put mb_stage 3 (sign c tmp_in tmp_out challenge result w2)) in
      let last : w4.mem a ≡ w.mem a =
        over_outside _ 6 _ a (omega arith) e.mb
        ∙ over_outside _ 6 _ a (omega arith) e.mb
        ∙ sign_outside c tmp_in tmp_out challenge result w2 s ok a e
        ∙ start_outside c tmp_in tmp_out challenge result w s ok a e in
      let end : w4 ≡ w' = ground (arith, h) in ap (λ (x : World). x.mem a) (sym end) ∙ last

-- The client calls `secure_get_counter` twice.
pub ns_main_counter :
    (c : Cmse) (tmp_in tmp_out : ℕ → ℕ) (challenge result : ℕ) (w : World) (readable : ℕ → Bool)
    (w' : World)
    → ns_main c tmp_in tmp_out readable challenge result w ≡ faulted w'
    → w'.s_counter ≡ u32 (w.s_counter + 2)
unfolding ns_main sign clear_mailbox secure_get_counter
ns_main_counter c tmp_in tmp_out challenge result w readable w' h =
    let w1 = put mb_stage 1 (put mb_magic 0x4E53_0001 (clear_mailbox mb_n 0 w)) in
    let w2 = put mb_stage 2 (put_counter mb_cnt2 (put_counter mb_cnt1 w1)) in
    let w4 = put mb_stage 0xBAD0 (put mb_stage 3 (sign c tmp_in tmp_out challenge result w2)) in
    let twice : w4.s_counter ≡ u32 (w.s_counter + 2) = omega arith in
    let end : w4 ≡ w' = ground (arith, h) in ap (λ (x : World). x.s_counter) (sym end) ∙ twice
