-- ===== src/Pmp/Main/Shown.antt =====
-- What the trampoline and the sign service make of the view.
use rp2350_tz_tee.Prelude.{ℕ, ◌+◌, ◌-◌, ◌%◌, ◌^◌, ◌≤◌, ◌<◌, ◌≡◌, ◌⊎◌, arith, refl, ◌∙◌, bit_xor}
use rp2350_tz_tee.Prelude.Words.{u8}
use rp2350_tz_tee.Hw.Memory.{Memory, load32-cong}
use rp2350_tz_tee.Pmp.Link.{Link, IsPlaced, secret, counter, key, mb}
use rp2350_tz_tee.Pmp.Sign.{svc_sign}
use rp2350_tz_tee.Pmp.Sign.Guard.{offset, IsClear, svc_sign_at, svc_sign_off}
use rp2350_tz_tee.Pmp.Trap.{Frame}
use rp2350_tz_tee.Pmp.Entry.{save_frame}
use rp2350_tz_tee.Pmp.Entry.Saved.{save_frame_outside}
use rp2350_tz_tee.Pmp.Main.View.{
  View, Shows, IsShown, in_mailbox, in_stage, in_prot, in_challenge, Shows-cong,
}

-- Nothing that is shown lies on the trap stack.
IsShown-off :
    (l : Link) (p : IsPlaced l) (a : ℕ) → IsShown l a → (a < l.stack_top - 64) ⊎ (l.stack_top ≤ a)
IsShown-off l p a (in_mailbox lo hi) = omega arith
IsShown-off l p a (in_stage lo hi) = omega arith
IsShown-off l p a (in_prot lo hi) = omega arith
IsShown-off l p a (in_challenge lo hi) = omega arith

module _ (l : Link) (p : IsPlaced l) (m : Memory) (v : View) (s : Shows l m v) where
  pub Shows-save_frame : (f : Frame) → Shows l (save_frame (l.stack_top - 64) f m) v
  Shows-save_frame f =
      Shows-cong l m (save_frame (l.stack_top - 64) f m) v
        (λ a shown.
          save_frame_outside (l.stack_top - 64) f m a (ground (arith, IsShown-off l p a shown)))
        s

  -- A memory that differs in the frame only shows the same.
  pub Shows-off :
      (n : Memory)
      → ((a : ℕ) → (a < l.stack_top - 64) ⊎ (l.stack_top - 60 ≤ a) → n a ≡ m a)
      → Shows l n v
  Shows-off n h = Shows-cong l m n v (λ a shown. h a (ground (arith, IsShown-off l p a shown))) s

  IsClear-challenge : IsClear l l.challenge 16
  IsClear-challenge a prot = ground arith

  signed_off :
      (b : ℕ)
      → b < 2 ^ 32
      → (b < l.challenge) ⊎ (l.challenge + 16 ≤ b)
      → svc_sign l m l.challenge 16 b ≡ m b
  signed_off b small out =
      svc_sign_off l m l.challenge 16 b p.linked (omega arith) small (omega arith)

  signed_at :
      (i : ℕ)
      → i < 16
      → svc_sign l m l.challenge 16 (l.challenge + i)
        ≡ u8 (bit_xor (v.challenge_bytes i) (v.key_bytes i))
  signed_at i h =
      let at : offset l.challenge (l.challenge + i) ≡ i = omega arith in
      let low : i % 16 ≡ i = omega arith in
      let all =
        (svc_sign_at l m l.challenge 16 (l.challenge + i) p.linked (omega arith) (omega arith)).0
          (omega arith) IsClear-challenge in
      let here : svc_sign l m l.challenge 16 (l.challenge + i)
          ≡ u8 (bit_xor (m (l.challenge + i)) (m (key l + i))) =
        rw (at, low) at all ∙ ground arith in
      here ∙ rw (s.challenge_at i h, s.key_at i h) refl

  pub Shows-svc_sign :
      Shows l
        (svc_sign l m l.challenge 16)
        (record v { challenge_bytes = λ i. u8 (bit_xor (v.challenge_bytes i) (v.key_bytes i)) })
  Shows-svc_sign =
      let n = svc_sign l m l.challenge 16 in
      let word =
        λ (a : ℕ) (fits : a + 4 ≤ 2 ^ 32) (out : (a + 4 ≤ l.challenge) ⊎ (l.challenge + 16 ≤ a)).
          load32-cong n m a (λ b lo hi. signed_off b (omega arith) (omega arith)) in
      record {
        mailbox_at = λ i h. word (mb l i) (omega arith) (omega arith) ∙ s.mailbox_at i h;
        stage_at = word l.g_stage (omega arith) (omega arith) ∙ s.stage_at;
        secret_at = word (secret l) (omega arith) (omega arith) ∙ s.secret_at;
        counter_at = word (counter l) (omega arith) (omega arith) ∙ s.counter_at;
        key_at = λ i h. signed_off (key l + i) (omega arith) (omega arith) ∙ s.key_at i h;
        challenge_at = λ i h. signed_at i h;
      }
