-- ===== src/Pmp/Main/Steps.antt =====
-- The accesses and calls of the demo as moves.
use rp2350_tz_tee.Prelude.{ℕ, ◌+◌, ◌^◌, ◌<◌, ◌≡◌, ◌≢◌, true, false, bit_xor}
use rp2350_tz_tee.Prelude.Maps.{update}
use rp2350_tz_tee.Prelude.Words.{u8, u32}
use rp2350_tz_tee.Hw.Memory.{Memory, store32}
use rp2350_tz_tee.Hw.Pmp.{Pmp, Mode, user, read, write, pmp_allows}
use rp2350_tz_tee.Pmp.Link.{
  Link, IsPlaced, secret, counter, key, mb, mb_xh3_mcause, mb_mcause, mb_mtval, mb_stage, stage_xh3,
  stage_u,
}
use rp2350_tz_tee.Pmp.Trap.{svc_get_counter, svc_sign_number}
use rp2350_tz_tee.Pmp.Access.{
  Site, load_word, load_byte, store_word, store_byte, u_ecall, write_pmp,
}
use rp2350_tz_tee.Pmp.Main.View.{
  View, Shows, Shows-mailbox, Shows-stage, Shows-secret, Shows-counter, Shows-key, Shows-challenge,
}
use rp2350_tz_tee.Pmp.Main.Logic.{
  Traps, armed, store_word-Ensures, store_byte-Ensures, load_word-Ensures, load_byte-Ensures,
  write_pmp-Ensures,
}
use rp2350_tz_tee.Pmp.Main.Services.{
  ecall_counter, ecall_sign, load_word_recovers, load_word_caught,
}
use rp2350_tz_tee.Pmp.Main.Moves.{Moves, Ends, at_view}

module _ (l : Link) (e : Site) (p : IsPlaced l) {q : Pmp} {x : Traps} {v : View} (mode : Mode)
    (k : ℕ) where
  -- A store that the PMP allows and after which the memory shows `v'`.
  put :
      (a w : ℕ) (v' : View)
      → pmp_allows q mode write a ≡ true
      → ((m : Memory) → Shows l m v → Shows l (store32 m a w) v')
      → Moves l (store_word l e mode k a w) tt (at_view q x v) (at_view q x v')
  put a w v' ok s = record {
    moves = λ c at. store_word-Ensures l e q x v c at mode k a w v' ok (s c.hart.mem at.shows);
  }

  put_byte :
      (a w : ℕ) (v' : View)
      → pmp_allows q mode write a ≡ true
      → ((m : Memory) → Shows l m v → Shows l (update m a w) v')
      → Moves l (store_byte l e mode k a w) tt (at_view q x v) (at_view q x v')
  put_byte a w v' ok s = record {
    moves = λ c at. store_byte-Ensures l e q x v c at mode k a w v' ok (s c.hart.mem at.shows);
  }

  pub put_mailbox :
      (i w : ℕ)
      → i < 12
      → w < 2 ^ 32
      → pmp_allows q mode write (mb l i) ≡ true
      → Moves l
          (store_word l e mode k (mb l i) w)
          tt
          (at_view q x v)
          (at_view q x (record v { mailbox = update v.mailbox i w }))
  put_mailbox i w h small ok = put (mb l i) w _ ok (λ m s. Shows-mailbox l p m v s i w h small)

  pub put_stage :
      (w : ℕ)
      → w < 2 ^ 32
      → pmp_allows q mode write l.g_stage ≡ true
      → Moves l
          (store_word l e mode k l.g_stage w)
          tt
          (at_view q x v)
          (at_view q x (record v { stage = w }))
  put_stage w small ok = put l.g_stage w _ ok (λ m s. Shows-stage l p m v s w small)

  pub put_secret :
      (w : ℕ)
      → w < 2 ^ 32
      → pmp_allows q mode write (secret l) ≡ true
      → Moves l
          (store_word l e mode k (secret l) w)
          tt
          (at_view q x v)
          (at_view q x (record v { secret_word = w }))
  put_secret w small ok = put (secret l) w _ ok (λ m s. Shows-secret l p m v s w small)

  pub put_counter :
      (w : ℕ)
      → w < 2 ^ 32
      → pmp_allows q mode write (counter l) ≡ true
      → Moves l
          (store_word l e mode k (counter l) w)
          tt
          (at_view q x v)
          (at_view q x (record v { count = w }))
  put_counter w small ok = put (counter l) w _ ok (λ m s. Shows-counter l p m v s w small)

  pub put_key :
      (i w : ℕ)
      → i < 16
      → pmp_allows q mode write (key l + i) ≡ true
      → Moves l
          (store_byte l e mode k (key l + i) w)
          tt
          (at_view q x v)
          (at_view q x (record v { key_bytes = update v.key_bytes i w }))
  put_key i w h ok = put_byte (key l + i) w _ ok (λ m s. Shows-key l p m v s i w h)

  pub put_challenge :
      (i w : ℕ)
      → i < 16
      → pmp_allows q mode write (l.challenge + i) ≡ true
      → Moves l
          (store_byte l e mode k (l.challenge + i) w)
          tt
          (at_view q x v)
          (at_view q x (record v { challenge_bytes = update v.challenge_bytes i w }))
  put_challenge i w h ok =
      put_byte (l.challenge + i) w _ ok (λ m s. Shows-challenge l p m v s i w h)

  pub get_secret :
      pmp_allows q mode read (secret l) ≡ true
      → Moves l (load_word l e mode k (secret l)) v.secret_word (at_view q x v) (at_view q x v)
  get_secret ok = record {
    moves = λ c at.
        load_word-Ensures l e q x v c at mode k (secret l) v.secret_word ok at.shows.secret_at;
  }

  pub get_challenge :
      (i : ℕ)
      → i < 16
      → pmp_allows q mode read (l.challenge + i) ≡ true
      → Moves l
          (load_byte l e mode k (l.challenge + i))
          (v.challenge_bytes i)
          (at_view q x v)
          (at_view q x v)
  get_challenge i h ok = record {
    moves = λ c at.
        load_byte-Ensures l e q x v c at mode k (l.challenge + i) (v.challenge_bytes i) ok
          (at.shows.challenge_at i h);
  }

module _ (l : Link) (e : Site) (p : IsPlaced l) {q : Pmp} {v : View} (mode : Mode) (k : ℕ) where
  pub get_recovers :
      (a : ℕ)
      → pmp_allows q mode read a ≡ false
      → v.stage ≡ stage_xh3
      → Moves l (load_word l e mode k a) (e.stale k) (at_view q (armed l) v) (
          at_view
            (record q { pmpcfgm0 = 0 })
            (armed l)
            (record v { mailbox = update v.mailbox mb_xh3_mcause 5; stage = stage_u }))
  get_recovers a denied stage = record {
    moves = λ c at. load_word_recovers l e p q v c at mode k a denied stage;
  }

  pub get_caught :
      (a : ℕ)
      → pmp_allows q mode read a ≡ false
      → v.stage ≢ stage_xh3
      → e.tval k < 2 ^ 32
      → Ends l (load_word l e mode k a) (at_view q (armed l) v) (λ h. Shows l h.mem (record v {
        mailbox =
            update (update (update v.mailbox mb_mcause 5) mb_mtval (e.tval k)) mb_stage 0x600D;
      }))
  get_caught a denied stage small = record {
    ends = λ c at. load_word_caught l e p q v c at mode k a denied stage small;
  }

module _ (l : Link) (e : Site) (p : IsPlaced l) {q : Pmp} {v : View} (k : ℕ) where
  pub call_counter :
      Moves l
        (u_ecall l e user k svc_get_counter 0 0)
        (u32 (v.count + 1))
        (at_view q (armed l) v)
        (at_view q (armed l) (record v { count = u32 (v.count + 1) }))
  call_counter = record { moves = λ c at. ecall_counter l e p q v c at k }

  pub call_sign :
      Moves l (u_ecall l e user k svc_sign_number l.challenge 16) 0 (at_view q (armed l) v) (
        at_view q
          (armed l)
          (record v { challenge_bytes = λ i. u8 (bit_xor (v.challenge_bytes i) (v.key_bytes i)) }))
  call_sign = record { moves = λ c at. ecall_sign l e p q v c at k }

pub set_pmp :
    (l : Link) (e : Site) {q : Pmp} {x : Traps} {v : View} (f : Pmp → Pmp)
    → Moves l (write_pmp l e f) tt (at_view q x v) (at_view (f q) x v)
set_pmp l e {q} {x} {v} f = record { moves = λ c at. write_pmp-Ensures l e q x v c at f }
