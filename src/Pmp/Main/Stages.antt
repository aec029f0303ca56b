-- ===== src/Pmp/Main/Stages.antt =====
-- The parts of the demo's run: set-up, self-test, services, and the illegal read.
use rp2350_tz_tee.Prelude.{
  ℕ, ◌+◌, ◌-◌, ◌*◌, ◌/◌, ◌%◌, ◌^◌, ◌==◌, true, ◌≤◌, ◌<◌, ◌≡◌, ◌⊎◌, arith, refl, bit_xor, bit_or,
}
use rp2350_tz_tee.Prelude.Maps.{update}
use rp2350_tz_tee.Prelude.Words.{u8, u32}
use rp2350_tz_tee.Hw.Pmp.{Pmp, Access, machine, user, read, write}
use rp2350_tz_tee.Pmp.Link.{Link, IsPlaced, secret, counter, mb}
use rp2350_tz_tee.Pmp.Isolate.{pmp_isolate_secret}
use rp2350_tz_tee.Pmp.Trap.{Hart}
use rp2350_tz_tee.Pmp.Access.{Site}
use rp2350_tz_tee.Pmp.Main.{
  use_services, try_secret, u_mode_entry, set_mscratch, set_mtvec, drop_to_user, mret, set_up,
  xh3_demo, main,
}
use rp2350_tz_tee.Pmp.Main.Logic.{Traps, armed}
use rp2350_tz_tee.Pmp.Main.View.{View, Shows}
use rp2350_tz_tee.Pmp.Main.Rights.{
  IsOff, machine_off, machine_on, user_on, user_denied, machine_denied, isolated_again,
}
use rp2350_tz_tee.Pmp.Main.Moves.{
  State, Moves, Ends, at_view, Moves-bind, Moves-then, Ends-then, Ends-first,
}
use rp2350_tz_tee.Pmp.Main.Steps.{
  put_mailbox, put_stage, put_secret, put_counter, get_secret, get_challenge, get_recovers,
  get_caught, call_counter, call_sign, set_pmp,
}
use rp2350_tz_tee.Pmp.Main.Loops.{filled, clear_words-Moves, fill_key-Moves, fill_challenge-Moves}

-- The views after the parts of the run.
abbrev after_set_up : View → View
after_set_up v = record v {
  mailbox = update (filled (λ j. 0) 12 0 v.mailbox) 0 0x504D_5002;
  secret_word = 0x5EC0_0001;
  count = 0;
  key_bytes = filled (λ j. u8 (0xA5 + j)) 16 0 v.key_bytes;
}

module _ (l : Link) (e : Site) (p : IsPlaced l) where
  set_mscratch-Moves :
      (q : Pmp) (x : Traps) (v : View)
      → Moves l
          (set_mscratch l e l.stack_top)
          tt
          (at_view q x v)
          (at_view q (record x { stack = l.stack_top }) v)
  unfolding set_mscratch
  set_mscratch-Moves q x v = record {
    moves = λ c at. (
      refl,
      record {
        config = at.config;
        scratch = refl;
        vector = at.vector;
        words = at.words;
        shows = at.shows;
      },
    );
  }

  set_mtvec-Moves :
      (q : Pmp) (x : Traps) (v : View)
      → Moves l
          (set_mtvec l e l.trap_entry_at)
          tt
          (at_view q x v)
          (at_view q (record x { vector = l.trap_entry_at }) v)
  unfolding set_mtvec
  set_mtvec-Moves q x v = record {
    moves = λ c at. (
      refl,
      record {
        config = at.config;
        scratch = at.scratch;
        vector = refl;
        words = at.words;
        shows = at.shows;
      },
    );
  }

  set_up-Moves :
      (q : Pmp) (x : Traps) (v : View)
      → IsOff q
      → Moves l
          (set_up l e)
          tt
          (at_view q x v)
          (at_view (pmp_isolate_secret l.g_prot q) (armed l) (after_set_up v))
  unfolding set_up
  set_up-Moves q x v off =
      let ok = λ (a : ℕ). machine_off q write a off in
      Moves-then (clear_words-Moves l e p q x v 12 0 ok (omega arith)) (
        Moves-then
          (put_mailbox l e p machine 2 0 0x504D_5002 (omega arith) (omega arith) (ok (mb l 0)))
          (Moves-then (put_secret l e p machine 17 0x5EC0_0001 (omega arith) (ok (secret l))) (
            Moves-then (put_counter l e p machine 18 0 (omega arith) (ok (counter l))) (
              Moves-then (fill_key-Moves l e p q x _ 16 0 ok (omega arith)) (
                Moves-then (set_mscratch-Moves _ _ _) (
                  Moves-then (set_mtvec-Moves _ _ _)
                    (set_pmp l e (pmp_isolate_secret l.g_prot))))))))

-- The self-test.
abbrev after_xh3 : View → View
after_xh3 v = record v {
  mailbox = update (update (update v.mailbox 1 v.secret_word) 2 5) 3 v.secret_word;
  stage = 2;
}

-- The challenge after it is filled and signed, and its first word.
abbrev signed : View → ℕ → ℕ
signed v i = u8 (bit_xor (filled (λ j. u8 (j + 1)) 16 0 v.challenge_bytes i) (v.key_bytes i))

abbrev signed_word : View → ℕ
signed_word v =
    bit_or (bit_or (bit_or (signed v 0) (signed v 1 * 2 ^ 8)) (signed v 2 * 2 ^ 16))
      (signed v 3 * 2 ^ 24)

-- The services.
abbrev after_services : View → View
after_services v =
    let once = u32 (v.count + 1) in
    let twice = u32 (once + 1) in
    record v {
      mailbox = update (update (update (update v.mailbox 4 0x55) 5 once) 6 twice) 7 (signed_word v);
      count = twice;
      challenge_bytes = signed v;
    }

module _ (l : Link) (e : Site) (p : IsPlaced l) (q : Pmp) (v : View) where
  xh3_demo-Moves :
      v.secret_word < 2 ^ 32
      → Moves l
          (xh3_demo l e)
          tt
          (at_view (pmp_isolate_secret l.g_prot q) (armed l) v)
          (at_view (pmp_isolate_secret l.g_prot q) (armed l) (after_xh3 v))
  unfolding xh3_demo
  xh3_demo-Moves small =
      let ok = λ (k : Access) (a : ℕ) (h : a < 2 ^ 32). machine_on l p q k a h in
      Moves-bind _ (get_secret l e p machine 19 (ok read (secret l) (omega arith))) (
        Moves-then
          (put_mailbox l e p machine 20 1 v.secret_word (omega arith) small
            (ok write (mb l 1) (omega arith)))
          (Moves-then
            (put_stage l e p machine 21 1 (omega arith) (ok write l.g_stage (omega arith)))
            (Moves-then (set_pmp l e (λ r. record r { pmpcfgm0 = 1 })) (
              Moves-bind _
                (get_recovers l e p machine 22 (secret l)
                  (machine_denied l p q read (secret l) (omega arith) (omega arith)) refl)
                (rw (isolated_again l.g_prot q) (
                  Moves-bind _ (get_secret l e p machine 23 (ok read (secret l) (omega arith))) (
                    put_mailbox l e p machine 24 3 v.secret_word (omega arith) small
                      (ok write (mb l 3) (omega arith)))))))))

  use_services-Moves :
      signed_word v < 2 ^ 32
      → Moves l
          (use_services l e user)
          tt
          (at_view (pmp_isolate_secret l.g_prot q) (armed l) v)
          (at_view (pmp_isolate_secret l.g_prot q) (armed l) (after_services v))
  unfolding use_services
  use_services-Moves small =
      let ok = λ (k : Access) (a : ℕ) (h : a < 2 ^ 32) (out : (a < l.g_prot) ⊎ (l.g_prot + 64 ≤ a)).
        user_on l p q k a h out in
      let box = λ (i : ℕ) (h : i < 12). ok write (mb l i) (omega arith) (omega arith) in
      let load = λ (i : ℕ) (h : i < 16). ok read (l.challenge + i) (omega arith) (omega arith) in
      Moves-then (put_mailbox l e p user 3 4 0x55 (omega arith) (omega arith) (box 4 (omega arith)))
        (Moves-bind _ (call_counter l e p 4) (
          Moves-then
            (put_mailbox l e p user 4 5 (u32 (v.count + 1)) (omega arith) (omega arith)
              (box 5 (omega arith)))
            (Moves-bind _ (call_counter l e p 5) (
              Moves-then
                (put_mailbox l e p user 5 6 (u32 (u32 (v.count + 1) + 1)) (omega arith)
                  (omega arith) (box 6 (omega arith)))
                (Moves-then
                  (fill_challenge-Moves l e p _ _ _ 16 0
                    (λ j h. ok write (l.challenge + j) (omega arith) (omega arith)) (omega arith))
                  (Moves-bind _ (call_sign l e p 7) (
                    Moves-bind _ (get_challenge l e p user 8 0 (omega arith) (load 0 (omega arith)))
                      (Moves-bind _
                        (get_challenge l e p user 9 1 (omega arith) (load 1 (omega arith)))
                        (Moves-bind _
                          (get_challenge l e p user 10 2 (omega arith) (load 2 (omega arith)))
                          (Moves-bind _
                            (get_challenge l e p user 11 3 (omega arith) (load 3 (omega arith)))
                            (put_mailbox l e p user 12 7 _ (omega arith) small
                              (box 7 (omega arith)))))))))))))

  -- The read of the secret ends the run, with the cause and the address in the mailbox.
  try_secret-Ends :
      v.stage ≡ 2
      → e.tval 14 < 2 ^ 32
      → Ends l (try_secret l e user) (at_view (pmp_isolate_secret l.g_prot q) (armed l) v) (λ h.
        Shows l h.mem (record v {
          mailbox =
              update (update (update (update v.mailbox 11 0xBAD0) 8 5) 9 (e.tval 14)) 11 0x600D;
        }))
  unfolding try_secret
  try_secret-Ends stage small =
      Ends-then
        (put_mailbox l e p user 13 11 0xBAD0 (omega arith) (omega arith)
          (user_on l p q write (mb l 11) (omega arith) (omega arith)))
        (Ends-first _ (
          get_caught l e p user 14 (secret l)
            (user_denied l p q read (secret l) (omega arith) (omega arith)) (omega arith) small))

-- Taking the field away leaves U-mode in it.
mpp-cleared : (ms : ℕ) → (ms - ms / 2 ^ 11 % 4 * 2 ^ 11) / 2 ^ 11 % 4 ≡ 0
mpp-cleared ms = omega arith

-- `main` ends as `u_mode_entry` does in U-mode, whatever `mstatus` held.
drop_to_user-Ends :
    (l : Link) (e : Site) (p : IsPlaced l) (s : State) {Q : Hart → Type 0}
    → Ends l (u_mode_entry l e user) s Q
    → Ends l (drop_to_user l e) s Q
unfolding drop_to_user mret
drop_to_user-Ends l e p s k = record {
  ends = λ c at.
      let there : (l.u_mode_entry_at - l.u_mode_entry_at % 2 == l.u_mode_entry_at) ≡ true =
        ground (arith, p.u_mode_entry_aligned) in
      rw (there, mpp-cleared c.mstatus)
        (k.ends _ (record {
          config = at.config;
          scratch = at.scratch;
          vector = at.vector;
          words = at.words;
          shows = at.shows;
        }));
}

-- The view before U-mode runs, and at the end.
abbrev before_user : View → View
before_user v =
    let v' = after_xh3 (after_set_up v) in
    record v' { mailbox = update v'.mailbox 11 0xA11; stage = 2 }

abbrev pub at_end : ℕ → View → View
at_end tval v =
    let v' = after_services (before_user v) in
    record v' {
      mailbox = update (update (update (update v'.mailbox 11 0xBAD0) 8 5) 9 tval) 11 0x600D;
    }

module _ (l : Link) (e : Site) (p : IsPlaced l) (q : Pmp) (v : View) where
  pub main-Ends :
      (x : Traps)
      → IsOff q
      → e.tval 14 < 2 ^ 32
      → Ends l (main l e) (at_view q x v) (λ h. Shows l h.mem (at_end (e.tval 14) v))
  unfolding main u_mode_entry
  main-Ends x off small =
      let ok = λ (a : ℕ) (h : a < 2 ^ 32). machine_on l p q write a h in
      let word : signed_word (before_user v) < 2 ^ 32 = unfold filled in omega arith in
      Ends-then (set_up-Moves l e p q x v off) (
        Ends-then (xh3_demo-Moves l e p q _ (omega arith)) (
          Ends-then (put_stage l e p machine 25 2 (omega arith) (ok l.g_stage (omega arith))) (
            Ends-then
              (put_mailbox l e p machine 26 11 0xA11 (omega arith) (omega arith)
                (ok (mb l 11) (omega arith)))
              (drop_to_user-Ends l e p _ (
                Ends-then (use_services-Moves l e p q _ word)
                  (try_secret-Ends l e p q _ refl small))))))
