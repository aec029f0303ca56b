-- ===== src/Pmp/Main/Services.antt =====
-- The traps of the demo as changes of the view: the services, the self-test and the last fault.
use rp2350_tz_tee.Prelude.{
  ℕ, ◌+◌, ◌-◌, ◌%◌, ◌==◌, true, ◌^◌, ◌<◌, ◌≡◌, ◌≢◌, arith, refl, ap, ◌∙◌, false, bit_xor,
}
use mathlib.Core.Path.{subst}
use rp2350_tz_tee.Prelude.Maps.{update}
use rp2350_tz_tee.Prelude.Words.{u8, u32}
use rp2350_tz_tee.Hw.Memory.{load32, store32}
use rp2350_tz_tee.Hw.Pmp.{Pmp, Mode, user, read, pmp_allows}
use rp2350_tz_tee.Pmp.Link.{
  Link, IsPlaced, counter, mb, mb_xh3_mcause, mb_mcause, mb_mtval, mb_stage, stage_xh3, stage_u,
}
use rp2350_tz_tee.Pmp.Sign.{svc_sign}
use rp2350_tz_tee.Pmp.Trap.{
  Hart, Frame, returned, halted, bump, serve, recover, caught, trap_dispatch, svc_get_counter,
  svc_sign_number,
}
use rp2350_tz_tee.Pmp.Entry.{Core, done, save_frame, trap_entry, trapped}
use rp2350_tz_tee.Pmp.Entry.Saved.{IsWords}
use rp2350_tz_tee.Pmp.Entry.Refine.{IsOffFrame, trap_entry_refines, trap_entry_stops}
use rp2350_tz_tee.Pmp.Access.{Site, trap, load_word, u_ecall}
use rp2350_tz_tee.Pmp.Main.View.{View, Shows, Shows-mailbox, Shows-stage, Shows-counter}
use rp2350_tz_tee.Pmp.Main.Shown.{Shows-save_frame, Shows-off, Shows-svc_sign}
use rp2350_tz_tee.Pmp.Main.Logic.{armed, Ensures, Stops, Ensures-bind, Stops-first, Ready}

-- The hart that the handler works on.
abbrev entered : Link → Site → ℕ → ℕ → Core → Hart
entered l e cause k c =
    let h = trapped c.hart cause (e.pc k) (e.tval k) in
    record h { mem = save_frame (l.stack_top - 64) c.regs h.mem }

IsWords-ecall :
    (f : Frame) (a0 a1 a7 : ℕ)
    → IsWords f
    → a0 < 2 ^ 32
    → a1 < 2 ^ 32
    → a7 < 2 ^ 32
    → IsWords (record f { a0 = a0; a1 = a1; a7 = a7 })
IsWords-ecall f a0 a1 a7 w h0 h1 h7 =
    let s = w.1.1 in
    (h0, (h1, (s.0, (s.1.0, (s.1.1.0, (s.1.1.1.0, (s.1.1.1.1.0, (h7, s.1.1.1.1.1.1))))))))

goes_there : (vector at : ℕ) → vector ≡ at → at % 4 ≡ 0 → (vector - vector % 4 == at) ≡ true
goes_there vector at e aligned = ground arith

module _ (l : Link) (e : Site) (p : IsPlaced l) (q : Pmp) (v : View) where
  -- A trap from which the handler returns.
  trap-Ensures :
      (cause k : ℕ) (c : Core) (q' : Pmp) (v' : View) (f' : Frame) (h' : Hart)
      → Ready l q (armed l) v c
      → (cause ≡ 8 → c.regs.a7 ≡ svc_sign_number → (c.regs.a0 ≡ l.challenge) × (c.regs.a1 ≡ 16))
      → trap_dispatch l c.regs (entered l e cause k c) ≡ returned f' h'
      → IsWords f'
      → h'.pmp ≡ q'
      → Shows l h'.mem v'
      → Ensures (trap l e cause k c) (λ u c'. (c'.regs ≡ f') × Ready l q' (armed l) v' c')
  unfolding trap
  trap-Ensures cause k c q' v' f' h' r sign back w conf s =
      let n = record c { hart = trapped c.hart cause (e.pc k) (e.tval k) } in
      let off : IsOffFrame l c.regs n.hart = record {
        pointer = r.words.0;
        clear = λ c8 s1 a lo hi. let at = sign c8 s1 in rw (at.0, at.1) (omega arith);
      } in
      let (c', run, regs, sp, scratch, vector, hart, mem) =
        trap_entry_refines l n f' h' p.linked p.stacked r.scratch r.words off back in
      let there : (c.mtvec - c.mtvec % 4 == l.trap_entry_at) ≡ true =
        goes_there c.mtvec l.trap_entry_at r.vector p.trap_entry_aligned in
      let back_at : Ensures (trap_entry l n) (λ u c'. (c'.regs ≡ f') × Ready l q' (armed l) v' c') =
        rw run (
          regs,
          record {
            config = ap (λ (h : Hart). h.pmp) hart ∙ conf;
            scratch = scratch ∙ r.scratch;
            vector = vector ∙ r.vector;
            words = rw regs w;
            shows = Shows-off l p h'.mem v' s c'.hart.mem mem;
          },
        ) in
      rw there (
        Ensures-bind (λ u c'. (c'.regs ≡ f') × Ready l q' (armed l) v' c') (trap_entry l)
          (λ u c'. done tt (record c' { mstatus = e.status k })) n
          (λ u c'. (c'.regs ≡ f') × Ready l q' (armed l) v' c') back_at
          (λ u c' h. (
            h.0,
            record {
              config = h.1.config;
              scratch = h.1.scratch;
              vector = h.1.vector;
              words = h.1.words;
              shows = h.1.shows;
            },
          )))

  -- A trap in which the handler halts.
  trap-Stops :
      (cause k : ℕ) (c : Core) (h' : Hart) (Q : Hart → Type 0)
      → Ready l q (armed l) v c
      → trap_dispatch l c.regs (entered l e cause k c) ≡ halted h'
      → Q h'
      → Stops (trap l e cause k c) Q
  unfolding trap
  trap-Stops cause k c h' Q r back holds =
      let n = record c { hart = trapped c.hart cause (e.pc k) (e.tval k) } in
      let there : (c.mtvec - c.mtvec % 4 == l.trap_entry_at) ≡ true =
        goes_there c.mtvec l.trap_entry_at r.vector p.trap_entry_aligned in
      let stop : Stops (trap_entry l n) Q =
        rw (trap_entry_stops l n h' p.stacked r.scratch r.words back) holds in
      rw there
        (Stops-first (trap_entry l) (λ u c'. done tt (record c' { mstatus = e.status k })) n Q stop)

module _ (l : Link) (e : Site) (p : IsPlaced l) (q : Pmp) (v : View) (c : Core)
    (r : Ready l q (armed l) v c) where
  -- The registers and the call of `u_ecall`.
  pub ecall_counter :
      (k : ℕ)
      → Ensures (u_ecall l e user k svc_get_counter 0 0 c) (λ a c'.
        (a ≡ u32 (v.count + 1)) × Ready l q (armed l) (record v { count = u32 (v.count + 1) }) c')
  unfolding u_ecall
  ecall_counter k =
      let n = record c { regs = record (c.regs) { a0 = 0; a1 = 0; a7 = svc_get_counter } } in
      let h = entered l e 8 k n in
      let s0 = Shows-save_frame l p c.hart.mem v r.shows n.regs in
      let up : bump l h.mem ≡ u32 (v.count + 1) = ap (λ x. u32 (x + 1)) s0.counter_at in
      let words =
        IsWords-ecall c.regs 0 0 svc_get_counter r.words (omega arith) (omega arith)
          (omega arith) in
      let small : bump l h.mem < 2 ^ 32 = omega arith in
      Ensures-bind
        (λ u c'.
          (c'.regs ≡ record (n.regs) { a0 = bump l h.mem })
          × Ready l q (armed l) (record v { count = u32 (v.count + 1) }) c')
        (trap l e 8 k) (λ u c'. done c'.regs.a0 c') n
        (λ a c'.
          (a ≡ u32 (v.count + 1)) × Ready l q (armed l) (record v { count = u32 (v.count + 1) }) c')
        (trap-Ensures l e p q v 8 k n q (record v { count = u32 (v.count + 1) })
          (record (n.regs) { a0 = bump l h.mem })
          (record h { mem = store32 h.mem (counter l) (bump l h.mem); mepc = u32 (h.mepc + 4) })
          (record {
            config = r.config;
            scratch = r.scratch;
            vector = r.vector;
            words = words;
            shows = r.shows;
          })
          (λ c8 s1. absurd (omega arith)) (unfold trap_dispatch serve in refl) (small, words.1)
          r.config
          (subst (λ x. Shows l (store32 h.mem (counter l) (bump l h.mem)) (record v { count = x }))
            up (Shows-counter l p h.mem v s0 (bump l h.mem) small)))
        (λ u c' h. (ap (λ (f : Frame). f.a0) h.0 ∙ up, h.1))

  pub ecall_sign :
      (k : ℕ)
      → Ensures (u_ecall l e user k svc_sign_number l.challenge 16 c) (λ a c'.
        (a ≡ 0)
        × Ready l q
            (armed l)
            (record v { challenge_bytes = λ i. u8 (bit_xor (v.challenge_bytes i) (v.key_bytes i)) })
            c')
  unfolding u_ecall
  ecall_sign k =
      let n = record c {
        regs = record (c.regs) { a0 = l.challenge; a1 = 16; a7 = svc_sign_number };
      } in
      let v' = record v {
        challenge_bytes = λ i. u8 (bit_xor (v.challenge_bytes i) (v.key_bytes i));
      } in
      let h = entered l e 8 k n in
      let s0 = Shows-save_frame l p c.hart.mem v r.shows n.regs in
      let words =
        IsWords-ecall c.regs l.challenge 16 svc_sign_number r.words (omega arith) (omega arith)
          (omega arith) in
      Ensures-bind (λ u c'. (c'.regs ≡ record (n.regs) { a0 = 0 }) × Ready l q (armed l) v' c')
        (trap l e 8 k) (λ u c'. done c'.regs.a0 c') n (λ a c'. (a ≡ 0) × Ready l q (armed l) v' c')
        (trap-Ensures l e p q v 8 k n q v' (record (n.regs) { a0 = 0 })
          (record h { mem = svc_sign l h.mem l.challenge 16; mepc = u32 (h.mepc + 4) })
          (record {
            config = r.config;
            scratch = r.scratch;
            vector = r.vector;
            words = words;
            shows = r.shows;
          })
          (λ c8 s1. (refl, refl)) (unfold trap_dispatch serve in refl) (omega arith, words.1)
          r.config (Shows-svc_sign l p h.mem v s0))
        (λ u c' h. (ap (λ (f : Frame). f.a0) h.0, h.1))

  -- A load that the PMP denies in the self-test: recorded, lifted and skipped.
  pub load_word_recovers :
      (mode : Mode) (k a : ℕ)
      → pmp_allows q mode read a ≡ false
      → v.stage ≡ stage_xh3
      → Ensures (load_word l e mode k a c) (λ w c'.
        (w ≡ e.stale k)
        × Ready l
            (record q { pmpcfgm0 = 0 })
            (armed l)
            (record v { mailbox = update v.mailbox mb_xh3_mcause 5; stage = stage_u })
            c')
  unfolding load_word
  load_word_recovers mode k a denied stage =
      let here : pmp_allows c.hart.pmp mode read a ≡ false = rw r.config denied in
      let v' = record v { mailbox = update v.mailbox mb_xh3_mcause 5; stage = stage_u } in
      let q' = record q { pmpcfgm0 = 0 } in
      let h = entered l e 5 k c in
      let s0 = Shows-save_frame l p c.hart.mem v r.shows c.regs in
      let s1 = Shows-mailbox l p h.mem v s0 mb_xh3_mcause 5 (omega arith) (omega arith) in
      let s2 =
        Shows-stage l p (store32 h.mem (mb l mb_xh3_mcause) 5)
          (record v { mailbox = update v.mailbox mb_xh3_mcause 5 }) s1 stage_u (omega arith) in
      let under : load32 h.mem l.g_stage ≡ stage_xh3 = s0.stage_at ∙ stage in
      rw here (
        Ensures-bind (λ u c'. (c'.regs ≡ c.regs) × Ready l q' (armed l) v' c') (trap l e 5 k)
          (λ u c'. done (e.stale k) c') c (λ w c'. (w ≡ e.stale k) × Ready l q' (armed l) v' c')
          (trap-Ensures l e p q v 5 k c q' v' c.regs (recover l h) r (λ c8 s1. absurd (omega arith))
            (unfold trap_dispatch in rw under refl) r.words
            (unfold recover in ap (λ (x : Pmp). record x { pmpcfgm0 = 0 }) r.config)
            (unfold recover in s2))
          (λ u c' h. (refl, h.1)))

  -- A load that the PMP denies otherwise: recorded, and the run is over.
  pub load_word_caught :
      (mode : Mode) (k a : ℕ)
      → pmp_allows q mode read a ≡ false
      → v.stage ≢ stage_xh3
      → e.tval k < 2 ^ 32
      → Stops (load_word l e mode k a c) (λ h. Shows l h.mem (record v {
        mailbox =
            update (update (update v.mailbox mb_mcause 5) mb_mtval (e.tval k)) mb_stage 0x600D;
      }))
  unfolding load_word
  load_word_caught mode k a denied stage small =
      let here : pmp_allows c.hart.pmp mode read a ≡ false = rw r.config denied in
      let h = entered l e 5 k c in
      let s0 = Shows-save_frame l p c.hart.mem v r.shows c.regs in
      let s1 = Shows-mailbox l p h.mem v s0 mb_mcause 5 (omega arith) (omega arith) in
      let m1 = store32 h.mem (mb l mb_mcause) 5 in
      let v1 = record v { mailbox = update v.mailbox mb_mcause 5 } in
      let s2 = Shows-mailbox l p m1 v1 s1 mb_mtval (e.tval k) (omega arith) small in
      let s3 =
        Shows-mailbox l p (store32 m1 (mb l mb_mtval) (e.tval k))
          (record v { mailbox = update (update v.mailbox mb_mcause 5) mb_mtval (e.tval k) }) s2
          mb_stage 0x600D (omega arith) (omega arith) in
      rw here (
        Stops-first (trap l e 5 k) (λ u c'. done (e.stale k) c') c
          (λ h. Shows l h.mem (record v {
            mailbox =
                update (update (update v.mailbox mb_mcause 5) mb_mtval (e.tval k)) mb_stage 0x600D;
          }))
          (trap-Stops l e p q v 5 k c (caught l h)
            (λ h. Shows l h.mem (record v {
              mailbox =
                  update (update (update v.mailbox mb_mcause 5) mb_mtval (e.tval k)) mb_stage
                    0x600D;
            }))
            r (unfold trap_dispatch in ground (arith, s0.stage_at)) (unfold caught in s3)))
