-- ===== src/Pmp/Entry/Refine.antt =====
-- The trampoline as the handler with its registers passed by value.
use rp2350_tz_tee.Prelude.{ℕ, ◌+◌, ◌-◌, ◌*◌, ◌^◌, ◌≤◌, ◌<◌, ◌≡◌, ◌≢◌, ◌⊎◌, arith, refl, ◌∙◌}
use rp2350_tz_tee.Prelude.Words.{u32}
use rp2350_tz_tee.Hw.Memory.{store32, store32_outside}
use rp2350_tz_tee.Pmp.Link.{Link, IsLinked, IsStacked, counter, mb, mb_xh3_mcause, stage_u}
use rp2350_tz_tee.Pmp.Sign.Guard.{offset, svc_sign_off}
use rp2350_tz_tee.Pmp.Trap.{
  Hart, Frame, Outcome, returned, halted, bump, serve, recover, trap_dispatch, svc_sign_number,
}
use rp2350_tz_tee.Pmp.Trap.Services.{IsSecret, hart_of, trap_dispatch-keeps_secrets}
use rp2350_tz_tee.Pmp.Entry.{
  Core, done, stopped, save_frame, load_frame, write_back, leave, trap_entry,
}
use rp2350_tz_tee.Pmp.Entry.Saved.{
  IsWords, load_frame-save_frame, load_frame-cong, load_frame-store32, save_frame_outside,
}

-- A request to sign whose buffer would reach into the saved frame is left out.
pub record IsOffFrame (l : Link) (f : Frame) (h : Hart) : Type 0 where
  pub pointer : f.a0 < 2 ^ 32
  pub clear :
      h.mcause ≡ 8
      → f.a7 ≡ svc_sign_number
      → (a : ℕ) → l.stack_top - 64 ≤ a
      → a < l.stack_top
      → f.a1 ≤ offset f.a0 a

-- The handler leaves the saved frame alone.
pub frame_kept :
    (l : Link) (f f' : Frame) (h h' : Hart) (a : ℕ)
    → IsLinked l
    → IsStacked l
    → IsOffFrame l f h
    → trap_dispatch l f h ≡ returned f' h'
    → l.stack_top - 64 ≤ a
    → a < l.stack_top
    → h'.mem a ≡ h.mem a
unfolding trap_dispatch serve recover
frame_kept l f f' h h' a linked stacked off e lo hi = ground (
  arith,
  store32_outside h.mem (counter l) a (bump l h.mem),
  svc_sign_off l h.mem f.a0 f.a1 a linked off.pointer,
  λ (c : h.mcause ≡ 8) (s : f.a7 ≡ svc_sign_number). off.clear c s a lo hi,
  store32_outside h.mem (mb l mb_xh3_mcause) a h.mcause,
  store32_outside (store32 h.mem (mb l mb_xh3_mcause) h.mcause) l.g_stage a stage_u,
)

-- What the handler changes of the registers: `a0`, and that only for an `ecall`.
pub returned_frame :
    (l : Link) (f f' : Frame) (h h' : Hart)
    → f.a0 < 2 ^ 32
    → trap_dispatch l f h ≡ returned f' h'
    → (f' ≡ record f { a0 = f'.a0 }) × (f'.a0 < 2 ^ 32) × (h.mcause ≢ 8 → f' ≡ f)
unfolding trap_dispatch serve
returned_frame l f f' h h' small e = (ground arith, ground arith, (λ n. ground arith))

-- The frame as the trampoline finds it behind the call.
reloaded :
    (sp : ℕ) (f f' : Frame) (h h' : Hart)
    → load_frame sp h'.mem ≡ f
    → f' ≡ record f { a0 = f'.a0 }
    → f'.a0 < 2 ^ 32
    → (h.mcause ≢ 8 → f' ≡ f)
    → load_frame sp (write_back sp h f' h') ≡ f'
unfolding write_back
reloaded sp f f' h h' e shape small same = ground (arith, load_frame-store32 sp f'.a0 h'.mem small)

-- The trampoline implements the handler with its registers passed by value: where `trap_dispatch`
-- returns on the saved frame, `trap_entry` restores the registers that it returned and the two
-- stack pointers, and leaves `mtvec`, and the hart that it left but for the four bytes of the
-- saved a0. The trap stack is in `mscratch` and apart from the other objects, the registers are
-- 32-bit words, and a signature is not asked for a buffer that reaches into the saved frame.
pub trap_entry_refines :
    (l : Link) (c : Core) (f' : Frame) (h' : Hart)
    → IsLinked l
    → IsStacked l
    → c.mscratch ≡ l.stack_top
    → IsWords c.regs
    → IsOffFrame l c.regs c.hart
    → trap_dispatch l c.regs
        (record (c.hart) { mem = save_frame (l.stack_top - 64) c.regs c.hart.mem })
      ≡ returned f' h'
    → (c' : Core) × (trap_entry l c ≡ done tt c')
      × (c'.regs ≡ f')
      × (c'.sp ≡ c.sp)
      × (c'.mscratch ≡ c.mscratch)
      × (c'.mtvec ≡ c.mtvec)
      × (c'.hart ≡ record h' { mem = c'.hart.mem })
      × ((a : ℕ) → (a < l.stack_top - 64) ⊎ (l.stack_top - 60 ≤ a) → c'.hart.mem a ≡ h'.mem a)
unfolding trap_entry leave
trap_entry_refines l c f' h' linked stacked scratch w off e =
    let frame = l.stack_top - 64 in
    let at : u32 (c.mscratch + 2 ^ 32 - 64) ≡ frame = omega arith in
    let top : u32 (frame + 64) ≡ c.mscratch = omega arith in
    let h = record (c.hart) { mem = save_frame frame c.regs c.hart.mem } in
    let loaded = load_frame-save_frame frame c.regs c.hart.mem w in
    let kept : load_frame frame h'.mem ≡ c.regs =
      load_frame-cong frame h'.mem h.mem (λ a lo hi.
        frame_kept l c.regs f' h h' a linked stacked
          (record { pointer = off.pointer; clear = off.clear }) e lo (omega arith))
      ∙ loaded in
    let back = returned_frame l c.regs f' h h' off.pointer e in
    let again = reloaded frame c.regs f' h h' kept back.0 back.1 back.2 in
    (
      record c { hart = record h' { mem = write_back frame h f' h' }; regs = f' },
      rw (at, loaded, e, again, top) refl,
      refl,
      refl,
      refl,
      refl,
      refl,
      (λ a out.
          unfold write_back in ground (arith, store32_outside h'.mem (frame + 4 * 0) a f'.a0)),
    )

pub trap_entry_stops :
    (l : Link) (c : Core) (h' : Hart)
    → IsStacked l
    → c.mscratch ≡ l.stack_top
    → IsWords c.regs
    → trap_dispatch l c.regs
        (record (c.hart) { mem = save_frame (l.stack_top - 64) c.regs c.hart.mem })
      ≡ halted h'
    → trap_entry l c ≡ stopped h'
unfolding trap_entry leave
trap_entry_stops l c h' stacked scratch w e =
    let at : u32 (c.mscratch + 2 ^ 32 - 64) ≡ l.stack_top - 64 = omega arith in
    rw (at, load_frame-save_frame (l.stack_top - 64) c.regs c.hart.mem w, e) refl

-- What is behind the call changes of the hart only four bytes of the frame.
leave_keeps :
    (c : Core) (frame : ℕ) (h : Hart) (o : Outcome) (c' : Core) (a : ℕ)
    → leave c frame h o ≡ done tt c'
    → ((a < frame + 4 * 0) ⊎ (frame + 4 * 0 + 4 ≤ a) → c'.hart.mem a ≡ (hart_of o).mem a)
      × (c'.hart.pmp ≡ (hart_of o).pmp)
unfolding leave write_back
leave_keeps c frame h (halted n) c' a e = cc
leave_keeps c frame h (returned f n) c' a e =
    ((λ out. ground (arith, store32_outside n.mem (frame + 4 * 0) a f.a0)), ground arith)

-- The trampoline leaves the secrets as the handler does, whatever the registers hold.
pub trap_entry-keeps_secrets :
    (l : Link) (c c' : Core) (a : ℕ)
    → IsLinked l
    → IsStacked l
    → c.mscratch ≡ l.stack_top
    → IsWords c.regs
    → trap_entry l c ≡ done tt c'
    → IsSecret l a
    → c'.hart.mem a ≡ c.hart.mem a
unfolding trap_entry
trap_entry-keeps_secrets l c c' a linked stacked scratch w e sec =
    let frame = l.stack_top - 64 in
    let at : u32 (c.mscratch + 2 ^ 32 - 64) ≡ frame = omega arith in
    let h : Hart = record (c.hart) { mem = save_frame frame c.regs c.hart.mem } in
    let run : leave c frame h (trap_dispatch l c.regs h) ≡ done tt c' =
      rw (at, load_frame-save_frame frame c.regs c.hart.mem w) at e in
    (leave_keeps c frame h (trap_dispatch l c.regs h) c' a run).0 (omega arith)
    ∙ trap_dispatch-keeps_secrets l c.regs h a linked w.0 sec
    ∙ save_frame_outside frame c.regs c.hart.mem a (omega arith)

-- And the PMP registers as the handler leaves them.
pub trap_entry_pmp :
    (l : Link) (c c' : Core)
    → IsStacked l
    → c.mscratch ≡ l.stack_top
    → IsWords c.regs
    → trap_entry l c ≡ done tt c'
    → let h = record (c.hart) { mem = save_frame (l.stack_top - 64) c.regs c.hart.mem } in
      c'.hart.pmp ≡ (hart_of (trap_dispatch l c.regs h)).pmp
unfolding trap_entry
trap_entry_pmp l c c' stacked scratch w e =
    let frame = l.stack_top - 64 in
    let at : u32 (c.mscratch + 2 ^ 32 - 64) ≡ frame = omega arith in
    let h : Hart = record (c.hart) { mem = save_frame frame c.regs c.hart.mem } in
    let run : leave c frame h (trap_dispatch l c.regs h) ≡ done tt c' =
      rw (at, load_frame-save_frame frame c.regs c.hart.mem w) at e in
    (leave_keeps c frame h (trap_dispatch l c.regs h) c' 0 run).1
