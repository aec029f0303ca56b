-- ===== src/Pmp/Entry.antt =====
-- The assembly trampoline of examples/minimal-pmp/main.c: `trap_entry` saves the registers on the
-- M-mode trap stack, calls `trap_dispatch` on them, restores them and returns from the trap.
pub mod Saved
pub mod Refine
use rp2350_tz_tee.Prelude.{ℕ, ◌+◌, ◌-◌, ◌*◌, ◌^◌, List, [], ◌∷◌, if◌then◌else◌, ◌==◌}
use rp2350_tz_tee.Prelude.Words.{u32}
use rp2350_tz_tee.Hw.Memory.{Memory, load32, store32}
use rp2350_tz_tee.Hw.Array.{store_words}
use rp2350_tz_tee.Pmp.Link.{Link}
use rp2350_tz_tee.Pmp.Trap.{Hart, Frame, Outcome, returned, halted, trap_dispatch}

-- A core with the registers that the trampoline and `main` touch.
pub record Core : Type 0 where
  pub hart : Hart
  pub regs : Frame
  pub sp : ℕ
  pub mscratch : ℕ
  pub mtvec : ℕ
  pub mstatus : ℕ

-- A computation ends with a value and a core, or in a loop for ever of the handler.
pub data Run (A : Type 0) : Type 0 where
  done : A → Core → Run A
  stopped : Hart → Run A

abbrev pub M : Type 0 → Type 0
M A = Core → Run A

infixl 5 ◌>>=◌ ◌>>◌
abbrev pub ◌>>=◌ : {A B : Type 0} → M A → (A → M B) → M B
◌>>=◌ m f c = elim (m c) [ done a c' ↦ f a c' | stopped h ↦ stopped h ]

abbrev pub ◌>>◌ : {A B : Type 0} → M A → M B → M B
m >> n = m >>= λ _. n

-- The sixteen stores, in the order of their offsets.
abbrev pub frame_words : Frame → List ℕ
frame_words f =
    f.a0 ∷ f.a1 ∷ f.a2 ∷ f.a3 ∷ f.a4 ∷ f.a5 ∷ f.a6 ∷ f.a7 ∷ f.t0 ∷ f.t1 ∷ f.t2 ∷ f.t3 ∷ f.t4 ∷ f.t5
    ∷ f.t6 ∷ f.ra ∷ []

unfoldable pub save_frame : ℕ → Frame → Memory → Memory
save_frame sp f m = store_words sp 0 (frame_words f) m

-- The sixteen loads. The same words are what `trap_dispatch` reads through its pointer.
unfoldable pub load_frame : ℕ → Memory → Frame
load_frame sp m = record {
  a0 = load32 m (sp + 4 * 0);
  a1 = load32 m (sp + 4 * 1);
  a2 = load32 m (sp + 4 * 2);
  a3 = load32 m (sp + 4 * 3);
  a4 = load32 m (sp + 4 * 4);
  a5 = load32 m (sp + 4 * 5);
  a6 = load32 m (sp + 4 * 6);
  a7 = load32 m (sp + 4 * 7);
  t0 = load32 m (sp + 4 * 8);
  t1 = load32 m (sp + 4 * 9);
  t2 = load32 m (sp + 4 * 10);
  t3 = load32 m (sp + 4 * 11);
  t4 = load32 m (sp + 4 * 12);
  t5 = load32 m (sp + 4 * 13);
  t6 = load32 m (sp + 4 * 14);
  ra = load32 m (sp + 4 * 15);
}

-- What `trap_dispatch` leaves in memory: for an `ecall` it also stores `a0` through its pointer.
unfoldable pub write_back : ℕ → Hart → Frame → Hart → Memory
write_back frame before f after =
    if before.mcause == 8 then store32 after.mem (frame + 4 * 0) f.a0 else after.mem

-- The part behind the call.
unfoldable pub leave : Core → ℕ → Hart → Outcome → Run (Unit {0})
unfolding write_back load_frame
leave c frame before (halted h) = stopped h
leave c frame before (returned f h) =
    let m = write_back frame before f h in
    done tt (record c {
      hart = record h { mem = m };
      regs = load_frame frame m;
      mscratch = u32 (frame + 64);
    })

unfoldable pub trap_entry : Link → M (Unit {0})
unfolding save_frame load_frame leave
trap_entry l c =
    let frame = u32 (c.mscratch + 2 ^ 32 - 64) in
    let h = record (c.hart) { mem = save_frame frame c.regs c.hart.mem } in
    leave c frame h (trap_dispatch l (load_frame frame h.mem) h)

-- The trap that the hardware takes: it sets the cause, the return address and the value.
abbrev pub trapped : Hart → ℕ → ℕ → ℕ → Hart
trapped h cause epc tval = record h { mcause = cause; mepc = epc; mtval = tval }
