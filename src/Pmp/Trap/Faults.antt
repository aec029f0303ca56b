-- ===== src/Pmp/Trap/Faults.antt =====
-- What `trap_dispatch` does for an access fault, in the self-test and in the isolation demo.
use rp2350_tz_tee.Prelude.{◌+◌, ◌^◌, ◌<◌, ◌≡◌, ◌≢◌, ◌⊎◌, inl, inr, ◌∙◌, arith, refl}
use rp2350_tz_tee.Prelude.Words.{u32}
use rp2350_tz_tee.Hw.Memory.{load32, store32, load32-store32_self, load32-store32_apart}
use rp2350_tz_tee.Pmp.Link.{
  Link, mb, mb_mcause, mb_mtval, mb_stage, mb_leaked, mb_xh3_mcause, stage_xh3, stage_u, IsLinked,
}
use rp2350_tz_tee.Pmp.Trap.{Hart, Frame, returned, halted, recover, caught, trap_dispatch}

-- A load or a store access fault, with register values of 32 bits.
pub record IsFault (h : Hart) : Type 0 where
  pub cause : (h.mcause ≡ 5) ⊎ (h.mcause ≡ 7)
  pub value : h.mtval < 2 ^ 32

-- The words of the mailbox after `caught`.
caught_words :
    (l : Link) (h : Hart)
    → IsLinked l
    → IsFault h
    → (load32 (caught l h).mem (mb l mb_mcause) ≡ h.mcause)
      × (load32 (caught l h).mem (mb l mb_mtval) ≡ h.mtval)
      × (load32 (caught l h).mem (mb l mb_stage) ≡ 0x600D)
      × (load32 (caught l h).mem (mb l mb_leaked) ≡ load32 h.mem (mb l mb_leaked))
unfolding caught
caught_words l h linked fault =
    let m = store32 h.mem (mb l mb_mcause) h.mcause in
    let m' = store32 m (mb l mb_mtval) h.mtval in
    (
      load32-store32_apart m' (mb l mb_stage) (mb l mb_mcause) 0x600D (inr (omega arith))
          ∙ load32-store32_apart m (mb l mb_mtval) (mb l mb_mcause) h.mtval (inr (omega arith))
          ∙ load32-store32_self h.mem (mb l mb_mcause) h.mcause (ground arith),
      load32-store32_apart m' (mb l mb_stage) (mb l mb_mtval) 0x600D (inr (omega arith))
          ∙ load32-store32_self m (mb l mb_mtval) h.mtval fault.value,
      load32-store32_self m' (mb l mb_stage) 0x600D (omega arith),
      load32-store32_apart m' (mb l mb_stage) (mb l mb_leaked) 0x600D (inr (omega arith))
          ∙ load32-store32_apart m (mb l mb_mtval) (mb l mb_leaked) h.mtval (inl (omega arith))
          ∙ load32-store32_apart h.mem (mb l mb_mcause) (mb l mb_leaked) h.mcause
              (inl (omega arith)),
    )

-- For an access fault outside the self-test `trap_dispatch` halts with the cause, the faulting
-- address and the marker 0x600D in the mailbox, and the word that would hold a leaked secret is
-- untouched.
pub trap_dispatch-caught :
    (l : Link) (f : Frame) (h : Hart)
    → IsLinked l
    → IsFault h
    → load32 h.mem l.g_stage ≢ stage_xh3
    → (trap_dispatch l f h ≡ halted (caught l h))
      × (load32 (caught l h).mem (mb l mb_mcause) ≡ h.mcause)
      × (load32 (caught l h).mem (mb l mb_mtval) ≡ h.mtval)
      × (load32 (caught l h).mem (mb l mb_stage) ≡ 0x600D)
      × (load32 (caught l h).mem (mb l mb_leaked) ≡ load32 h.mem (mb l mb_leaked))
unfolding trap_dispatch
trap_dispatch-caught l f h linked fault stage =
    let words = caught_words l h linked fault in (ground arith, words.0, words.1, words.2, words.3)

-- For an access fault in the self-test `trap_dispatch` returns with the frame as it was, the cause
-- in the mailbox, the stage moved on, PMPCFGM0 clear and nothing else of the PMP changed, two or
-- four bytes behind the faulting load.
pub trap_dispatch_recovers :
    (l : Link) (f : Frame) (h : Hart)
    → IsLinked l
    → IsFault h
    → load32 h.mem l.g_stage ≡ stage_xh3
    → (h' : Hart) × (trap_dispatch l f h ≡ returned f h')
      × (load32 h'.mem (mb l mb_xh3_mcause) ≡ h.mcause)
      × (load32 h'.mem l.g_stage ≡ stage_u)
      × (h'.pmp ≡ record (h.pmp) { pmpcfgm0 = 0 })
      × ((h'.mepc ≡ u32 (h.mepc + 2)) ⊎ (h'.mepc ≡ u32 (h.mepc + 4)))
unfolding trap_dispatch
trap_dispatch_recovers l f h linked fault stage = (
  recover l h,
  ground arith,
  unfold recover in
      load32-store32_apart (store32 h.mem (mb l mb_xh3_mcause) h.mcause) l.g_stage
        (mb l mb_xh3_mcause) stage_u (omega arith)
      ∙ load32-store32_self h.mem (mb l mb_xh3_mcause) h.mcause (ground arith),
  unfold recover in
      load32-store32_self (store32 h.mem (mb l mb_xh3_mcause) h.mcause) l.g_stage stage_u
        (omega arith),
  unfold recover in refl,
  unfold recover in grind arith,
)
