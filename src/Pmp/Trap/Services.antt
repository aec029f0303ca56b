-- ===== src/Pmp/Trap/Services.antt =====
-- What `trap_dispatch` does for an `ecall`, and what it never does to the protected region.
use rp2350_tz_tee.Prelude.{ℕ, ◌+◌, ◌^◌, ◌≤◌, ◌<◌, ◌≡◌, arith}
use rp2350_tz_tee.Prelude.{◌⊎◌, ◌%◌, ltb, bit_xor, if◌then◌else◌}
use rp2350_tz_tee.Prelude.Words.{u8, u32}
use rp2350_tz_tee.Hw.Memory.{load32, store32, store32_outside}
use rp2350_tz_tee.Pmp.Link.{
  Link, counter, key, mb, mb_xh3_mcause, mb_mcause, mb_mtval, mb_stage, stage_u, IsLinked,
}
use rp2350_tz_tee.Pmp.Sign.Guard.{IsProtected, IsClear, offset, svc_sign-keeps_protected}
use rp2350_tz_tee.Pmp.Trap.{
  Hart, Frame, Outcome, returned, halted, bump, serve, recover, caught, trap_dispatch,
  svc_get_counter, svc_sign_number,
}

abbrev pub hart_of : Outcome → Hart
hart_of (returned f h) = h
hart_of (halted h) = h

-- The bytes of the protected region apart from the counter: the secret and the key among them.
abbrev pub IsSecret : Link → ℕ → Type 0
IsSecret l a = IsProtected l a × ((a < counter l) ⊎ (counter l + 4 ≤ a))

serve-keeps_secrets :
    (l : Link) (f : Frame) (h : Hart) (a : ℕ)
    → IsLinked l
    → f.a0 < 2 ^ 32
    → IsSecret l a
    → (serve l f h).1.mem a ≡ h.mem a
unfolding serve
serve-keeps_secrets l f h a linked small sec = ground (
  arith,
  store32_outside h.mem (counter l) a (bump l h.mem),
  svc_sign-keeps_protected l h.mem f.a0 f.a1 a linked small,
)

recover-keeps_protected :
    (l : Link) (h : Hart) (a : ℕ) → IsLinked l → IsProtected l a → (recover l h).mem a ≡ h.mem a
unfolding recover
recover-keeps_protected l h a linked prot = ground (
  arith,
  store32_outside h.mem (mb l mb_xh3_mcause) a h.mcause,
  store32_outside (store32 h.mem (mb l mb_xh3_mcause) h.mcause) l.g_stage a stage_u,
)

caught-keeps_protected :
    (l : Link) (h : Hart) (a : ℕ) → IsLinked l → IsProtected l a → (caught l h).mem a ≡ h.mem a
unfolding caught
caught-keeps_protected l h a linked prot =
    let m = store32 h.mem (mb l mb_mcause) h.mcause in
    let m' = store32 m (mb l mb_mtval) h.mtval in
    ground (
      arith,
      store32_outside h.mem (mb l mb_mcause) a h.mcause,
      store32_outside m (mb l mb_mtval) a h.mtval,
      store32_outside m' (mb l mb_stage) a 0x600D,
    )

-- Whatever the cause of a trap and the registers, `trap_dispatch` leaves every byte of the
-- protected region outside the counter as it was, also where it halts.
pub trap_dispatch-keeps_secrets :
    (l : Link) (f : Frame) (h : Hart) (a : ℕ)
    → IsLinked l
    → f.a0 < 2 ^ 32
    → IsSecret l a
    → (hart_of (trap_dispatch l f h)).mem a ≡ h.mem a
unfolding trap_dispatch
trap_dispatch-keeps_secrets l f h a linked small sec = ground (
  arith,
  serve-keeps_secrets l f h a linked small,
  recover-keeps_protected l h a linked,
  caught-keeps_protected l h a linked,
  store32_outside h.mem (mb l mb_stage) a 0xDEAD,
)

-- What a request leaves in a0 and at each byte of memory, by the number of the service.
pub record IsServed (l : Link) (f : Frame) (old : ℕ → ℕ) (a0 : ℕ) (m : ℕ → ℕ) : Type 0 where
  pub counted :
      f.a7 ≡ svc_get_counter
      → (a0 ≡ u32 (load32 old (counter l) + 1))
        × (load32 m (counter l) ≡ a0)
        × ((x : ℕ) → (x < counter l) ⊎ (counter l + 4 ≤ x) → m x ≡ old x)
  pub signed :
      f.a7 ≡ svc_sign_number
      → (a0 ≡ 0)
        × (f.a1 ≤ 64
            → IsClear l f.a0 f.a1
            → (x : ℕ) → x < 2 ^ 32
            → m x ≡ (
                if ltb (offset f.a0 x) f.a1
                then u8 (bit_xor (old x) (old (key l + offset f.a0 x % 16)))
                else old x))
        × ((64 < f.a1) ⊎ ¬ IsClear l f.a0 f.a1 → (x : ℕ) → x < 2 ^ 32 → m x ≡ old x)
  pub refused : 1 < f.a7 → (a0 ≡ 0xFFFF_FFFF) × ((x : ℕ) → m x ≡ old x)
