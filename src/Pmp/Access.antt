-- ===== src/Pmp/Access.antt =====
-- Loads, stores and calls as examples/minimal-pmp/main.c makes them: every access goes through the
-- PMP, and what it denies traps to the trampoline. Words are aligned, so one check covers them. A
-- trap that returns goes on behind its instruction, where the handler leaves `mepc`.
use rp2350_tz_tee.Prelude.{ℕ, ◌-◌, ◌%◌, ◌==◌, if◌then◌else◌}
use rp2350_tz_tee.Prelude.Maps.{update}
use rp2350_tz_tee.Hw.Memory.{load32, store32}
use rp2350_tz_tee.Hw.Pmp.{Pmp, Mode, user, machine, read, write, pmp_allows}
use rp2350_tz_tee.Pmp.Link.{Link}
use rp2350_tz_tee.Pmp.Entry.{done, M, ◌>>=◌, trapped, trap_entry}

-- What the compiler and the hardware decide about the place `k` of the program: the address of its
-- instruction, what `mtval` reports there, what a register held before a load that is skipped, and
-- what `mstatus` holds behind a trap or an `mret` there. `elsewhere` is what runs at an address that is
-- none of the entries of the program.
pub record Site : Type 0 where
  pub pc : ℕ → ℕ
  pub tval : ℕ → ℕ
  pub stale : ℕ → ℕ
  pub status : ℕ → ℕ
  pub elsewhere : ℕ → M (Unit {0})

-- `ecall` has a cause for each mode that makes it.
abbrev pub ecall_cause : Mode → ℕ
ecall_cause user = 8
ecall_cause machine = 11

module _ (l : Link) (e : Site) where
  -- An exception goes to the base in `mtvec`, whose two low bits are the mode.
  unfoldable pub trap : (cause k : ℕ) → M (Unit {0})
  trap cause k c =
      let to = c.mtvec - c.mtvec % 4 in
      let taken = record c { hart = trapped c.hart cause (e.pc k) (e.tval k) } in
      if to == l.trap_entry_at
      then (trap_entry l >>= λ u c'. done tt (record c' { mstatus = e.status k })) taken
      else e.elsewhere to taken

  unfoldable pub load_word : Mode → (k a : ℕ) → M ℕ
  load_word mode k a c =
      if pmp_allows c.hart.pmp mode read a
      then done (load32 c.hart.mem a) c
      else (trap 5 k >>= λ u c'. done (e.stale k) c') c

  unfoldable pub load_byte : Mode → (k a : ℕ) → M ℕ
  load_byte mode k a c =
      if pmp_allows c.hart.pmp mode read a
      then done (c.hart.mem a) c
      else (trap 5 k >>= λ u c'. done (e.stale k) c') c

  unfoldable pub store_word : Mode → (k a v : ℕ) → M (Unit {0})
  store_word mode k a v c =
      if pmp_allows c.hart.pmp mode write a
      then done tt (record c { hart = record (c.hart) { mem = store32 c.hart.mem a v } })
      else trap 7 k c

  unfoldable pub store_byte : Mode → (k a v : ℕ) → M (Unit {0})
  store_byte mode k a v c =
      if pmp_allows c.hart.pmp mode write a
      then done tt (record c { hart = record (c.hart) { mem = update c.hart.mem a v } })
      else trap 7 k c

  -- The arguments in their registers, the trap, and the result in `a0`.
  unfoldable pub u_ecall : Mode → (k svc arg0 arg1 : ℕ) → M ℕ
  u_ecall mode k svc arg0 arg1 c =
      (trap (ecall_cause mode) k >>= λ u c'. done c'.regs.a0 c')
        (record c { regs = record (c.regs) { a0 = arg0; a1 = arg1; a7 = svc } })

  unfoldable pub write_pmp : (Pmp → Pmp) → M (Unit {0})
  write_pmp f c = done tt (record c { hart = record (c.hart) { pmp = f c.hart.pmp } })
