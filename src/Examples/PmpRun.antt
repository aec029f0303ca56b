-- ===== src/Examples/PmpRun.antt =====
-- The theorems on the trampoline and on the whole run of examples/minimal-pmp.
use rp2350_tz_tee.Prelude.{ℕ, ◌+◌, ◌-◌, ◌≤◌, ◌<◌, ◌≡◌, ◌⊎◌, arith, refl}
use rp2350_tz_tee.Prelude.Words.{u32}
use rp2350_tz_tee.Pmp.Trap.{Hart, serve, trap_dispatch}
use rp2350_tz_tee.Pmp.Entry.{Core, done, save_frame, trap_entry}
use rp2350_tz_tee.Pmp.Entry.Saved.{IsWords}
use rp2350_tz_tee.Pmp.Entry.Refine.{trap_entry_refines}
use rp2350_tz_tee.Pmp.Access.{Site}
use rp2350_tz_tee.Examples.Pmp.{
  link, link-IsLinked, link-IsStacked, pmp_reset, zeros, request, trapped_with,
}

request-IsWords : IsWords request
request-IsWords = ground arith

-- A core that asks for the signature of four bytes.
abbrev asking : Core
asking = record {
  hart = trapped_with 8 zeros;
  regs = request;
  sp = 0x2008_0000;
  mscratch = 0x2000_0600;
  mtvec = 0x1000_0400;
  mstatus = 0;
}

-- The hart with the frame saved.
abbrev saved : Hart
saved = record (trapped_with 8 zeros) { mem = save_frame (0x2000_0600 - 64) request zeros }

trap_entry_refines_example :
    (c' : Core) × (trap_entry link asking ≡ done tt c')
    × (c'.regs ≡ record request { a0 = 0 })
    × (c'.sp ≡ 0x2008_0000)
    × (c'.mscratch ≡ 0x2000_0600)
    × (c'.mtvec ≡ 0x1000_0400)
    × (c'.hart
        ≡ record ((serve link request saved).1) { mem = c'.hart.mem; mepc = u32 (0x1000_0200 + 4) })
    × ((a : ℕ)
        → (a < 0x2000_0600 - 64) ⊎ (0x2000_0600 - 60 ≤ a)
        → c'.hart.mem a ≡ (serve link request saved).1.mem a)
trap_entry_refines_example =
    trap_entry_refines link asking (record request { a0 = 0 })
      (record ((serve link request saved).1) { mepc = u32 (0x1000_0200 + 4) }) link-IsLinked
      link-IsStacked refl request-IsWords
      (record { pointer = omega arith; clear = λ c8 s1 a lo hi. omega arith })
      (unfold trap_dispatch serve in refl)

-- The core out of reset.
abbrev reset : Core
reset = record {
  hart = record { mem = zeros; pmp = pmp_reset; mcause = 0; mepc = 0; mtval = 0 };
  regs = request;
  sp = 0x2008_0000;
  mscratch = 0;
  mtvec = 0;
  mstatus = 0x1800;
}

-- `mtval` reports the address of the secret at the illegal read.
abbrev site : Site
site = record {
  pc = λ k. 0x1000_0000;
  tval = λ k. 0x2000_1000;
  stale = λ k. 0;
  status = λ k. 0x1800;
  elsewhere = λ a c. done tt c;
}
