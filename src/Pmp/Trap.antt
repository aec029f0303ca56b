-- ===== src/Pmp/Trap.antt =====
-- The trap handler of examples/minimal-pmp/main.c: `trap_dispatch`.
pub mod Services
pub mod Faults
use rp2350_tz_tee.Prelude.{ℕ, ◌+◌, ◌*◌, ◌%◌, ◌^◌, ◌||◌, ◌==◌, if◌then◌else◌}
use rp2350_tz_tee.Prelude.Words.{u32}
use rp2350_tz_tee.Hw.Memory.{Memory, load32, store32}
use rp2350_tz_tee.Hw.Pmp.{Pmp}
use rp2350_tz_tee.Pmp.Link.{
  Link, counter, mb, mb_xh3_mcause, mb_mcause, mb_mtval, mb_stage, stage_xh3, stage_u,
}
use rp2350_tz_tee.Pmp.Sign.{svc_sign}

abbrev pub svc_get_counter : ℕ
svc_get_counter = 0

abbrev pub svc_sign_number : ℕ
svc_sign_number = 1

-- The memory and the control registers that the handler reads and writes.
pub record Hart : Type 0 where
  pub mem : Memory
  pub pmp : Pmp
  pub mcause : ℕ
  pub mepc : ℕ
  pub mtval : ℕ

-- `trap_frame_t`
pub record Frame : Type 0 where
  pub a0 : ℕ
  pub a1 : ℕ
  pub a2 : ℕ
  pub a3 : ℕ
  pub a4 : ℕ
  pub a5 : ℕ
  pub a6 : ℕ
  pub a7 : ℕ
  pub t0 : ℕ
  pub t1 : ℕ
  pub t2 : ℕ
  pub t3 : ℕ
  pub t4 : ℕ
  pub t5 : ℕ
  pub t6 : ℕ
  pub ra : ℕ

-- The handler returns to the trampoline, or loops for ever.
pub data Outcome : Type 0 where
  returned : Frame → Hart → Outcome
  halted : Hart → Outcome

-- `++g_prot.counter`
abbrev pub bump : Link → Memory → ℕ
bump l m = u32 (load32 m (counter l) + 1)

-- The services of an `ecall`, before `mepc` moves on.
unfoldable pub serve : Link → Frame → Hart → Frame × Hart
serve l f h =
    if f.a7 == svc_get_counter
    then (
      record f { a0 = bump l h.mem },
      record h { mem = store32 h.mem (counter l) (bump l h.mem) },
    )
    else if f.a7 == svc_sign_number
    then (record f { a0 = 0 }, record h { mem = svc_sign l h.mem f.a0 f.a1 })
    else (record f { a0 = 0xFFFF_FFFF }, h)

-- The opcode is read as a halfword; its low two bits give the length of the instruction.
abbrev pub insn_length : Memory → ℕ → ℕ
insn_length m epc = if (m epc + 2 ^ 8 * m (u32 (epc + 1))) % 4 == 3 then 4 else 2

-- The self-test branch: record, lift the restriction, skip the load.
unfoldable pub recover : Link → Hart → Hart
recover l h =
    let m = store32 (store32 h.mem (mb l mb_xh3_mcause) h.mcause) l.g_stage stage_u in
    record h {
      mem = m;
      pmp = record (h.pmp) { pmpcfgm0 = 0 };
      mepc = u32 (h.mepc + insn_length m h.mepc);
    }

-- The isolation branch: record and halt.
unfoldable pub caught : Link → Hart → Hart
caught l h = record h {
  mem =
      store32 (store32 (store32 h.mem (mb l mb_mcause) h.mcause) (mb l mb_mtval) h.mtval)
        (mb l mb_stage) 0x0000_600D;
}

unfoldable pub trap_dispatch : Link → Frame → Hart → Outcome
trap_dispatch l f h =
    if h.mcause == 8
    then (let (f', h') = serve l f h in returned f' (record h' { mepc = u32 (h.mepc + 4) }))
    else if h.mcause == 5 || h.mcause == 7
    then if load32 h.mem l.g_stage == stage_xh3
      then returned f (recover l h)
      else halted (caught l h)
    else halted (record h { mem = store32 h.mem (mb l mb_stage) 0x0000_DEAD })
