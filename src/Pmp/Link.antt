-- ===== src/Pmp/Link.antt =====
-- Where the linker puts the objects of examples/minimal-pmp/main.c, and the indices of the mailbox.
use rp2350_tz_tee.Prelude.{ℕ, ◌+◌, ◌-◌, ◌*◌, ◌%◌, ◌^◌, ◌≤◌, ◌<◌, ◌≡◌, ◌⊎◌}

-- `stack_top` is `&g_m_trap_stack[128]`, `challenge` the static array of `u_mode_entry`, and the last
-- two are where the functions start.
pub record Link : Type 0 where
  pub g_mb : ℕ
  pub g_prot : ℕ
  pub g_stage : ℕ
  pub stack_top : ℕ
  pub challenge : ℕ
  pub trap_entry_at : ℕ
  pub u_mode_entry_at : ℕ

-- `struct prot_region`: the offsets of its members.
abbrev pub secret : Link → ℕ
secret l = l.g_prot

abbrev pub counter : Link → ℕ
counter l = l.g_prot + 4

abbrev pub key : Link → ℕ
key l = l.g_prot + 8

-- `sizeof(struct prot_region)`
abbrev pub prot_size : ℕ
prot_size = 64

-- `&g_mb[i]`
abbrev pub mb : Link → ℕ → ℕ
mb l i = l.g_mb + 4 * i

abbrev pub mb_magic : ℕ
mb_magic = 0

abbrev pub mb_xh3_before : ℕ
mb_xh3_before = 1

abbrev pub mb_xh3_mcause : ℕ
mb_xh3_mcause = 2

abbrev pub mb_xh3_after : ℕ
mb_xh3_after = 3

abbrev pub mb_u_up : ℕ
mb_u_up = 4

abbrev pub mb_cnt1 : ℕ
mb_cnt1 = 5

abbrev pub mb_cnt2 : ℕ
mb_cnt2 = 6

abbrev pub mb_sign0 : ℕ
mb_sign0 = 7

abbrev pub mb_mcause : ℕ
mb_mcause = 8

abbrev pub mb_mtval : ℕ
mb_mtval = 9

abbrev pub mb_leaked : ℕ
mb_leaked = 10

abbrev pub mb_stage : ℕ
mb_stage = 11

abbrev pub stage_xh3 : ℕ
stage_xh3 = 1

abbrev pub stage_u : ℕ
stage_u = 2

-- Two objects of the given sizes do not overlap.
abbrev pub Apart : ℕ → ℕ → ℕ → ℕ → Type 0
Apart a size b size' = (a + size ≤ b) ⊎ (b + size' ≤ a)

-- What the declarations and the linker give: sizes, the alignment of `g_prot`, no overlap, and
-- room on both sides of the protected region in the address space.
pub record IsLinked (l : Link) : Type 0 where
  pub aligned : l.g_prot % 64 ≡ 0
  pub low : 64 ≤ l.g_prot
  pub high : l.g_prot + 128 ≤ 2 ^ 32
  pub mb_fits : l.g_mb + 64 ≤ 2 ^ 32
  pub stage_fits : l.g_stage + 4 ≤ 2 ^ 32
  pub mb_prot : Apart l.g_mb 64 l.g_prot 64
  pub stage_prot : Apart l.g_stage 4 l.g_prot 64
  pub mb_stage_apart : Apart l.g_mb 64 l.g_stage 4

-- The trap stack of 128 words: in the address space, and apart from the other objects.
pub record IsStacked (l : Link) : Type 0 where
  pub stack_low : 512 ≤ l.stack_top
  pub stack_high : l.stack_top < 2 ^ 32
  pub stack_prot : Apart (l.stack_top - 512) 512 l.g_prot 64
  pub stack_mb : Apart (l.stack_top - 512) 512 l.g_mb 64
  pub stack_stage : Apart (l.stack_top - 512) 512 l.g_stage 4

-- All objects together, and the alignment of the two functions: `aligned(4)`, and that of code.
pub record IsPlaced (l : Link) : Type 0 where
  pub linked : IsLinked l
  pub stacked : IsStacked l
  pub challenge_fits : l.challenge + 16 ≤ 2 ^ 32
  pub challenge_prot : Apart l.challenge 16 l.g_prot 64
  pub challenge_mb : Apart l.challenge 16 l.g_mb 64
  pub challenge_stage : Apart l.challenge 16 l.g_stage 4
  pub challenge_stack : Apart l.challenge 16 (l.stack_top - 512) 512
  pub trap_entry_aligned : l.trap_entry_at % 4 ≡ 0
  pub u_mode_entry_aligned : l.u_mode_entry_at % 2 ≡ 0
