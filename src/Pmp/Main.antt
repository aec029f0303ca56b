-- ===== src/Pmp/Main.antt =====
-- `main` and `u_mode_entry` of examples/minimal-pmp/main.c. The mode of `u_mode_entry` is what `mret`
-- finds in `mstatus`, and a trap goes where `mtvec` says.
pub mod View
pub mod Shown
pub mod Logic
pub mod Rights
pub mod Moves
pub mod Steps
pub mod Services
pub mod Loops
pub mod Stages
pub mod Run
use rp2350_tz_tee.Prelude.{ℕ, zero, suc, ◌+◌, ◌-◌, ◌*◌, ◌/◌, ◌%◌, ◌^◌, ◌==◌, if◌then◌else◌, bit_or}
use rp2350_tz_tee.Prelude.Words.{u8}
use rp2350_tz_tee.Hw.Pmp.{Pmp, Mode, machine, user}
use rp2350_tz_tee.Pmp.Link.{
  Link, secret, counter, key, mb, mb_magic, mb_xh3_before, mb_xh3_after, mb_u_up, mb_cnt1, mb_cnt2,
  mb_sign0, mb_leaked, mb_stage, stage_xh3, stage_u,
}
use rp2350_tz_tee.Pmp.Isolate.{pmp_isolate_secret}
use rp2350_tz_tee.Pmp.Trap.{svc_get_counter, svc_sign_number}
use rp2350_tz_tee.Pmp.Entry.{Core, done, M, ◌>>=◌, ◌>>◌}
use rp2350_tz_tee.Pmp.Access.{
  Site, load_word, load_byte, store_word, store_byte, u_ecall, write_pmp,
}

abbrev pub mb_n : ℕ
mb_n = 12

module _ (l : Link) (e : Site) where
  -- `challenge[i] = (uint8_t)(i + 1)`, from `i` with `left` rounds to go.
  unfoldable pub fill_challenge : Mode → ℕ → ℕ → M (Unit {0})
  fill_challenge mode zero i = done tt
  fill_challenge mode (suc left) i = do
    store_byte l e mode 6 (l.challenge + i) (u8 (i + 1))
    fill_challenge mode left (i + 1)

  -- The legitimate path of `u_mode_entry`.
  unfoldable pub use_services : Mode → M (Unit {0})
  use_services mode = do
    store_word l e mode 3 (mb l mb_u_up) 0x55
    cnt1 ← u_ecall l e mode 4 svc_get_counter 0 0
    store_word l e mode 4 (mb l mb_cnt1) cnt1
    cnt2 ← u_ecall l e mode 5 svc_get_counter 0 0
    store_word l e mode 5 (mb l mb_cnt2) cnt2
    fill_challenge mode 16 0
    r ← u_ecall l e mode 7 svc_sign_number l.challenge 16
    b0 ← load_byte l e mode 8 (l.challenge + 0)
    b1 ← load_byte l e mode 9 (l.challenge + 1)
    b2 ← load_byte l e mode 10 (l.challenge + 2)
    b3 ← load_byte l e mode 11 (l.challenge + 3)
    store_word l e mode 12 (mb l mb_sign0)
        (bit_or (bit_or (bit_or b0 (b1 * 2 ^ 8)) (b2 * 2 ^ 16)) (b3 * 2 ^ 24))

  -- The illegal path. Done is the loop for ever behind a leak.
  unfoldable pub try_secret : Mode → M (Unit {0})
  try_secret mode = do
    store_word l e mode 13 (mb l mb_stage) 0xBAD0
    leaked ← load_word l e mode 14 (secret l)
    store_word l e mode 15 (mb l mb_leaked) leaked
    store_word l e mode 16 (mb l mb_stage) 0xFA11

  unfoldable pub u_mode_entry : Mode → M (Unit {0})
  u_mode_entry mode = do use_services mode; try_secret mode

  -- `g_mb[i] = 0`
  unfoldable pub clear_words : ℕ → ℕ → M (Unit {0})
  clear_words zero i = done tt
  clear_words (suc left) i = do store_word l e machine 0 (mb l i) 0; clear_words left (i + 1)

  -- `g_prot.key[i] = (uint8_t)(0xA5u + i)`
  unfoldable pub fill_key : ℕ → ℕ → M (Unit {0})
  fill_key zero i = done tt
  fill_key (suc left) i = do
    store_byte l e machine 1 (key l + i) (u8 (0xA5 + i))
    fill_key left (i + 1)

  unfoldable pub set_mscratch : ℕ → M (Unit {0})
  set_mscratch v c = done tt (record c { mscratch = v })

  unfoldable pub set_mtvec : ℕ → M (Unit {0})
  set_mtvec v c = done tt (record c { mtvec = v })

  abbrev pub read_mstatus : M ℕ
  read_mstatus c = done c.mstatus c

  abbrev pub set_mstatus : ℕ → M (Unit {0})
  set_mstatus v c = done tt (record c { mstatus = v })

  abbrev pub set_mepc : ℕ → M (Unit {0})
  set_mepc v c = done tt (record c { hart = record (c.hart) { mepc = v } })

  -- The field of two bits from bit 11 of `mstatus`: the mode that `mret` returns to.
  abbrev pub mpp : ℕ → ℕ
  mpp ms = ms / 2 ^ 11 % 4

  abbrev pub previous_mode : ℕ → Mode
  previous_mode ms = if mpp ms == 0 then user else machine

  -- `mret`: on at the address in `mepc`, whose bit 0 is clear, in the mode that `mstatus` holds.
  unfoldable pub mret : M (Unit {0})
  mret c =
      let to = c.hart.mepc - c.hart.mepc % 2 in
      let c' = record c { mstatus = e.status 27 } in
      if to == l.u_mode_entry_at
      then u_mode_entry (previous_mode c.mstatus) c'
      else e.elsewhere to c'

  -- The part of `main` that fills the objects and programs the PMP.
  unfoldable pub set_up : M (Unit {0})
  set_up = do
    clear_words mb_n 0
    store_word l e machine 2 (mb l mb_magic) 0x504D_5002
    store_word l e machine 17 (secret l) 0x5EC0_0001
    store_word l e machine 18 (counter l) 0
    fill_key 16 0
    set_mscratch l.stack_top
    set_mtvec l.trap_entry_at
    write_pmp l e (pmp_isolate_secret l.g_prot)

  -- The Xh3pmpm demo.
  unfoldable pub xh3_demo : M (Unit {0})
  xh3_demo = do
    before ← load_word l e machine 19 (secret l)
    store_word l e machine 20 (mb l mb_xh3_before) before
    store_word l e machine 21 l.g_stage stage_xh3
    write_pmp l e (λ p. record p { pmpcfgm0 = 1 })
    t ← load_word l e machine 22 (secret l)
    after ← load_word l e machine 23 (secret l)
    store_word l e machine 24 (mb l mb_xh3_after) after

  -- The end of `main`; `ms &= ~(3u << 11)` takes the field away.
  unfoldable pub drop_to_user : M (Unit {0})
  drop_to_user = do
    ms ← read_mstatus
    set_mstatus (ms - mpp ms * 2 ^ 11)
    set_mepc l.u_mode_entry_at
    mret

  unfoldable pub main : M (Unit {0})
  main = do
    set_up
    xh3_demo
    store_word l e machine 25 l.g_stage stage_u
    store_word l e machine 26 (mb l mb_stage) 0xA11
    drop_to_user
