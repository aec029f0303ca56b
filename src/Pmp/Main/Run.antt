-- ===== src/Pmp/Main/Run.antt =====
-- The whole run of the demo, from reset to the caught access.
use rp2350_tz_tee.Prelude.{ℕ, ◌+◌, ◌≡◌}
use rp2350_tz_tee.Hw.Memory.{Memory, load32}
use rp2350_tz_tee.Pmp.Link.{
  Link, secret, counter, key, mb, mb_magic, mb_xh3_before, mb_xh3_mcause, mb_xh3_after, mb_u_up,
  mb_cnt1, mb_cnt2, mb_sign0, mb_mcause, mb_mtval, mb_leaked, mb_stage,
}
use rp2350_tz_tee.Pmp.Trap.{Hart}
use rp2350_tz_tee.Pmp.Main.View.{View}

abbrev view_of : Link → Memory → View
view_of l m = record {
  mailbox = λ i. load32 m (mb l i);
  stage = load32 m l.g_stage;
  secret_word = load32 m (secret l);
  count = load32 m (counter l);
  key_bytes = λ i. m (key l + i);
  challenge_bytes = λ i. m (l.challenge + i);
}

-- The mailbox that the README shows, with what `mtval` reports.
pub record IsCaught (l : Link) (tval : ℕ) (h : Hart) : Type 0 where
  pub magic : load32 h.mem (mb l mb_magic) ≡ 0x504D_5002
  pub xh3_before : load32 h.mem (mb l mb_xh3_before) ≡ 0x5EC0_0001
  pub xh3_mcause : load32 h.mem (mb l mb_xh3_mcause) ≡ 5
  pub xh3_after : load32 h.mem (mb l mb_xh3_after) ≡ 0x5EC0_0001
  pub u_up : load32 h.mem (mb l mb_u_up) ≡ 0x55
  pub cnt1 : load32 h.mem (mb l mb_cnt1) ≡ 1
  pub cnt2 : load32 h.mem (mb l mb_cnt2) ≡ 2
  pub sign0 : load32 h.mem (mb l mb_sign0) ≡ 0xACA4_A4A4
  pub mcause : load32 h.mem (mb l mb_mcause) ≡ 5
  pub mtval : load32 h.mem (mb l mb_mtval) ≡ tval
  pub leaked : load32 h.mem (mb l mb_leaked) ≡ 0
  pub stage : load32 h.mem (mb l mb_stage) ≡ 0x600D
  pub secret_kept : load32 h.mem (secret l) ≡ 0x5EC0_0001
