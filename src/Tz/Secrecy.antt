-- ===== src/Tz/Secrecy.antt =====
-- What the Non-Secure world can learn behind `tz_isolation_config`: any Non-Secure program, with
-- Non-Secure DMA, that chooses each action by what it sees, against two Secure worlds that differ
-- off the key and the counter, which the gateway functions reveal.
pub mod Play
use rp2350_tz_tee.Prelude.{
  ℕ, zero, suc, ◌^◌, ◌<◌, ◌≡◌, ◌∙◌, ◌&&◌, ◌||◌, Bool, true, false, arith, refl, ap, fun_ext, List,
  ◌∷◌, if◌then◌else◌,
}
use mathlib.Core.Path.{subst}
use rp2350_tz_tee.Prelude.Words.{u32}
use rp2350_tz_tee.Hw.Sau.{nonsecure, attribution}
use rp2350_tz_tee.Hw.DmaMpu.{dma_open}
use rp2350_tz_tee.Tz.Layout.{ns_ram_start}
use rp2350_tz_tee.Tz.Config.{Chip, tz_isolation_config}
use rp2350_tz_tee.Tz.Config.Attribution.{
  IsPpbBase, UnusedOff, intended, intended_dma, attribution-tz_isolation_config,
  dma_open-tz_isolation_config,
}
use rp2350_tz_tee.Tz.Service.{Cmse, secure_get_counter, secure_sign}
use rp2350_tz_tee.Tz.Service.Sign.{
  ChecksNonsecure, secure_sign_writes_nonsecure, secure_sign_reads_nonsecure,
}
use rp2350_tz_tee.Tz.Client.Run.{is_nonsecure}
use rp2350_tz_tee.Tz.Main.{System, readable}
use rp2350_tz_tee.Tz.Attack.{stored}

-- What the core or a DMA channel of the Non-Secure world can read.
abbrev pub visible : System → ℕ → Bool
visible s a = readable s a || dma_open s.chip.dma a

-- Memory as the Non-Secure world sees it.
abbrev pub seen : System → ℕ → ℕ
seen s a = if visible s a then s.world.mem a else 0

pub data Action : Type 0 where
  store : (a v : ℕ) → Action
  copy : (from to : ℕ) → Action
  get_counter : Action
  sign : (challenge out len : ℕ) → Action

-- The stack buffers of `secure_sign` hold anything before the call.
module _ (c : Cmse) (tmp_in tmp_out : ℕ → ℕ) where
  -- The answer in the result register, and the system. A denied access changes nothing.
  unfoldable pub act : Action → System → ℕ × System
  act (store a v) s = (0, if readable s a then stored s a v else s)
  act (copy from to) s = (
    0,
    if dma_open s.chip.dma from && dma_open s.chip.dma to
        then stored s to (s.world.mem from)
        else s,
  )
  act get_counter s =
      let n = secure_get_counter s.world.s_counter in
      (n, record s { world = record (s.world) { s_counter = n } })
  act (sign challenge out len) s =
      let (rc, m) = secure_sign c tmp_in tmp_out s.world.mem (u32 challenge) (u32 out) (u32 len) in
      (rc, record s { world = record (s.world) { mem = m } })

  -- A program chooses by the answers so far and by the memory that it sees.
  unfoldable pub play : (List ℕ → (ℕ → ℕ) → Action) → ℕ → List ℕ → System → List ℕ × System
  play program zero answers s = (answers, s)
  play program (suc n) answers s =
      let (answer, s') = act (program answers (seen s)) s in play program n (answer ∷ answers) s'

-- Two systems that the Non-Secure world cannot tell apart.
pub record Alike (s t : System) : Type 0 where
  pub same_chip : s.chip ≡ t.chip
  pub same_counter : s.world.s_counter ≡ t.world.s_counter
  pub same_seen : (a : ℕ) → visible s a ≡ true → s.world.mem a ≡ t.world.mem a

pub seen-Alike : (s t : System) → Alike s t → seen s ≡ seen t
seen-Alike s t h = fun_ext (λ a.
    let same : visible s a ≡ visible t a =
      ap (λ (k : Chip). is_nonsecure (attribution k.sau a) || dma_open k.dma a) h.same_chip in
    ground (arith, same, h.same_seen a))
