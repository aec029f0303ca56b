-- ===== src/Tz/Secrecy/Play.antt =====
-- That two Secure worlds which look alike stay alike, action by action.
use rp2350_tz_tee.Prelude.{
  ℕ, zero, suc, ◌^◌, ◌<◌, ◌≡◌, ◌∙◌, ◌&&◌, Bool, true, false, arith, refl, ap, List, ◌∷◌,
  if◌then◌else◌,
}
use mathlib.Core.Path.{subst}
use rp2350_tz_tee.Prelude.Words.{u32}
use rp2350_tz_tee.Hw.Sau.{nonsecure, attribution}
use rp2350_tz_tee.Hw.DmaMpu.{dma_open}
use rp2350_tz_tee.Tz.Layout.{ns_ram_start}
use rp2350_tz_tee.Tz.Config.{Chip, tz_isolation_config}
use rp2350_tz_tee.Tz.Config.Attribution.{
  IsPpbBase, UnusedOff, intended, intended_dma, attribution-tz_isolation_config,
  dma_open-tz_isolation_config,
}
use rp2350_tz_tee.Tz.Service.{Cmse, secure_get_counter, secure_sign}
use rp2350_tz_tee.Tz.Service.Sign.{
  ChecksNonsecure, secure_sign_writes_nonsecure, secure_sign_reads_nonsecure,
}
use rp2350_tz_tee.Tz.Client.Run.{is_nonsecure}
use rp2350_tz_tee.Tz.Main.{System, readable}
use rp2350_tz_tee.Tz.Attack.{stored}
use rp2350_tz_tee.Tz.Secrecy.{
  visible, seen, Action, store, copy, get_counter, sign, act, play, Alike, seen-Alike,
}

stored-Alike :
    (s t : System) (a v w : ℕ)
    → Alike s t
    → (visible s a ≡ true → v ≡ w)
    → Alike (stored s a v) (stored t a w)
stored-Alike s t a v w h e = record {
  same_chip = h.same_chip;
  same_counter = h.same_counter;
  same_seen = λ x vis. ground (arith, h.same_seen x vis, e);
}

-- An access that both worlds grant or both deny.
granted-Alike :
    (q q' : Bool) (s t s' t' : System)
    → q ≡ q'
    → Alike s t
    → (q ≡ true → Alike s' t')
    → s'.chip ≡ s.chip
    → Alike (if q then s' else s) (if q' then t' else t) × ((if q then s' else s).chip ≡ s.chip)
granted-Alike true true s t s' t' e h k chip = (k refl, chip)
granted-Alike false false s t s' t' e h k chip = (h, refl)
granted-Alike true false s t s' t' e h k chip = absurd (ground arith)
granted-Alike false true s t s' t' e h k chip = absurd (ground arith)

module _ (p b : ℕ) (chip : Chip) (c : Cmse) (ppb : IsPpbBase p) (off : UnusedOff chip.sau) where
  abbrev IsIsolated : System → Type 0
  IsIsolated s = s.chip ≡ tz_isolation_config p b chip

  -- What is visible is an address of 32 bits.
  visible_small : (s : System) (a : ℕ) → IsIsolated s → visible s a ≡ true → a < 2 ^ 32
  unfolding intended intended_dma
  visible_small s a set vis =
      let at = attribution-tz_isolation_config p b chip a ppb off in
      let dma = dma_open-tz_isolation_config p b chip a ppb in
      let vis' = rw set at vis in ground (arith, rw (at, dma) at vis')

  ns_ram-readable : (s : System) → IsIsolated s → readable s ns_ram_start ≡ true
  unfolding intended
  ns_ram-readable s set =
      let at : attribution (tz_isolation_config p b chip).sau ns_ram_start ≡ nonsecure =
        attribution-tz_isolation_config p b chip ns_ram_start ppb off ∙ ground arith in
      rw (set, at) refl

  module _ (tmp_in tmp_out tmp_in' tmp_out' : ℕ → ℕ) (s t : System) (set : IsIsolated s)
      (reads : ChecksNonsecure c (readable s) c.mpu_read)
      (writes : ChecksNonsecure c (readable s) c.mpu_readwrite) (h : Alike s t) where
    sign-same :
        (challenge out len : ℕ)
        → out < 2 ^ 32
        → let n = secure_sign c tmp_in tmp_out s.world.mem challenge out len in
          let n' = secure_sign c tmp_in' tmp_out' t.world.mem challenge out len in
          (n.0 ≡ n'.0) × ((a : ℕ) → visible s a ≡ true → n.1 a ≡ n'.1 a)
    sign-same challenge out len small =
        let agree = λ (x : ℕ) (ns : readable s x ≡ true). h.same_seen x (ground arith) in
        let both = λ (x : ℕ) (k : x < 2 ^ 32) (ns : readable s x ≡ true).
          secure_sign_reads_nonsecure c (readable s) tmp_in tmp_out tmp_in' tmp_out' s.world.mem
            t.world.mem challenge out len x reads small agree k ns in
        let kept = λ (x : ℕ) (k : x < 2 ^ 32) (ns : readable s x ≡ false).
          secure_sign_writes_nonsecure c (readable s) tmp_in tmp_out s.world.mem challenge out len x
            writes small k ns in
        let kept' = λ (x : ℕ) (k : x < 2 ^ 32) (ns : readable s x ≡ false).
          secure_sign_writes_nonsecure c (readable s) tmp_in' tmp_out' t.world.mem challenge out len
            x writes small k ns in
        (
          (both ns_ram_start (omega arith) (ns_ram-readable s set)).0,
          (λ a vis.
              let k = visible_small s a set vis in
              ground (
                arith,
                λ (ns : readable s a ≡ true). (both a k ns).1,
                kept a k,
                kept' a k,
                h.same_seen a vis,
              )),
        )

    act-Alike :
        (x : Action)
        → let o = act c tmp_in tmp_out x s in
          let o' = act c tmp_in' tmp_out' x t in (o.0 ≡ o'.0) × Alike o.1 o'.1 × (o.1.chip ≡ s.chip)
    unfolding act
    act-Alike (store a v) =
        let same : readable s a ≡ readable t a =
          ap (λ (k : Chip). is_nonsecure (attribution k.sau a)) h.same_chip in
        let both =
          granted-Alike (readable s a) (readable t a) s t (stored s a v) (stored t a v) same h
            (λ ok. stored-Alike s t a v v h (λ vis. refl)) refl in
        (refl, both.0, both.1)
    act-Alike (copy from to) =
        let same : (dma_open s.chip.dma from && dma_open s.chip.dma to)
            ≡ (dma_open t.chip.dma from && dma_open t.chip.dma to) =
          ap (λ (k : Chip). dma_open k.dma from && dma_open k.dma to) h.same_chip in
        let both =
          granted-Alike (dma_open s.chip.dma from && dma_open s.chip.dma to)
            (dma_open t.chip.dma from && dma_open t.chip.dma to) s t
            (stored s to (s.world.mem from)) (stored t to (t.world.mem from)) same h
            (λ ok.
              stored-Alike s t to (s.world.mem from) (t.world.mem from) h
                (λ vis. h.same_seen from (ground arith)))
            refl in
        (refl, both.0, both.1)
    act-Alike get_counter =
        let same = ap (λ n. secure_get_counter n) h.same_counter in
        (
          same,
          record { same_chip = h.same_chip; same_counter = same; same_seen = h.same_seen },
          refl,
        )
    act-Alike (sign challenge out len) =
        let both = sign-same (u32 challenge) (u32 out) (u32 len) (omega arith) in
        (
          both.0,
          record { same_chip = h.same_chip; same_counter = h.same_counter; same_seen = both.1 },
          refl,
        )

    chosen-Alike :
        (x y : Action)
        → x ≡ y
        → let o = act c tmp_in tmp_out x s in
          let o' = act c tmp_in' tmp_out' y t in (o.0 ≡ o'.0) × Alike o.1 o'.1 × (o.1.chip ≡ s.chip)
    chosen-Alike x y e = rw e (act-Alike y)

  -- Let two systems have the chip as `tz_isolation_config` leaves it, the same `s_counter`, the
  -- key `s_key` of secret.c, and the same bytes wherever a Non-Secure core or DMA channel can
  -- read. Then any Non-Secure program that chooses each of its actions (stores, DMA copies, calls
  -- of both gateway functions) by the answers so far and the memory it sees gets the same answers
  -- from both and leaves them alike, whatever the memories hold elsewhere, `s_key` and `s_counter`
  -- apart, and whatever the stack buffers of `secure_sign` hold. PPB_BASE is 32-byte aligned, the
  -- unprogrammed SAU regions are off, and the range check accepts only Non-Secure ranges, for
  -- reading and for writing.
  pub play-Alike :
      (tmp_in tmp_out tmp_in' tmp_out' : ℕ → ℕ) (program : List ℕ → (ℕ → ℕ) → Action) (n : ℕ)
      (answers : List ℕ) (s t : System)
      → IsIsolated s
      → ChecksNonsecure c (readable s) c.mpu_read
      → ChecksNonsecure c (readable s) c.mpu_readwrite
      → Alike s t
      → ((play c tmp_in tmp_out program n answers s).0
          ≡ (play c tmp_in' tmp_out' program n answers t).0)
        × Alike
            (play c tmp_in tmp_out program n answers s).1
            (play c tmp_in' tmp_out' program n answers t).1
  unfolding play
  play-Alike tmp_in tmp_out tmp_in' tmp_out' program zero answers s t set reads writes h = (refl, h)
  play-Alike tmp_in tmp_out tmp_in' tmp_out' program (suc n) answers s t set reads writes h =
      let x = program answers (seen s) in
      let y = program answers (seen t) in
      let one =
        chosen-Alike tmp_in tmp_out tmp_in' tmp_out' s t set reads writes h x y
          (ap (λ (f : ℕ → ℕ). program answers f) (seen-Alike s t h)) in
      let o = act c tmp_in tmp_out x s in
      let o' = act c tmp_in' tmp_out' y t in
      let rest =
        play-Alike tmp_in tmp_out tmp_in' tmp_out' program n (o.0 ∷ answers) o.1 o'.1 (one.2 ∙ set)
          (rw one.2 reads) (rw one.2 writes) one.1 in
      subst
        (λ (r : ℕ).
          ((play c tmp_in tmp_out program n (o.0 ∷ answers) o.1).0
            ≡ (play c tmp_in' tmp_out' program n (r ∷ answers) o'.1).0)
          × Alike (play c tmp_in tmp_out program n (o.0 ∷ answers) o.1).1
              (play c tmp_in' tmp_out' program n (r ∷ answers) o'.1).1)
        one.0 rest
