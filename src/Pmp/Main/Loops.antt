-- ===== src/Pmp/Main/Loops.antt =====
-- The loops of the demo: what they leave in the array they fill.
use rp2350_tz_tee.Prelude.{ℕ, zero, suc, ◌+◌, ◌≤◌, ◌<◌, ◌≡◌, arith, refl, true}
use rp2350_tz_tee.Prelude.Maps.{update}
use rp2350_tz_tee.Prelude.Words.{u8}
use rp2350_tz_tee.Hw.Pmp.{Pmp, machine, user, write, pmp_allows}
use rp2350_tz_tee.Pmp.Link.{Link, IsPlaced, key, mb}
use rp2350_tz_tee.Pmp.Access.{Site}
use rp2350_tz_tee.Pmp.Main.{fill_challenge, clear_words, fill_key}
use rp2350_tz_tee.Pmp.Main.Logic.{Traps}
use rp2350_tz_tee.Pmp.Main.View.{View}
use rp2350_tz_tee.Pmp.Main.Moves.{Moves, at_view, Moves-then}
use rp2350_tz_tee.Pmp.Main.Steps.{put_mailbox, put_key, put_challenge}

-- The entries from `i` on, `left` of them, hold what `g` gives.
unfoldable pub filled : (ℕ → ℕ) → ℕ → ℕ → (ℕ → ℕ) → ℕ → ℕ
filled g zero i f = f
filled g (suc left) i f = filled g left (i + 1) (update f i (g i))

module _ (l : Link) (e : Site) (p : IsPlaced l) where
  pub clear_words-Moves :
      (q : Pmp) (x : Traps) (v : View) (left i : ℕ)
      → ((a : ℕ) → pmp_allows q machine write a ≡ true)
      → i + left ≤ 12
      → Moves l
          (clear_words l e left i)
          tt
          (at_view q x v)
          (at_view q x (record v { mailbox = filled (λ j. 0) left i v.mailbox }))
  unfolding clear_words filled
  clear_words-Moves q x v zero i ok h = record { moves = λ c at. (refl, at) }
  clear_words-Moves q x v (suc left) i ok h =
      Moves-then (put_mailbox l e p machine 0 i 0 (omega arith) (omega arith) (ok (mb l i))) (
        clear_words-Moves q x (record v { mailbox = update v.mailbox i 0 }) left (i + 1) ok
          (omega arith))

  pub fill_key-Moves :
      (q : Pmp) (x : Traps) (v : View) (left i : ℕ)
      → ((a : ℕ) → pmp_allows q machine write a ≡ true)
      → i + left ≤ 16
      → Moves l
          (fill_key l e left i)
          tt
          (at_view q x v)
          (at_view q x (record v { key_bytes = filled (λ j. u8 (0xA5 + j)) left i v.key_bytes }))
  unfolding fill_key filled
  fill_key-Moves q x v zero i ok h = record { moves = λ c at. (refl, at) }
  fill_key-Moves q x v (suc left) i ok h =
      Moves-then (put_key l e p machine 1 i (u8 (0xA5 + i)) (omega arith) (ok (key l + i))) (
        fill_key-Moves q x (record v { key_bytes = update v.key_bytes i (u8 (0xA5 + i)) }) left
          (i + 1) ok (omega arith))

  pub fill_challenge-Moves :
      (q : Pmp) (x : Traps) (v : View) (left i : ℕ)
      → ((j : ℕ) → j < 16 → pmp_allows q user write (l.challenge + j) ≡ true)
      → i + left ≤ 16
      → Moves l (fill_challenge l e user left i) tt (at_view q x v) (
          at_view q x
            (record v { challenge_bytes = filled (λ j. u8 (j + 1)) left i v.challenge_bytes }))
  unfolding fill_challenge filled
  fill_challenge-Moves q x v zero i ok h = record { moves = λ c at. (refl, at) }
  fill_challenge-Moves q x v (suc left) i ok h =
      Moves-then (put_challenge l e p user 6 i (u8 (i + 1)) (omega arith) (ok i (omega arith))) (
        fill_challenge-Moves q x
          (record v { challenge_bytes = update v.challenge_bytes i (u8 (i + 1)) }) left (i + 1) ok
          (omega arith))
