-- ===== src/Pmp/Main/Moves.antt =====
-- The steps of the demo as moves from one abstract state to the next.
use rp2350_tz_tee.Prelude.{◌≡◌}
use rp2350_tz_tee.Hw.Pmp.{Pmp}
use rp2350_tz_tee.Pmp.Link.{Link}
use rp2350_tz_tee.Pmp.Trap.{Hart}
use rp2350_tz_tee.Pmp.Entry.{Core, M, ◌>>=◌, ◌>>◌}
use rp2350_tz_tee.Pmp.Main.View.{View}
use rp2350_tz_tee.Pmp.Main.Logic.{
  Traps, Ensures, Stops, Ensures-bind, Stops-bind, Stops-first, Ready,
}

pub record State : Type 0 where
  pub pmp : Pmp
  pub scratch : Traps
  pub view : View

abbrev pub IsAt : Link → State → Core → Type 0
IsAt l s c = Ready l s.pmp s.scratch s.view c

-- From a core in state `s` the run ends with the value `w` in state `s'`.
pub record Moves {A : Type 0} (l : Link) (m : M A) (w : A) (s s' : State) : Type 0 where
  pub moves : (c : Core) → IsAt l s c → Ensures (m c) (λ a c'. (a ≡ w) × IsAt l s' c')

-- From a core in state `s` the handler stops the run with a hart that satisfies `Q`.
pub record Ends {A : Type 0} (l : Link) (m : M A) (s : State) (Q : Hart → Type 0) : Type 0 where
  pub ends : (c : Core) → IsAt l s c → Stops (m c) Q

module _ {A B : Type 0} {l : Link} {m : M A} {w : A} {s s' : State} where
  pub Moves-bind :
      {w' : B} {s'' : State} (f : A → M B)
      → Moves l m w s s'
      → Moves l (f w) w' s' s''
      → Moves l (m >>= f) w' s s''
  Moves-bind {w'} {s''} f first rest = record {
    moves = λ c at.
        Ensures-bind (λ a c'. (a ≡ w) × IsAt l s' c') m f c (λ b c'. (b ≡ w') × IsAt l s'' c')
          (first.moves c at) (λ a c' h. rw h.0 (rest.moves c' h.1));
  }

  pub Moves-then :
      {n : M B} {w' : B} {s'' : State}
      → Moves l m w s s'
      → Moves l n w' s' s''
      → Moves l (m >> n) w' s s''
  Moves-then {n} first rest = Moves-bind (λ _. n) first rest

  pub Ends-bind :
      {Q : Hart → Type 0} (f : A → M B)
      → Moves l m w s s'
      → Ends l (f w) s' Q
      → Ends l (m >>= f) s Q
  Ends-bind {Q} f first rest = record {
    ends = λ c at.
        Stops-bind (λ a c'. (a ≡ w) × IsAt l s' c') m f c Q (first.moves c at)
          (λ a c' h. rw h.0 (rest.ends c' h.1));
  }

  pub Ends-then :
      {n : M B} {Q : Hart → Type 0} → Moves l m w s s' → Ends l n s' Q → Ends l (m >> n) s Q
  Ends-then {n} first rest = Ends-bind (λ _. n) first rest

module _ {A B : Type 0} {l : Link} {m : M A} {s : State} {Q : Hart → Type 0} where
  -- What would come behind the end does not run.
  pub Ends-first : (f : A → M B) → Ends l m s Q → Ends l (m >>= f) s Q
  Ends-first f first = record { ends = λ c at. Stops-first m f c Q (first.ends c at) }

abbrev pub at_view : Pmp → Traps → View → State
at_view q x v = record { pmp = q; scratch = x; view = v }
