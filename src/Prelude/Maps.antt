-- ===== src/Prelude/Maps.antt =====
-- Memories and register files: a function from an index to a value, updated at one index.
use Prim.Native.Nat.{ℕ}
use mathlib.Core.Path.{◌≡◌}
use mathlib.Core.Logic.{◌≢◌}
use native.Mathlib.Omega.{arith}
use rp2350_tz_tee.Prelude.Tests.{◌==◌, if◌then◌else◌}

module _ {ℓ} {A : Type ℓ} where
  abbrev pub update : (ℕ → A) → ℕ → A → ℕ → A
  update f i v j = if i == j then v else f j

  pub update_self : (f : ℕ → A) (i : ℕ) (v : A) → update f i v i ≡ v
  update_self f i v = ground arith

  pub update_ne : (f : ℕ → A) (i j : ℕ) (v : A) → i ≢ j → update f i v j ≡ f j
  update_ne f i j v h = ground arith

-- Statements in sequence, each from the state before it to the state after it.
infixl 2 ◌▷◌
abbrev pub ◌▷◌ {ℓ} : {A : Type ℓ} → A → (A → A) → A
s ▷ f = f s
