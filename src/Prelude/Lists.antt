-- ===== src/Prelude/Lists.antt =====
-- Lists measured and indexed by native numbers, under the library's names.
use Prim.Native.Nat.{ℕ, zero, suc, ◌-◌}
use mathlib.Core.Path.{◌≡◌, refl, ap}
use native.Mathlib.Omega.{arith}
use rp2350_tz_tee.Prelude.Tests.{◌==◌, if◌then◌else◌}
use mathlib.Core.List.{List, [], ◌∷◌}

module _ {ℓ} {A : Type ℓ} where
  abbrev pub length : List A → ℕ
  length [] = 0
  length (x ∷ xs) = suc (length xs)

  abbrev pub get_or : List A → ℕ → A → A
  get_or [] i d = d
  get_or (x ∷ xs) zero d = x
  get_or (x ∷ xs) (suc i) d = get_or xs i d

  -- Every element satisfies the predicate.
  abbrev pub All {κ} : (A → Type κ) → List A → Type κ
  All P [] = Unit
  All P (x ∷ xs) = P x × All P xs

-- What holds of every element and of the default holds of what is read.
pub get_or-All {ℓ κ} :
    {A : Type ℓ} (P : A → Type κ) (xs : List A) (i : ℕ) (d : A) → All P xs → P d → P (get_or xs i d)
get_or-All P [] i d h p = p
get_or-All P (x ∷ xs) zero d h p = h.0
get_or-All P (x ∷ xs) (suc i) d h p = get_or-All P xs i d h.1 p

-- Reading behind the head, with the index counted down.
pub get_or-cons {ℓ} :
    {A : Type ℓ} (x : A) (xs : List A) (i : ℕ) (d : A)
    → get_or (x ∷ xs) i d ≡ (if i == 0 then x else get_or xs (i - 1) d)
get_or-cons x xs zero d = refl
get_or-cons x xs (suc i) d =
    let e : suc i - 1 ≡ i = omega arith in ground (arith, ap (λ k. get_or xs k d) e)
