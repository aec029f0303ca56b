-- ===== src/Hw/Array.antt =====
-- Arrays of words in memory.
use rp2350_tz_tee.Prelude.{
  ℕ, zero, suc, ◌+◌, ◌*◌, ◌^◌, ◌≤◌, ◌<◌, ◌≡◌, ◌⊎◌, inl, arith, refl, ◌∙◌, List, [], ◌∷◌,
}
use rp2350_tz_tee.Prelude.Lists.{length, get_or, All}
use rp2350_tz_tee.Hw.Memory.{
  Memory, load32, store32, load32-store32_self, load32-store32_apart, store32_outside,
}

-- Words stored one behind the other, from index `i` of the array.
unfoldable pub store_words : ℕ → ℕ → List ℕ → Memory → Memory
store_words at i [] m = m
store_words at i (v ∷ vs) m = store_words at (i + 1) vs (store32 m (at + 4 * i) v)

pub store_words_outside :
    (at i : ℕ) (vs : List ℕ) (m : Memory) (b : ℕ)
    → (b < at + 4 * i) ⊎ (at + 4 * (i + length vs) ≤ b)
    → store_words at i vs m b ≡ m b
unfolding store_words
store_words_outside at i [] m b h = refl
store_words_outside at i (v ∷ vs) m b h = ground (
  arith,
  store_words_outside at (i + 1) vs (store32 m (at + 4 * i) v) b,
  store32_outside m (at + 4 * i) b v,
)

pub store_words_word :
    (at i : ℕ) (vs : List ℕ) (m : Memory) (b : ℕ)
    → (b + 4 ≤ at + 4 * i) ⊎ (at + 4 * (i + length vs) ≤ b)
    → load32 (store_words at i vs m) b ≡ load32 m b
unfolding store_words
store_words_word at i [] m b h = refl
store_words_word at i (v ∷ vs) m b h = ground (
  arith,
  store_words_word at (i + 1) vs (store32 m (at + 4 * i) v) b,
  load32-store32_apart m (at + 4 * i) b v,
)

pub store_words_at :
    (at i : ℕ) (vs : List ℕ) (m : Memory) (k : ℕ)
    → All (λ v. v < 2 ^ 32) vs
    → k < length vs
    → load32 (store_words at i vs m) (at + 4 * (i + k)) ≡ get_or vs k 0
unfolding store_words
store_words_at at i [] m k fits h = absurd (omega arith)
store_words_at at i (v ∷ vs) m zero fits h =
    let here : at + 4 * (i + 0) ≡ at + 4 * i = omega arith in
    rw here (
      store_words_word at (i + 1) vs (store32 m (at + 4 * i) v) (at + 4 * i) (inl (omega arith))
      ∙ load32-store32_self m (at + 4 * i) v fits.0)
store_words_at at i (v ∷ vs) m (suc k) fits h =
    let next : at + 4 * (i + suc k) ≡ at + 4 * (i + 1 + k) = omega arith in
    rw next (store_words_at at (i + 1) vs (store32 m (at + 4 * i) v) k fits.1 (omega arith))
