-- ===== src/Tfm/Isolation/Access.antt =====
-- Which accesses of unprivileged code the Memory Protection Unit of ARMv8-M lets pass, and the
-- macros of armv8m_mpu.h that encode a region.
use rp2350_tz_tee.Prelude.{
  ap, ◌⊎◌, inl, inr, false, ℕ, zero, suc, ◌+◌, ◌-◌, ◌*◌, ◌/◌, ◌%◌, ◌≤◌, ◌<◌, ◌≡◌, Bool, true, false,
  bit_and, ◌≢◌, ◌&&◌, ◌==◌, leb, if◌then◌else◌, List, [], ◌∷◌, arith, refl,
}
use rp2350_tz_tee.Prelude.Lists.{length, get_or}
use rp2350_tz_tee.Hw.Pmp.{Access, read, write, execute}
use rp2350_tz_tee.Tfm.Mpu.{Mpu, MpuApi, enable_bit}
use rp2350_tz_tee.Prelude.Words.{bit_and_low}
use rp2350_tz_tee.Tfm.Isolation.{Region}

-- A region that is on covers the blocks of 32 bytes from its base to its limit.
abbrev pub covers : Region → ℕ → Bool
covers r a = r.rlar % 2 == 1 && leb (r.rbar / 32) (a / 32) && leb (a / 32) (r.rlar / 32)

-- NP, RO and XN are bits 1, 2 and 0 of RBAR.
abbrev pub grants : Region → Access → Bool
grants r read = r.rbar / 2 % 2 == 1
grants r write = r.rbar / 2 % 2 == 1 && r.rbar / 4 % 2 == 0
grants r execute = r.rbar / 2 % 2 == 1 && r.rbar % 2 == 0

-- The regions that cover an address.
unfoldable pub hits : List Region → ℕ → List Region
hits [] a = []
hits (r ∷ rs) a = let rest = hits rs a in if covers r a then r ∷ rest else rest

-- No region, or more than one, is a fault.
abbrev pub allowed : List Region → Access → Bool
allowed [] k = false
allowed (r ∷ []) k = grants r k
allowed (r ∷ (s ∷ rs)) k = false

-- The regions from number `j`, `left` of them.
unfoldable pub regions_from : Mpu → ℕ → ℕ → List Region
regions_from m zero j = []
regions_from m (suc left) j =
    record { rbar = m.rbar j; rlar = m.rlar j } ∷ regions_from m left (j + 1)

-- An access by unprivileged code, with `n` regions in the hardware. Bit 0 of CTRL turns the MPU on;
-- while it is off nothing is denied.
unfoldable pub unprivileged_allows : Mpu → ℕ → Access → ℕ → Bool
unfolding hits regions_from
unprivileged_allows m n k a =
    if m.ctrl % 2 == 1 then allowed (hits (regions_from m n 0) a) k else true

-- What the header documents of the macros: the address without its low five bits, and the flags.
pub record IsMpuMacros (c : MpuApi) : Type 0 where
  pub enable_bit_0 : c.ctrl_enable_msk ≡ 1
  pub rbar_base :
      (base ro np xn : ℕ)
      → ro ≤ 1
      → np ≤ 1
      → xn ≤ 1
      → c.mpu_rbar base c.sh_non ro np xn / 32 ≡ base / 32
  pub rbar_flags :
      (base ro np xn : ℕ)
      → ro ≤ 1
      → np ≤ 1
      → xn ≤ 1
      → c.mpu_rbar base c.sh_non ro np xn % 8 ≡ 4 * ro + 2 * np + xn
  pub rlar_limit : (limit idx : ℕ) → idx < 8 → c.mpu_rlar limit idx / 32 ≡ limit / 32
  pub rlar_on : (limit idx : ℕ) → idx < 8 → c.mpu_rlar limit idx % 2 ≡ 1
  pub pxn_limit :
      (limit pxn idx : ℕ) → pxn ≤ 1 → idx < 8 → c.mpu_rlar_pxn limit pxn idx / 32 ≡ limit / 32
  pub pxn_on : (limit pxn idx : ℕ) → pxn ≤ 1 → idx < 8 → c.mpu_rlar_pxn limit pxn idx % 2 ≡ 1

-- With the MPU on the regions decide.
pub regions_decide :
    (c : MpuApi) (m : Mpu) (n a : ℕ) (k : Access)
    → IsMpuMacros c
    → enable_bit c m ≢ 0
    → unprivileged_allows m n k a ≡ allowed (hits (regions_from m n 0) a) k
unfolding unprivileged_allows
regions_decide c m n a k macros on =
    let low : bit_and m.ctrl c.ctrl_enable_msk ≡ m.ctrl % 2 =
      rw (macros.enable_bit_0) (bit_and_low 1 m.ctrl) in
    ground (arith, low, on)

-- A fact on the registers behind `j`, read one further.
shift : (f : ℕ → ℕ) (j i v : ℕ) → f (j + suc i) ≡ v → f (j + 1 + i) ≡ v
shift f j i v h = let e : j + 1 + i ≡ j + suc i = omega arith in rw e h

first : (f : ℕ → ℕ) (j v : ℕ) → f (j + 0) ≡ v → f j ≡ v
first f j v h = let e : j + 0 ≡ j = omega arith in rw e at h

-- Regions that are off cover nothing.
hits_off :
    (m : Mpu) (left j a : ℕ)
    → ((i : ℕ) → i < left → m.rlar (j + i) ≡ 0)
    → hits (regions_from m left j) a ≡ []
unfolding hits regions_from
hits_off m zero j a off = refl
hits_off m (suc left) j a off =
    let here = first m.rlar j 0 (off 0 (omega arith)) in
    let rest = hits_off m left (j + 1) a (λ i h. shift m.rlar j i 0 (off (suc i) (omega arith))) in
    ground (arith, here, rest)

-- With the rows in the first regions and the others off, the rows decide.
hits-regions_from :
    (rs : List Region) (m : Mpu) (spare j a : ℕ) (d : Region)
    → ((i : ℕ) → i < length rs → m.rbar (j + i) ≡ (get_or rs i d).rbar)
    → ((i : ℕ) → i < length rs → m.rlar (j + i) ≡ (get_or rs i d).rlar)
    → ((i : ℕ) → i < spare → m.rlar (j + length rs + i) ≡ 0)
    → hits (regions_from m (length rs + spare) j) a ≡ hits rs a
unfolding hits regions_from
hits-regions_from [] m spare j a d base limit off =
    let e : 0 + spare ≡ spare = omega arith in
    rw e (hits_off m spare j a (λ i h. let z : j + i ≡ j + 0 + i = omega arith in rw z (off i h)))
hits-regions_from (r ∷ rs) m spare j a d base limit off =
    let e : suc (length rs) + spare ≡ suc (length rs + spare) = omega arith in
    let rest =
      hits-regions_from rs m spare (j + 1) a d
        (λ i h. shift m.rbar j i _ (base (suc i) (omega arith)))
        (λ i h. shift m.rlar j i _ (limit (suc i) (omega arith)))
        (λ i h.
          let z : j + 1 + length rs + i ≡ j + suc (length rs) + i = omega arith in
          rw z (off i h)) in
    let here_base = first m.rbar j r.rbar (base 0 (omega arith)) in
    let here_limit = first m.rlar j r.rlar (limit 0 (omega arith)) in
    rw (e, here_base, here_limit, rest) refl

-- The same from the first region on.
pub hits_configured :
    (rs : List Region) (m : Mpu) (n a : ℕ) (d : Region)
    → length rs ≤ n
    → ((i : ℕ)
        → i < length rs
        → (m.rbar i ≡ (get_or rs i d).rbar) × (m.rlar i ≡ (get_or rs i d).rlar))
    → ((i : ℕ) → length rs ≤ i → i < n → m.rlar i ≡ 0)
    → hits (regions_from m n 0) a ≡ hits rs a
hits_configured rs m n a d enough row off =
    let split : n ≡ length rs + (n - length rs) = omega arith in
    let from_0 = λ (i : ℕ). (let z : 0 + i ≡ i = omega arith in z) in
    rw split (
      hits-regions_from rs m (n - length rs) 0 a d (λ i h. rw (from_0 i) (row i h).0)
        (λ i h. rw (from_0 i) (row i h).1)
        (λ i h. off (0 + length rs + i) (omega arith) (omega arith)))

-- The region of a number.
abbrev pub region_at : Mpu → ℕ → Region
region_at m j = record { rbar = m.rbar j; rlar = m.rlar j }

-- Two MPUs agree on an address if each region is the same in both or covers it in neither.
pub hits_same :
    (m m' : Mpu) (left j a : ℕ)
    → ((i : ℕ)
        → j ≤ i
        → i < j + left
        → (region_at m i ≡ region_at m' i)
          ⊎ ((covers (region_at m i) a ≡ false) × (covers (region_at m' i) a ≡ false)))
    → hits (regions_from m left j) a ≡ hits (regions_from m' left j) a
unfolding hits regions_from
hits_same m m' zero j a h = refl
hits_same m m' (suc left) j a h =
    let rest = hits_same m m' left (j + 1) a (λ i lo hi. h i (omega arith) (omega arith)) in
    elim (h j (omega arith) (omega arith)) [
      | inl e ↦ rw rest (
          ap
            (λ (r : Region).
              (let after = hits (regions_from m' left (j + 1)) a in
                if covers r a then r ∷ after else after))
            e)
      | inr (x, y) ↦ rw (x, y) rest
    ]
