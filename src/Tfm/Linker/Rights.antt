-- ===== src/Tfm/Linker/Rights.antt =====
-- What the MPU table says of each part of the Secure image.
use rp2350_tz_tee.Prelude.{
  ℕ, ◌<◌, ◌≤◌, ◌≡◌, ◌⊎◌, Bool, true, false, ◌&&◌, if◌then◌else◌, arith, refl, Bool-cases, inl, inr,
}
use rp2350_tz_tee.Hw.Pmp.{Access, read, write, execute}
use rp2350_tz_tee.Tfm.Build.{Build}
use rp2350_tz_tee.Tfm.Isolation.Rights.{table, table_allows}
use rp2350_tz_tee.Tfm.Linker.Link.{Image, Memories, IsMemories, Linked, IsLinked, symbols_of}
use rp2350_tz_tee.Tfm.Linker.Areas.{
  Part, vectors, veneers, load_list, psa_code, app_code, tfm_code, unpriv_code, shared_data,
  msp_stack, sp_meta, app_data, psa_data, tfm_data, between, holds, code_rights, data_rights,
  rights,
}

module _ (b : Build) (g : Image) (m : Memories) (y : Linked) (mem : IsMemories m)
    (at : IsLinked b g m y) where
  -- The table as a chain of tests.
  abbrev pub chain : Access → ℕ → Bool
  chain k a =
      if holds b y veneers a
      then code_rights k
      else if holds b y unpriv_code a
      then code_rights k
      else if holds b y app_code a
      then code_rights k
      else if holds b y app_data a
      then data_rights k
      else if holds b y sp_meta a
      then data_rights k
      else false

  pub table_allows-chain :
      (k : Access) (a : ℕ) → table_allows (table b (symbols_of y)) k a ≡ chain k a
  unfolding holds
  table_allows-chain read a = elim (Bool-cases b.use_trustzone) [
    | inl t ↦ elim (Bool-cases b.partition_meta) [ inl n ↦ rw (t, n) refl | inr n ↦ rw (t, n) refl ]
    | inr t ↦ elim (Bool-cases b.partition_meta) [ inl n ↦ rw (t, n) refl | inr n ↦ rw (t, n) refl ]
  ]
  table_allows-chain write a = elim (Bool-cases b.use_trustzone) [
    | inl t ↦ elim (Bool-cases b.partition_meta) [ inl n ↦ rw (t, n) refl | inr n ↦ rw (t, n) refl ]
    | inr t ↦ elim (Bool-cases b.partition_meta) [ inl n ↦ rw (t, n) refl | inr n ↦ rw (t, n) refl ]
  ]
  table_allows-chain execute a = elim (Bool-cases b.use_trustzone) [
    | inl t ↦ elim (Bool-cases b.partition_meta) [ inl n ↦ rw (t, n) refl | inr n ↦ rw (t, n) refl ]
    | inr t ↦ elim (Bool-cases b.partition_meta) [ inl n ↦ rw (t, n) refl | inr n ↦ rw (t, n) refl ]
  ]

  -- From the Boolean test to the bounds, and back.
  bounds : (start end a : ℕ) → between start end a ≡ true → (start ≤ a) × (a < end)
  bounds start end a h = (ground arith, ground arith)

  out : (start end a : ℕ) → (a < start) ⊎ (end ≤ a) → between start end a ≡ false
  out start end a h = ground arith

  out_if :
      (on : Bool) (start end a : ℕ)
      → (on ≡ true → (a < start) ⊎ (end ≤ a))
      → (on && between start end a) ≡ false
  out_if true start end a h = out start end a (h refl)
  out_if false start end a h = refl

  both : (p q : Bool) → (p && q) ≡ true → (p ≡ true) × (q ≡ true)
  both true q h = (refl, h)
  both false q h = absurd (cc)

  code_below : y.code.code_end ≤ y.ram.shared_start
  code_below = omega arith

  -- The veneers lie between the reset code and the list, or behind the unprivileged code.
  veneers_side :
      b.use_trustzone ≡ true
      → ((y.code.reset_end ≤ y.code.veneer_base) × (y.code.veneer_limit ≤ y.code.load_list_start))
        ⊎ ((y.code.unpriv_end ≤ y.code.veneer_base) × (y.code.veneer_limit ≤ y.code.code_end))
  veneers_side tz = elim (Bool-cases g.at_end) [
    | inl late ↦ inr (rw late at (at.code.veneers_after), rw late at (at.code.veneers_before tz))
    | inr early ↦ inl (rw early at (at.code.veneers_after), rw early at (at.code.veneers_before tz))
  ]

  no_code :
      (a : ℕ)
      → y.code.code_end ≤ a
      → (holds b y veneers a ≡ false)
        × (holds b y unpriv_code a ≡ false)
        × (holds b y app_code a ≡ false)
  unfolding holds
  no_code a h = (
    out_if b.use_trustzone y.code.veneer_base y.code.veneer_limit a
        (λ tz. inr (ground (arith, veneers_side tz))),
    out y.code.unpriv_start y.code.unpriv_end a (inr (omega arith)),
    out y.code.app_start y.code.app_end a (inr (omega arith)),
  )

  -- An address of the flash outside the three rows of code.
  no_code_test :
      (k : Access) (a : ℕ)
      → holds b y veneers a ≡ false
      → holds b y unpriv_code a ≡ false
      → holds b y app_code a ≡ false
      → a < y.code.code_end
      → chain k a ≡ false
  unfolding holds
  no_code_test k a nv nu np h =
      rw
        (
          nv,
          nu,
          np,
          out y.ram.app_start y.ram.app_end a (inl (omega arith)),
          out_if b.partition_meta y.ram.meta_start y.ram.meta_end a (λ on. inl (omega arith)),
        )
        refl

  -- An address of the RAM outside the two rows of data.
  no_data_test :
      (k : Access) (a : ℕ)
      → y.code.code_end ≤ a
      → holds b y app_data a ≡ false
      → holds b y sp_meta a ≡ false
      → chain k a ≡ false
  no_data_test k a h nd nm = let (nv, nu, np) = no_code a h in rw (nv, nu, np, nd, nm) refl

  pub linked_rights :
      (part : Part) (k : Access) (a : ℕ) → holds b y part a ≡ true → chain k a ≡ rights part k
  unfolding holds
  linked_rights vectors k a h =
      let (lo, hi) = bounds y.code.vectors_start y.code.reset_end a h in
      no_code_test k a
        (out_if b.use_trustzone y.code.veneer_base y.code.veneer_limit a
          (λ tz. ground (arith, veneers_side tz)))
        (out y.code.unpriv_start y.code.unpriv_end a (inl (omega arith)))
        (out y.code.app_start y.code.app_end a (inl (omega arith))) (omega arith)
  linked_rights veneers k a h = rw h refl
  linked_rights load_list k a h =
      let (lo, hi) = bounds y.code.load_list_start y.code.load_list_end a h in
      no_code_test k a
        (out_if b.use_trustzone y.code.veneer_base y.code.veneer_limit a
          (λ tz. ground (arith, veneers_side tz)))
        (out y.code.unpriv_start y.code.unpriv_end a (inl (omega arith)))
        (out y.code.app_start y.code.app_end a (inl (omega arith))) (omega arith)
  linked_rights psa_code k a h =
      let (lo, hi) = bounds y.code.psa_start y.code.psa_end a h in
      no_code_test k a
        (out_if b.use_trustzone y.code.veneer_base y.code.veneer_limit a
          (λ tz. ground (arith, veneers_side tz)))
        (out y.code.unpriv_start y.code.unpriv_end a (inl (omega arith)))
        (out y.code.app_start y.code.app_end a (inl (omega arith))) (omega arith)
  linked_rights app_code k a h =
      let (lo, hi) = bounds y.code.app_start y.code.app_end a h in
      rw
        (
          out_if b.use_trustzone y.code.veneer_base y.code.veneer_limit a
              (λ tz. ground (arith, veneers_side tz)),
          out y.code.unpriv_start y.code.unpriv_end a (inl (omega arith)),
          h,
        )
        refl
  linked_rights tfm_code k a h =
      let (lo, hi) = bounds y.code.tfm_start y.code.tfm_end a h in
      no_code_test k a
        (out_if b.use_trustzone y.code.veneer_base y.code.veneer_limit a
          (λ tz. ground (arith, veneers_side tz)))
        (out y.code.unpriv_start y.code.unpriv_end a (inl (omega arith)))
        (out y.code.app_start y.code.app_end a (inr (omega arith))) (omega arith)
  linked_rights unpriv_code k a h =
      let (lo, hi) = bounds y.code.unpriv_start y.code.unpriv_end a h in
      rw
        (
          out_if b.use_trustzone y.code.veneer_base y.code.veneer_limit a
              (λ tz. ground (arith, veneers_side tz)),
          h,
        )
        refl
  linked_rights shared_data k a h =
      let (lo, hi) = bounds y.ram.shared_start y.ram.shared_end a h in
      no_data_test k a (omega arith) (out y.ram.app_start y.ram.app_end a (inl (omega arith)))
        (out_if b.partition_meta y.ram.meta_start y.ram.meta_end a (λ on. inl (omega arith)))
  linked_rights msp_stack k a h =
      let (lo, hi) = bounds y.ram.stack_start y.ram.seal_end a h in
      no_data_test k a (omega arith) (out y.ram.app_start y.ram.app_end a (inl (omega arith)))
        (out_if b.partition_meta y.ram.meta_start y.ram.meta_end a (λ on. inl (omega arith)))
  linked_rights sp_meta k a h =
      let (on, hit) = both b.partition_meta _ h in
      let (lo, hi) = bounds y.ram.meta_start y.ram.meta_end a hit in
      let before_app = at.ram.app_after_meta on in
      let (nv, nu, np) = no_code a (omega arith) in
      rw (nv, nu, np, out y.ram.app_start y.ram.app_end a (inl (omega arith)), h) refl
  linked_rights app_data k a h =
      let (lo, hi) = bounds y.ram.app_start y.ram.app_end a h in
      let (nv, nu, np) = no_code a (omega arith) in rw (nv, nu, np, h) refl
  linked_rights psa_data k a h =
      let (lo, hi) = bounds y.ram.psa_start y.ram.psa_end a h in
      no_data_test k a (omega arith) (out y.ram.app_start y.ram.app_end a (inr (omega arith))) (
        out_if b.partition_meta y.ram.meta_start y.ram.meta_end a
          (λ on. inr (let g = at.ram.app_after_meta on in omega arith)))
  linked_rights tfm_data k a h =
      let (lo, hi) = bounds y.ram.tfm_start y.ram.bss_end a h in
      no_data_test k a (omega arith) (out y.ram.app_start y.ram.app_end a (inr (omega arith))) (
        out_if b.partition_meta y.ram.meta_start y.ram.meta_end a
          (λ on. inr (let g = at.ram.app_after_meta on in omega arith)))
