-- ===== src/Tfm/Filter/Reads.antt =====
-- What the registers of ACCESSCTRL hold after `bus_filter_cfg`.
use rp2350_tz_tee.Prelude.{ℕ, ◌<◌, ◌≡◌, ◌≢◌, Bool, true, false, ◌||◌, ◌==◌, if◌then◌else◌, bit_or}
use rp2350_tz_tee.Prelude.{List, [], ◌∷◌, arith, refl, ◌∙◌}
use rp2350_tz_tee.Tfm.Build.{Build, success}
use rp2350_tz_tee.Tfm.Filter.{
  Bus, Progress, Accessctrl, reg, write_checked, configure, reset, bus_filter_cfg, configure_all,
  ns_priv, s_unpriv_c0, s_unpriv_c0_c1, c0_c1_unpriv_periph_offsets, c0_unpriv_periph_offsets,
  ns_priv_periph_offsets,
}

-- Whether an address is that of one of the registers.
unfoldable pub listed : Accessctrl → ℕ → List ℕ → Bool
listed ac x [] = false
listed ac x (off ∷ offs) = x == reg ac off || listed ac x offs

-- Whether an address is that of a register of permissions: one of those in the three lists. The
-- other registers of ACCESSCTRL, such as CFGRESET and LOCK, are not among them.
unfoldable pub filters : Accessctrl → ℕ → Bool
filters ac x =
    listed ac x (c0_c1_unpriv_periph_offsets ac.offsets)
    || listed ac x (c0_unpriv_periph_offsets ac.offsets)
    || listed ac x (ns_priv_periph_offsets ac.offsets)

-- What the datasheet gives of ACCESSCTRL: a register of permissions takes the permission bits of a
-- write with the password, which changes no other register, and a write to LOCK changes what no
-- other register reads.
pub record IsAccessctrl (bus : Bus) (ac : Accessctrl) : Type 0 where
  pub takes :
      (x y perm : ℕ) (s : bus.State)
      → filters ac y ≡ true
      → perm < 256
      → bus.read32 x (bus.write32 y (bit_or perm ac.password) s)
        ≡ (if x == y then perm else bus.read32 x s)
  pub lock_keeps :
      (x v : ℕ) (s : bus.State)
      → x ≢ ac.lock
      → bus.read32 x (bus.write32 ac.lock v s) ≡ bus.read32 x s

module _ (bus : Bus) (ac : Accessctrl) (dev : IsAccessctrl bus ac) where
  open bus use {State, write32, read32}

  write_checked_lem :
      (perm off x : ℕ) (p : Progress bus)
      → filters ac (reg ac off) ≡ true
      → perm < 256
      → ((write_checked bus ac perm off p).0 ≡ p.0)
        × (read32 x (write_checked bus ac perm off p).1
            ≡ (if x == reg ac off then perm else read32 x p.1))
  unfolding write_checked
  write_checked_lem perm off x p f h = ground (
    arith,
    dev.takes x (reg ac off) perm p.1 f h,
    dev.takes (reg ac off) (reg ac off) perm p.1 f h,
  )

  configure_lem :
      (perm : ℕ) (offs : List ℕ) (x : ℕ) (p : Progress bus)
      → ((y : ℕ) → listed ac y offs ≡ true → filters ac y ≡ true)
      → perm < 256
      → ((configure bus ac perm offs p).0 ≡ p.0)
        × (read32 x (configure bus ac perm offs p).1
            ≡ (if listed ac x offs then perm else read32 x p.1))
  unfolding configure listed
  configure_lem perm [] x p f h = (refl, refl)
  configure_lem perm (off ∷ offs) x p f h = ground (
    arith,
    configure_lem perm offs x (write_checked bus ac perm off p) (λ y i. f y (ground (arith, i))) h,
    write_checked_lem perm off x p (f (reg ac off) (ground arith)) h,
  )

  -- On a device on which a write of permissions with the password to a register of the three lists
  -- changes that register and no other, and which the lock leaves readable, `bus_filter_cfg`
  -- succeeds, and every address but that of the lock reads the permissions of the last of the
  -- three lists that names it, or what it read after the reset.
  pub bus_filter_cfg_reads :
      (b : Build) (s : State) (x : ℕ)
      → x ≢ ac.lock
      → let o = ac.offsets in
        ((bus_filter_cfg bus b ac s).0 ≡ success)
        × (read32 x (bus_filter_cfg bus b ac s).1 ≡ (
            if listed ac x (ns_priv_periph_offsets o)
            then ns_priv
            else if listed ac x (c0_unpriv_periph_offsets o)
            then s_unpriv_c0
            else if listed ac x (c0_c1_unpriv_periph_offsets o)
            then s_unpriv_c0_c1 b
            else read32 x (reset bus ac s)))
  unfolding bus_filter_cfg configure_all filters
  bus_filter_cfg_reads b s x h =
      let o = ac.offsets in
      let start : Progress bus = (success, reset bus ac s) in
      let one = configure bus ac (s_unpriv_c0_c1 b) (c0_c1_unpriv_periph_offsets o) start in
      let two = configure bus ac s_unpriv_c0 (c0_unpriv_periph_offsets o) one in
      let three = configure bus ac ns_priv (ns_priv_periph_offsets o) two in
      let first =
        configure_lem (s_unpriv_c0_c1 b) (c0_c1_unpriv_periph_offsets o) x start
          (λ y i. ground (arith, i)) (ground arith) in
      let second =
        configure_lem s_unpriv_c0 (c0_unpriv_periph_offsets o) x one (λ y i. ground (arith, i))
          (omega arith) in
      let third =
        configure_lem ns_priv (ns_priv_periph_offsets o) x two (λ y i. ground (arith, i))
          (omega arith) in
      (
        third.0 ∙ second.0 ∙ first.0,
        rw (dev.lock_keeps x (bit_or ac.password 0x6) three.1 h, third.1, second.1, first.1),
      )
