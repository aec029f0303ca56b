-- ===== src/Tfm/Filter/Errors.antt =====
-- `bus_filter_cfg` on a device that does not take a setting.
use rp2350_tz_tee.Prelude.{ℕ, ◌≡◌, ◌≢◌, bit_or, List, [], ◌∷◌, arith}
use mathlib.Core.Path.{subst}
use rp2350_tz_tee.Tfm.Build.{Build, system_err}
use rp2350_tz_tee.Tfm.Filter.{
  Bus, Progress, Offsets, Accessctrl, reg, write_checked, configure, configure_all, bus_filter_cfg,
  ns_priv, s_unpriv_c0, s_unpriv_c0_c1, c0_c1_unpriv_periph_offsets, c0_unpriv_periph_offsets,
  ns_priv_periph_offsets,
}

pub data Member (off : ℕ) : List ℕ → Type 0 where
  first : {offs : List ℕ} → Member off (off ∷ offs)
  later : {o : ℕ} {offs : List ℕ} → Member off offs → Member off (o ∷ offs)

-- The registers that `bus_filter_cfg` sets, with the permissions that it gives them.
pub data IsAssigned (b : Build) (o : Offsets) (off perm : ℕ) : Type 0 where
  c0_c1 :
      Member off (c0_c1_unpriv_periph_offsets o) → perm ≡ s_unpriv_c0_c1 b → IsAssigned b o off perm
  c0 : Member off (c0_unpriv_periph_offsets o) → perm ≡ s_unpriv_c0 → IsAssigned b o off perm
  ns : Member off (ns_priv_periph_offsets o) → perm ≡ ns_priv → IsAssigned b o off perm

module _ (bus : Bus) (ac : Accessctrl) where
  open bus use {State, write32, read32}

  -- The register never reads back what is written to it with the password.
  abbrev pub IsStuck : ℕ → ℕ → Type 0
  IsStuck off perm =
      (s : State) → read32 (reg ac off) (write32 (reg ac off) (bit_or perm ac.password) s) ≢ perm

  configure_sticky :
      (perm : ℕ) (offs : List ℕ) (p : Progress bus)
      → p.0 ≡ system_err
      → (configure bus ac perm offs p).0 ≡ system_err
  unfolding configure write_checked
  configure_sticky perm [] p h = h
  configure_sticky perm (off ∷ offs) p h =
      configure_sticky perm offs (write_checked bus ac perm off p) (ground arith)

  configure_stuck :
      {off perm : ℕ} (offs : List ℕ) (p : Progress bus)
      → Member off offs
      → IsStuck off perm
      → (configure bus ac perm offs p).0 ≡ system_err
  unfolding configure write_checked
  configure_stuck [] p m h = elim m [ ]
  configure_stuck {off} {perm} (_ ∷ offs) p first h =
      configure_sticky perm offs (write_checked bus ac perm off p) (ground (arith, h p.1))
  configure_stuck {off} {perm} (o ∷ offs) p (later m) h =
      configure_stuck offs (write_checked bus ac perm o p) m h

  -- If one of the registers that `bus_filter_cfg` sets never reads back the permissions written to
  -- it, the function returns a system error, whatever the other registers do.
  pub bus_filter_cfg_stuck :
      (b : Build) (s : State) {off perm : ℕ}
      → IsAssigned b ac.offsets off perm
      → IsStuck off perm
      → (bus_filter_cfg bus b ac s).0 ≡ system_err
  unfolding bus_filter_cfg configure_all
  bus_filter_cfg_stuck b s {off} (c0_c1 m e) h =
      configure_sticky ns_priv (ns_priv_periph_offsets ac.offsets) _ (
        configure_sticky s_unpriv_c0 (c0_unpriv_periph_offsets ac.offsets) _
          (configure_stuck (c0_c1_unpriv_periph_offsets ac.offsets) _ m (subst (IsStuck off) e h)))
  bus_filter_cfg_stuck b s {off} (c0 m e) h =
      configure_sticky ns_priv (ns_priv_periph_offsets ac.offsets) _
        (configure_stuck (c0_unpriv_periph_offsets ac.offsets) _ m (subst (IsStuck off) e h))
  bus_filter_cfg_stuck b s {off} (ns m e) h =
      configure_stuck (ns_priv_periph_offsets ac.offsets) _ m (subst (IsStuck off) e h)
