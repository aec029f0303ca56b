-- ===== src/Pmp/Main/Rights.antt =====
-- What the PMP grants the demo in its three states: off, on, and on for M-mode too.
use rp2350_tz_tee.Prelude.{ℕ, ◌+◌, ◌^◌, ◌≤◌, ◌<◌, ◌≡◌, ◌⊎◌, arith, refl, true, false}
use rp2350_tz_tee.Hw.Pmp.{Pmp, machine, user, Access, entries_allow, pmp_allows}
use rp2350_tz_tee.Pmp.Link.{Link, IsPlaced}
use rp2350_tz_tee.Pmp.Isolate.{pmp_isolate_secret}
use rp2350_tz_tee.Pmp.Isolate.Napot.{napot_prot, pmp_isolate_secret_lem}

-- The PMP after reset: every entry is off.
pub record IsOff (q : Pmp) : Type 0 where
  pub entries : q.pmpcfg0 ≡ 0
  pub machine_bits : q.pmpcfgm0 ≡ 0

pub machine_off : (q : Pmp) (k : Access) (a : ℕ) → IsOff q → pmp_allows q machine k a ≡ true
unfolding pmp_allows entries_allow
machine_off q k a off = rw off.entries refl

module _ (l : Link) (p : IsPlaced l) (q : Pmp) (k : Access) (a : ℕ) where
  pub machine_on : a < 2 ^ 32 → pmp_allows (pmp_isolate_secret l.g_prot q) machine k a ≡ true
  machine_on h = (pmp_isolate_secret_lem l.g_prot a q k p.linked.aligned (omega arith) h).1

  pub user_on :
      a < 2 ^ 32
      → (a < l.g_prot) ⊎ (l.g_prot + 64 ≤ a)
      → pmp_allows (pmp_isolate_secret l.g_prot q) user k a ≡ true
  user_on h out = (pmp_isolate_secret_lem l.g_prot a q k p.linked.aligned (omega arith) h).0.1 out

  pub user_denied :
      l.g_prot ≤ a → a < l.g_prot + 64 → pmp_allows (pmp_isolate_secret l.g_prot q) user k a ≡ false
  user_denied lo hi =
      let on =
        (pmp_isolate_secret_lem l.g_prot a q k p.linked.aligned (omega arith) (omega arith)).0 in
      ground (arith, on.0)

  -- With the bit of entry 0 in PMPCFGM0, M-mode is held to it.
  pub machine_denied :
      l.g_prot ≤ a
      → a < l.g_prot + 64
      → pmp_allows (record (pmp_isolate_secret l.g_prot q) { pmpcfgm0 = 1 }) machine k a ≡ false
  unfolding pmp_allows pmp_isolate_secret
  machine_denied lo hi =
      let hit = (napot_prot l.g_prot a p.linked.aligned (omega arith)).1 (lo, hi) in
      ground (arith, hit)

pub isolated_again :
    (g : ℕ) (q : Pmp)
    → record (record (pmp_isolate_secret g q) { pmpcfgm0 = 1 }) { pmpcfgm0 = 0 }
      ≡ pmp_isolate_secret g q
unfolding pmp_isolate_secret
isolated_again g q = refl
