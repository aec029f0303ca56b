-- ===== src/Pmp/Attack.antt =====
-- U-mode as an adversary: any program, run under the PMP of `pmp_isolate_secret`, with the
-- trampoline and the trap handler of main.c behind every trap. Instructions that only compute are no
-- steps: U-mode may store any byte that the PMP lets it store, and trap with any cause and any
-- register values, at any time. The handler runs as its source says: what the compiler keeps on the
-- trap stack below the saved frame is not in the model.
use rp2350_tz_tee.Prelude.{ℕ, ◌^◌, ◌<◌, ◌≡◌, ◌∙◌, arith, refl, ap, true, false}
use rp2350_tz_tee.Prelude.Maps.{update, update_ne}
use rp2350_tz_tee.Hw.Pmp.{Pmp, Access, write, user, pmp_allows}
use rp2350_tz_tee.Pmp.Link.{Link, IsLinked, IsStacked}
use rp2350_tz_tee.Pmp.Isolate.{pmp_isolate_secret}
use rp2350_tz_tee.Pmp.Isolate.Napot.{pmp_isolate_secret_lem}
use rp2350_tz_tee.Pmp.Sign.Guard.{IsProtected}
use rp2350_tz_tee.Pmp.Trap.{Hart, Frame, trap_dispatch, recover, caught, serve}
use rp2350_tz_tee.Pmp.Entry.{Core, done, trapped, trap_entry}
use rp2350_tz_tee.Pmp.Entry.Saved.{IsWords}
use rp2350_tz_tee.Pmp.Entry.Refine.{trap_entry-keeps_secrets, trap_entry_pmp}
use rp2350_tz_tee.Pmp.Trap.Services.{hart_of, IsSecret}

-- A trap takes any registers to the trampoline; `mscratch` holds what `main` put there, since
-- U-mode cannot write it.
pub data Step (l : Link) (h : Hart) (h' : Hart) : Type 0 where
  store :
      (a v : ℕ)
      → a < 2 ^ 32
      → pmp_allows h.pmp user write a ≡ true
      → h' ≡ record h { mem = update h.mem a v }
      → Step l h h'
  trap :
      (c c' : Core) (cause epc tval : ℕ)
      → c.hart ≡ trapped h cause epc tval
      → c.mscratch ≡ l.stack_top
      → IsWords c.regs
      → trap_entry l c ≡ done tt c'
      → h' ≡ c'.hart
      → Step l h h'

pub data Reach (l : Link) (h : Hart) : Hart → Type 0 where
  here : Reach l h h
  next : {h' h'' : Hart} → Reach l h h' → Step l h' h'' → Reach l h h''

-- The PMP registers hold what `pmp_isolate_secret` wrote, and the secret bytes are those of `h₀`.
pub record IsGuarded (l : Link) (p : Pmp) (h₀ h : Hart) : Type 0 where
  pub config : h.pmp ≡ pmp_isolate_secret l.g_prot p
  pub secrets : (a : ℕ) → IsSecret l a → h.mem a ≡ h₀.mem a

pmp-serve : (l : Link) (f : Frame) (h : Hart) → (serve l f h).1.pmp ≡ h.pmp
unfolding serve
pmp-serve l f h = ground arith

pmp-recover : (l : Link) (h : Hart) → h.pmp.pmpcfgm0 ≡ 0 → (recover l h).pmp ≡ h.pmp
unfolding recover
pmp-recover l h e = ground arith

-- No trap changes the registers that `pmp_isolate_secret` wrote: the self-test branch clears
-- PMPCFGM0, which is clear.
pmp-trap_dispatch :
    (l : Link) (p : Pmp) (f : Frame) (h : Hart)
    → h.pmp ≡ pmp_isolate_secret l.g_prot p
    → (hart_of (trap_dispatch l f h)).pmp ≡ pmp_isolate_secret l.g_prot p
unfolding trap_dispatch caught
pmp-trap_dispatch l p f h config =
    let clear : h.pmp.pmpcfgm0 ≡ 0 =
      ap (λ q. q.pmpcfgm0) config ∙ (unfold pmp_isolate_secret in refl) in
    ground (arith, pmp-serve l f h, pmp-recover l h clear)

Step-IsGuarded :
    {l : Link} {p : Pmp} {h₀ h h' : Hart}
    → IsLinked l
    → IsStacked l
    → IsGuarded l p h₀ h
    → Step l h h'
    → IsGuarded l p h₀ h'
Step-IsGuarded {l} {p} {h₀} {h} {h'} linked stacked g (store a v small allowed e) = record {
  config = ground arith;
  secrets = λ b sec.
      let outside =
        (pmp_isolate_secret_lem l.g_prot a p write linked.aligned (omega arith) small).0.0
          (rw g.config at allowed) in
      ground (arith, update_ne h.mem a b v, g.secrets b sec);
}
Step-IsGuarded {l} {p} {h₀} {h} {h'} linked stacked g
      (trap c c' cause epc tval start scratch w run e) =
    let before : c.hart.pmp ≡ pmp_isolate_secret l.g_prot p = ap (λ n. n.pmp) start ∙ g.config in
    record {
      config =
          ap (λ n. n.pmp) e
          ∙ trap_entry_pmp l c c' stacked scratch w run
          ∙ pmp-trap_dispatch l p c.regs _ before;
      secrets = λ b sec.
          ap (λ n. n.mem b) e
          ∙ trap_entry-keeps_secrets l c c' b linked stacked scratch w run sec
          ∙ ap (λ n. n.mem b) start
          ∙ g.secrets b sec;
    }

Reach-IsGuarded :
    {l : Link} {p : Pmp} {h₀ h : Hart}
    → IsLinked l
    → IsStacked l
    → h₀.pmp ≡ pmp_isolate_secret l.g_prot p
    → Reach l h₀ h
    → IsGuarded l p h₀ h
Reach-IsGuarded linked stacked start here = record { config = start; secrets = λ a sec. refl }
Reach-IsGuarded linked stacked start (next r s) =
    Step-IsGuarded linked stacked (Reach-IsGuarded linked stacked start r) s

-- Whatever U-mode does after `pmp_isolate_secret` (stores of bytes that the PMP allows, and traps
-- of any cause with any register values through `trap_entry`, in any order), with the objects and
-- the trap stack linked apart, the PMP still denies U-mode every access to the protected region,
-- and the bytes of the region outside the counter are those of the start.
pub Reach-isolated :
    (l : Link) (p : Pmp) {h₀ h : Hart} (a : ℕ) (k : Access)
    → IsLinked l
    → IsStacked l
    → h₀.pmp ≡ pmp_isolate_secret l.g_prot p
    → Reach l h₀ h
    → (IsProtected l a → pmp_allows h.pmp user k a ≡ false) × (IsSecret l a → h.mem a ≡ h₀.mem a)
Reach-isolated l p a k linked stacked start r =
    let g = Reach-IsGuarded linked stacked start r in
    (
      (λ prot. rw (g.config) (
          ground (
            arith,
            (pmp_isolate_secret_lem l.g_prot a p k linked.aligned (omega arith) (omega arith)).0.0,
          ))),
      g.secrets a,
    )
