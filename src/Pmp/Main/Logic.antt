-- ===== src/Pmp/Main/Logic.antt =====
-- Rules for runs: what holds where a computation ends, and where the handler stops it.
use rp2350_tz_tee.Prelude.{ℕ, ◌≡◌, refl, ap, true}
use rp2350_tz_tee.Prelude.Maps.{update}
use rp2350_tz_tee.Hw.Memory.{load32, store32}
use rp2350_tz_tee.Hw.Pmp.{Pmp, Mode, read, write, pmp_allows}
use rp2350_tz_tee.Pmp.Link.{Link}
use rp2350_tz_tee.Pmp.Trap.{Hart}
use rp2350_tz_tee.Pmp.Entry.{Core, Run, done, stopped, M, ◌>>=◌}
use rp2350_tz_tee.Pmp.Entry.Saved.{IsWords}
use rp2350_tz_tee.Pmp.Access.{Site, load_word, load_byte, store_word, store_byte, write_pmp}
use rp2350_tz_tee.Pmp.Main.View.{View, Shows}

-- The run ends, with a value and a core that satisfy `P`.
abbrev pub Ensures : {A : Type 0} → Run A → (A → Core → Type 0) → Type 0
Ensures (done a c) P = P a c
Ensures (stopped h) P = ⊥

-- The handler stops the run for ever, with a hart that satisfies `P`.
abbrev pub Stops : {A : Type 0} → Run A → (Hart → Type 0) → Type 0
Stops (done a c) P = ⊥
Stops (stopped h) P = P h

module _ {A B : Type 0} (P : A → Core → Type 0) where
  then_ensures :
      (r : Run A) (f : A → M B) (Q : B → Core → Type 0)
      → Ensures r P
      → ((a : A) (c : Core) → P a c → Ensures (f a c) Q)
      → Ensures (elim r [ done a c ↦ f a c | stopped h ↦ stopped h ]) Q
  then_ensures (done a c) f Q h k = k a c h
  then_ensures (stopped n) f Q h k = absurd h

  then_stops :
      (r : Run A) (f : A → M B) (Q : Hart → Type 0)
      → Ensures r P
      → ((a : A) (c : Core) → P a c → Stops (f a c) Q)
      → Stops (elim r [ done a c ↦ f a c | stopped h ↦ stopped h ]) Q
  then_stops (done a c) f Q h k = k a c h
  then_stops (stopped n) f Q h k = absurd h

  pub Ensures-bind :
      (m : M A) (f : A → M B) (c : Core) (Q : B → Core → Type 0)
      → Ensures (m c) P
      → ((a : A) (c' : Core) → P a c' → Ensures (f a c') Q)
      → Ensures ((m >>= f) c) Q
  Ensures-bind m f c Q h k = then_ensures (m c) f Q h k

  pub Stops-bind :
      (m : M A) (f : A → M B) (c : Core) (Q : Hart → Type 0)
      → Ensures (m c) P
      → ((a : A) (c' : Core) → P a c' → Stops (f a c') Q)
      → Stops ((m >>= f) c) Q
  Stops-bind m f c Q h k = then_stops (m c) f Q h k

module _ {A B : Type 0} where
  first_stops :
      (r : Run A) (f : A → M B) (Q : Hart → Type 0)
      → Stops r Q
      → Stops (elim r [ done a c ↦ f a c | stopped h ↦ stopped h ]) Q
  first_stops (done a c) f Q h = absurd h
  first_stops (stopped n) f Q h = h

  -- Nothing runs behind a run that has stopped.
  pub Stops-first :
      (m : M A) (f : A → M B) (c : Core) (Q : Hart → Type 0) → Stops (m c) Q → Stops ((m >>= f) c) Q
  Stops-first m f c Q h = first_stops (m c) f Q h

-- The control registers of the traps.
pub record Traps : Type 0 where
  pub stack : ℕ
  pub vector : ℕ

-- As `main` sets them.
abbrev pub armed : Link → Traps
armed l = record { stack = l.stack_top; vector = l.trap_entry_at }

-- A core with the PMP registers `q` and the control registers `x` whose memory shows `v`.
pub record Ready (l : Link) (q : Pmp) (x : Traps) (v : View) (c : Core) : Type 0 where
  pub config : c.hart.pmp ≡ q
  pub scratch : c.mscratch ≡ x.stack
  pub vector : c.mtvec ≡ x.vector
  pub words : IsWords c.regs
  pub shows : Shows l c.hart.mem v

module _ (l : Link) (e : Site) (q : Pmp) (x : Traps) (v : View) (c : Core)
    (r : Ready l q x v c) where
  pub store_word-Ensures :
      (mode : Mode) (k a w : ℕ) (v' : View)
      → pmp_allows q mode write a ≡ true
      → Shows l (store32 c.hart.mem a w) v'
      → Ensures (store_word l e mode k a w c) (λ u c'. (u ≡ tt) × Ready l q x v' c')
  unfolding store_word
  store_word-Ensures mode k a w v' ok s =
      let here : pmp_allows c.hart.pmp mode write a ≡ true = rw r.config ok in
      rw here (
        refl,
        record {
          config = r.config;
          scratch = r.scratch;
          vector = r.vector;
          words = r.words;
          shows = s;
        },
      )

  pub store_byte-Ensures :
      (mode : Mode) (k a w : ℕ) (v' : View)
      → pmp_allows q mode write a ≡ true
      → Shows l (update c.hart.mem a w) v'
      → Ensures (store_byte l e mode k a w c) (λ u c'. (u ≡ tt) × Ready l q x v' c')
  unfolding store_byte
  store_byte-Ensures mode k a w v' ok s =
      let here : pmp_allows c.hart.pmp mode write a ≡ true = rw r.config ok in
      rw here (
        refl,
        record {
          config = r.config;
          scratch = r.scratch;
          vector = r.vector;
          words = r.words;
          shows = s;
        },
      )

  pub load_word-Ensures :
      (mode : Mode) (k a w : ℕ)
      → pmp_allows q mode read a ≡ true
      → load32 c.hart.mem a ≡ w
      → Ensures (load_word l e mode k a c) (λ u c'. (u ≡ w) × Ready l q x v c')
  unfolding load_word
  load_word-Ensures mode k a w ok h =
      let here : pmp_allows c.hart.pmp mode read a ≡ true = rw r.config ok in rw here (h, r)

  pub load_byte-Ensures :
      (mode : Mode) (k a w : ℕ)
      → pmp_allows q mode read a ≡ true
      → c.hart.mem a ≡ w
      → Ensures (load_byte l e mode k a c) (λ u c'. (u ≡ w) × Ready l q x v c')
  unfolding load_byte
  load_byte-Ensures mode k a w ok h =
      let here : pmp_allows c.hart.pmp mode read a ≡ true = rw r.config ok in rw here (h, r)

  pub write_pmp-Ensures :
      (f : Pmp → Pmp) → Ensures (write_pmp l e f c) (λ u c'. (u ≡ tt) × Ready l (f q) x v c')
  unfolding write_pmp
  write_pmp-Ensures f = (
    refl,
    record {
      config = ap f r.config;
      scratch = r.scratch;
      vector = r.vector;
      words = r.words;
      shows = r.shows;
    },
  )
