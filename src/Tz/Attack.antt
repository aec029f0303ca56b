-- ===== src/Tz/Attack.antt =====
-- The Non-Secure world as an adversary behind `tz_isolation_config`: any Non-Secure program and any
-- use of Non-Secure DMA channels. Only accesses that write are steps: the core stores where the SAU
-- lets it, the DMA where its own unit lets it, the registers of ACCESSCTRL that main_s.c opens take
-- any values, and the two gateway functions are called with any arguments. The SAU and the DMA's unit
-- take writes of the Secure world only.
use rp2350_tz_tee.Prelude.{
  ℕ, zero, suc, ◌+◌, ◌^◌, ◌≤◌, ◌<◌, ◌≡◌, ◌≢◌, ◌⊎◌, ◌∙◌, true, false, arith, refl, ap,
}
use rp2350_tz_tee.Prelude.Maps.{update, update_ne}
use rp2350_tz_tee.Prelude.Words.{u32}
use rp2350_tz_tee.Hw.Memory.{load32}
use rp2350_tz_tee.Hw.Sau.{secure, attribution}
use rp2350_tz_tee.Hw.DmaMpu.{dma_open}
use rp2350_tz_tee.Tz.Layout.{s_flash_start, veneer_start, s_ram_start, s_ram_limit}
use rp2350_tz_tee.Tz.Config.{Chip, tz_isolation_config}
use rp2350_tz_tee.Tz.Config.Attribution.{
  IsPpbBase, UnusedOff, intended, intended_dma, attribution-tz_isolation_config,
  dma_open-tz_isolation_config,
}
use rp2350_tz_tee.Tz.Service.{Cmse, secure_get_counter, secure_sign}
use rp2350_tz_tee.Tz.Service.Sign.{ChecksNonsecure, secure_sign_writes_nonsecure}
use rp2350_tz_tee.Tz.Client.Run.{is_nonsecure}
use rp2350_tz_tee.Tz.Secret.{secret_next_counter, counter_after}
use rp2350_tz_tee.Tz.Objects.{Objects, whole, whole_counter, whole_same}
use rp2350_tz_tee.Tz.Main.{System, readable}

abbrev pub stored : System → ℕ → ℕ → System
stored s a v = record s { world = record (s.world) { mem = update s.world.mem a v } }

pub data Step (c : Cmse) (s : System) (s' : System) : Type 0 where
  store : (a v : ℕ) → readable s a ≡ true → s' ≡ stored s a v → Step c s s'
  dma : (a v : ℕ) → dma_open s.chip.dma a ≡ true → s' ≡ stored s a v → Step c s s'
  open_registers : (regs : ℕ → ℕ) → s' ≡ record s { accessctrl = regs } → Step c s s'
  get_counter :
      s'
        ≡ record s { world = record (s.world) { s_counter = secure_get_counter s.world.s_counter } }
      → Step c s s'
  sign :
      (tmp_in tmp_out : ℕ → ℕ) (challenge out len : ℕ)
      → out < 2 ^ 32
      → s' ≡ record s {
        world = record (s.world) {
          mem = (secure_sign c tmp_in tmp_out s.world.mem challenge out len).1;
        };
      }
      → Step c s s'

pub data Reach (c : Cmse) (s : System) : System → Type 0 where
  here : Reach c s s
  next : {s' s'' : System} → Reach c s s' → Step c s' s'' → Reach c s s''

-- Secure flash below the veneers, and Secure RAM.
abbrev pub IsSecureByte : ℕ → Type 0
IsSecureByte a =
    ((s_flash_start ≤ a) × (a < veneer_start)) ⊎ ((s_ram_start ≤ a) × (a ≤ s_ram_limit))

-- One call more.
next_counter : (n v : ℕ) → secure_get_counter (counter_after n v) ≡ counter_after (suc n) v
unfolding counter_after secure_get_counter
next_counter zero v = refl
next_counter (suc n) v = next_counter n (secret_next_counter v)

-- The configuration and the Secure bytes off the objects of secret.c are those of `s₀`, and the
-- counter has been advanced.
record Kept (s₀ s : System) : Type 0 where
  pub same_chip : s.chip ≡ s₀.chip
  pub same_bytes : (a : ℕ) → IsSecureByte a → s.world.mem a ≡ s₀.world.mem a
  pub counted : (n : ℕ) × (s.world.s_counter ≡ counter_after n s₀.world.s_counter)

module _ (p b : ℕ) (chip : Chip) (c : Cmse) (ppb : IsPpbBase p) (off : UnusedOff chip.sau) where
  secure_byte :
      (a : ℕ)
      → IsSecureByte a
      → is_nonsecure (attribution (tz_isolation_config p b chip).sau a) ≡ false
  unfolding intended
  secure_byte a sec =
      let at : attribution (tz_isolation_config p b chip).sau a ≡ secure =
        attribution-tz_isolation_config p b chip a ppb off ∙ ground arith in
      rw at refl

  closed_byte : (a : ℕ) → IsSecureByte a → dma_open (tz_isolation_config p b chip).dma a ≡ false
  unfolding intended_dma
  closed_byte a sec = dma_open-tz_isolation_config p b chip a ppb ∙ ground arith

  Step-Kept :
      (s₀ s s' : System)
      → s₀.chip ≡ tz_isolation_config p b chip
      → ChecksNonsecure c (readable s₀) c.mpu_readwrite
      → Kept s₀ s
      → Step c s s'
      → Kept s₀ s'
  Step-Kept s₀ s s' start checks g (store a v ok e) = record {
    same_chip = ap (λ t. t.chip) e ∙ g.same_chip;
    counted = (let (n, at) = g.counted in (n, ap (λ t. t.world.s_counter) e ∙ at));
    same_bytes = λ x sec.
        let allowed : is_nonsecure (attribution (tz_isolation_config p b chip).sau a) ≡ true =
          rw (g.same_chip ∙ start) at ok in
        let differ : a ≢ x = (λ same. ground (arith, rw same at allowed, secure_byte x sec)) in
        ap (λ t. t.world.mem x) e ∙ update_ne s.world.mem a x v differ ∙ g.same_bytes x sec;
  }
  Step-Kept s₀ s s' start checks g (dma a v ok e) = record {
    same_chip = ap (λ t. t.chip) e ∙ g.same_chip;
    counted = (let (n, at) = g.counted in (n, ap (λ t. t.world.s_counter) e ∙ at));
    same_bytes = λ x sec.
        let allowed : dma_open (tz_isolation_config p b chip).dma a ≡ true =
          rw (g.same_chip ∙ start) at ok in
        let differ : a ≢ x = (λ same. ground (arith, rw same at allowed, closed_byte x sec)) in
        ap (λ t. t.world.mem x) e ∙ update_ne s.world.mem a x v differ ∙ g.same_bytes x sec;
  }
  Step-Kept s₀ s s' start checks g (open_registers regs e) = record {
    same_chip = ap (λ t. t.chip) e ∙ g.same_chip;
    counted = (let (n, at) = g.counted in (n, ap (λ t. t.world.s_counter) e ∙ at));
    same_bytes = λ x sec. ap (λ t. t.world.mem x) e ∙ g.same_bytes x sec;
  }
  Step-Kept s₀ s s' start checks g (get_counter e) = record {
    same_chip = ap (λ t. t.chip) e ∙ g.same_chip;
    counted =
        let (n, at) = g.counted in
        (
          suc n,
          ap (λ t. t.world.s_counter) e
              ∙ ap secure_get_counter at
              ∙ next_counter n s₀.world.s_counter,
        );
    same_bytes = λ x sec. ap (λ t. t.world.mem x) e ∙ g.same_bytes x sec;
  }
  Step-Kept s₀ s s' start checks g (sign tmp_in tmp_out challenge out len small e) = record {
    same_chip = ap (λ t. t.chip) e ∙ g.same_chip;
    counted = (let (n, at) = g.counted in (n, ap (λ t. t.world.s_counter) e ∙ at));
    same_bytes = λ x sec.
        ap (λ t. t.world.mem x) e
        ∙ secure_sign_writes_nonsecure c (readable s₀) tmp_in tmp_out s.world.mem challenge out len
            x checks small (omega arith) (rw start (secure_byte x sec))
        ∙ g.same_bytes x sec;
  }

Reach-Kept :
    (p b : ℕ) (chip : Chip) (c : Cmse) (s₀ s : System)
    → IsPpbBase p
    → UnusedOff chip.sau
    → s₀.chip ≡ tz_isolation_config p b chip
    → ChecksNonsecure c (readable s₀) c.mpu_readwrite
    → Reach c s₀ s
    → Kept s₀ s
Reach-Kept p b chip c s₀ s ppb off start checks here = record {
  same_chip = refl;
  same_bytes = λ a sec. refl;
  counted = (0, unfold counter_after in refl);
}
Reach-Kept p b chip c s₀ s ppb off start checks (next {s'} r step) =
    Step-Kept p b chip c ppb off s₀ s' s start checks
      (Reach-Kept p b chip c s₀ s' ppb off start checks r) step

counter_after-lt : (n v : ℕ) → v < 2 ^ 32 → counter_after n v < 2 ^ 32
unfolding counter_after secret_next_counter
counter_after-lt zero v h = h
counter_after-lt (suc n) v h = counter_after-lt n (u32 (v + 1)) (omega arith)

-- What stays of a system: the configuration, and the Secure bytes of memory, the key among them,
-- but for the counter, which some number of calls of the service has advanced.
pub record IsConfined (o : Objects) (s₀ s : System) : Type 0 where
  pub same_chip : s.chip ≡ s₀.chip
  pub same_bytes :
      (a : ℕ)
      → IsSecureByte a
      → (a < o.counter_at) ⊎ (o.counter_at + 4 ≤ a)
      → whole o s.world a ≡ whole o s₀.world a
  pub counted :
      (n : ℕ) × (load32 (whole o s.world) o.counter_at
        ≡ counter_after n (load32 (whole o s₀.world) o.counter_at))

-- Whatever the Non-Secure world does from a state with the chip as `tz_isolation_config` leaves it
-- (stores of the core where the SAU allows them, stores of Non-Secure DMA channels where its unit
-- allows them, any values in the ACCESSCTRL registers, and calls of both gateway functions with
-- any arguments, in any order), with a 32-bit `s_counter`, a 32-byte aligned PPB_BASE, the
-- unprogrammed SAU regions off, and a range check that accepts only Non-Secure ranges for writing,
-- the configuration is that of the start, and wherever in Secure RAM `s_key` and `s_counter` lie,
-- apart, the word `s_counter` has been advanced by some number of calls, and every other byte of
-- Secure RAM and of Secure flash below the veneers, the key included, is that of the start.
pub Reach-IsConfined :
    (p b : ℕ) (chip : Chip) (c : Cmse) (o : Objects) (s₀ s : System)
    → s₀.world.s_counter < 2 ^ 32
    → IsPpbBase p
    → UnusedOff chip.sau
    → s₀.chip ≡ tz_isolation_config p b chip
    → ChecksNonsecure c (readable s₀) c.mpu_readwrite
    → Reach c s₀ s
    → IsConfined o s₀ s
Reach-IsConfined p b chip c o s₀ s small ppb off start checks r =
    let at = Reach-Kept p b chip c s₀ s ppb off start checks r in
    let (n, now) = at.counted in
    let fits : s.world.s_counter < 2 ^ 32 = rw now (counter_after-lt n s₀.world.s_counter small) in
    record {
      same_chip = at.same_chip;
      same_bytes = λ a sec out. whole_same o s.world s₀.world a out (at.same_bytes a sec);
      counted = (n, rw (whole_counter o s.world fits, whole_counter o s₀.world small) now);
    }
