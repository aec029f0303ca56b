-- ===== src/Pmp/Main/View.antt =====
-- What the demo's objects hold, seen apart from where they lie: the abstract side of a run.
use rp2350_tz_tee.Prelude.{ℕ, ◌+◌, ◌^◌, ◌≤◌, ◌<◌, ◌≡◌, ◌≢◌, arith, ◌∙◌}
use rp2350_tz_tee.Prelude.Maps.{update, update_ne}
use rp2350_tz_tee.Hw.Memory.{
  Memory, load32, store32, store32_outside, load32-cong, load32-store32_self, load32-store32_apart,
}
use rp2350_tz_tee.Pmp.Link.{Link, IsPlaced, secret, counter, key, mb}

pub record View : Type 0 where
  pub mailbox : ℕ → ℕ
  pub stage : ℕ
  pub secret_word : ℕ
  pub count : ℕ
  pub key_bytes : ℕ → ℕ
  pub challenge_bytes : ℕ → ℕ

-- The memory shows the view.
pub record Shows (l : Link) (m : Memory) (v : View) : Type 0 where
  pub mailbox_at : (i : ℕ) → i < 12 → load32 m (mb l i) ≡ v.mailbox i
  pub stage_at : load32 m l.g_stage ≡ v.stage
  pub secret_at : load32 m (secret l) ≡ v.secret_word
  pub counter_at : load32 m (counter l) ≡ v.count
  pub key_at : (i : ℕ) → i < 16 → m (key l + i) ≡ v.key_bytes i
  pub challenge_at : (i : ℕ) → i < 16 → m (l.challenge + i) ≡ v.challenge_bytes i

-- The bytes that the view is about.
pub data IsShown (l : Link) (a : ℕ) : Type 0 where
  in_mailbox : l.g_mb ≤ a → a < l.g_mb + 48 → IsShown l a
  in_stage : l.g_stage ≤ a → a < l.g_stage + 4 → IsShown l a
  in_prot : l.g_prot ≤ a → a < l.g_prot + 24 → IsShown l a
  in_challenge : l.challenge ≤ a → a < l.challenge + 16 → IsShown l a

-- A change off these bytes changes no view.
pub Shows-cong :
    (l : Link) (m n : Memory) (v : View)
    → ((a : ℕ) → IsShown l a → n a ≡ m a)
    → Shows l m v
    → Shows l n v
Shows-cong l m n v same s = record {
  mailbox_at = λ i h.
      load32-cong n m (mb l i) (λ b lo hi. same b (in_mailbox (omega arith) (omega arith)))
      ∙ s.mailbox_at i h;
  stage_at = load32-cong n m l.g_stage (λ b lo hi. same b (in_stage lo hi)) ∙ s.stage_at;
  secret_at =
      load32-cong n m (secret l) (λ b lo hi. same b (in_prot (omega arith) (omega arith)))
      ∙ s.secret_at;
  counter_at =
      load32-cong n m (counter l) (λ b lo hi. same b (in_prot (omega arith) (omega arith)))
      ∙ s.counter_at;
  key_at = λ i h. same (key l + i) (in_prot (omega arith) (omega arith)) ∙ s.key_at i h;
  challenge_at =
      λ i h. same (l.challenge + i) (in_challenge (omega arith) (omega arith)) ∙ s.challenge_at i h;
}

module _ (l : Link) (p : IsPlaced l) (m : Memory) (v : View) (s : Shows l m v) where
  pub Shows-mailbox :
      (i x : ℕ)
      → i < 12
      → x < 2 ^ 32
      → Shows l (store32 m (mb l i) x) (record v { mailbox = update v.mailbox i x })
  Shows-mailbox i x h small = record {
    mailbox_at = λ j lt. ground (
      arith,
      load32-store32_self m (mb l i) x small,
      load32-store32_apart m (mb l i) (mb l j) x,
      s.mailbox_at j lt,
    );
    stage_at = load32-store32_apart m (mb l i) l.g_stage x (ground arith) ∙ s.stage_at;
    secret_at = load32-store32_apart m (mb l i) (secret l) x (ground arith) ∙ s.secret_at;
    counter_at = load32-store32_apart m (mb l i) (counter l) x (ground arith) ∙ s.counter_at;
    key_at = λ j lt. store32_outside m (mb l i) (key l + j) x (ground arith) ∙ s.key_at j lt;
    challenge_at =
        λ j lt. store32_outside m (mb l i) (l.challenge + j) x (ground arith) ∙ s.challenge_at j lt;
  }

  pub Shows-stage :
      (x : ℕ) → x < 2 ^ 32 → Shows l (store32 m (l.g_stage) x) (record v { stage = x })
  Shows-stage x small = record {
    mailbox_at =
        λ j lt. load32-store32_apart m (l.g_stage) (mb l j) x (ground arith) ∙ s.mailbox_at j lt;
    stage_at = load32-store32_self m (l.g_stage) x small;
    secret_at = load32-store32_apart m (l.g_stage) (secret l) x (ground arith) ∙ s.secret_at;
    counter_at = load32-store32_apart m (l.g_stage) (counter l) x (ground arith) ∙ s.counter_at;
    key_at = λ j lt. store32_outside m (l.g_stage) (key l + j) x (ground arith) ∙ s.key_at j lt;
    challenge_at = λ j lt.
        store32_outside m (l.g_stage) (l.challenge + j) x (ground arith) ∙ s.challenge_at j lt;
  }

  pub Shows-secret :
      (x : ℕ) → x < 2 ^ 32 → Shows l (store32 m (secret l) x) (record v { secret_word = x })
  Shows-secret x small = record {
    mailbox_at =
        λ j lt. load32-store32_apart m (secret l) (mb l j) x (ground arith) ∙ s.mailbox_at j lt;
    stage_at = load32-store32_apart m (secret l) (l.g_stage) x (ground arith) ∙ s.stage_at;
    secret_at = load32-store32_self m (secret l) x small;
    counter_at = load32-store32_apart m (secret l) (counter l) x (ground arith) ∙ s.counter_at;
    key_at = λ j lt. store32_outside m (secret l) (key l + j) x (ground arith) ∙ s.key_at j lt;
    challenge_at = λ j lt.
        store32_outside m (secret l) (l.challenge + j) x (ground arith) ∙ s.challenge_at j lt;
  }

  pub Shows-counter :
      (x : ℕ) → x < 2 ^ 32 → Shows l (store32 m (counter l) x) (record v { count = x })
  Shows-counter x small = record {
    mailbox_at =
        λ j lt. load32-store32_apart m (counter l) (mb l j) x (ground arith) ∙ s.mailbox_at j lt;
    stage_at = load32-store32_apart m (counter l) (l.g_stage) x (ground arith) ∙ s.stage_at;
    secret_at = load32-store32_apart m (counter l) (secret l) x (ground arith) ∙ s.secret_at;
    counter_at = load32-store32_self m (counter l) x small;
    key_at = λ j lt. store32_outside m (counter l) (key l + j) x (ground arith) ∙ s.key_at j lt;
    challenge_at = λ j lt.
        store32_outside m (counter l) (l.challenge + j) x (ground arith) ∙ s.challenge_at j lt;
  }

  pub Shows-key :
      (i x : ℕ)
      → i < 16
      → Shows l (update m (key l + i) x) (record v { key_bytes = update v.key_bytes i x })
  Shows-key i x h =
      let off = λ (b : ℕ) (ne : key l + i ≢ b). update_ne m (key l + i) b x ne in
      record {
        mailbox_at = λ j lt.
            load32-cong (update m (key l + i) x) m (mb l j) (λ b lo hi. off b (λ e. ground arith))
            ∙ s.mailbox_at j lt;
        stage_at =
            load32-cong (update m (key l + i) x) m l.g_stage (λ b lo hi. off b (λ e. ground arith))
            ∙ s.stage_at;
        secret_at =
            load32-cong (update m (key l + i) x) m (secret l) (λ b lo hi. off b (λ e. ground arith))
            ∙ s.secret_at;
        counter_at =
            load32-cong (update m (key l + i) x) m (counter l)
              (λ b lo hi. off b (λ e. ground arith))
            ∙ s.counter_at;
        key_at = λ j lt. ground (arith, s.key_at j lt);
        challenge_at = λ j lt. ground (arith, s.challenge_at j lt);
      }

  pub Shows-challenge :
      (i x : ℕ)
      → i < 16
      → Shows l
          (update m (l.challenge + i) x)
          (record v { challenge_bytes = update v.challenge_bytes i x })
  Shows-challenge i x h =
      let off = λ (b : ℕ) (ne : l.challenge + i ≢ b). update_ne m (l.challenge + i) b x ne in
      record {
        mailbox_at = λ j lt.
            load32-cong (update m (l.challenge + i) x) m (mb l j)
              (λ b lo hi. off b (λ e. ground arith))
            ∙ s.mailbox_at j lt;
        stage_at =
            load32-cong (update m (l.challenge + i) x) m l.g_stage
              (λ b lo hi. off b (λ e. ground arith))
            ∙ s.stage_at;
        secret_at =
            load32-cong (update m (l.challenge + i) x) m (secret l)
              (λ b lo hi. off b (λ e. ground arith))
            ∙ s.secret_at;
        counter_at =
            load32-cong (update m (l.challenge + i) x) m (counter l)
              (λ b lo hi. off b (λ e. ground arith))
            ∙ s.counter_at;
        key_at = λ j lt. ground (arith, s.key_at j lt);
        challenge_at = λ j lt. ground (arith, s.challenge_at j lt);
      }
