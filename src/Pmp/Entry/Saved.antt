-- ===== src/Pmp/Entry/Saved.antt =====
-- The frame on the trap stack: what is saved is what is loaded, and nothing else changes.
use rp2350_tz_tee.Prelude.{ℕ, ◌+◌, ◌*◌, ◌^◌, ◌≤◌, ◌<◌, ◌≡◌, ◌⊎◌, inl, arith, refl}
use rp2350_tz_tee.Prelude.Lists.{All}
use rp2350_tz_tee.Hw.Memory.{
  Memory, store32, load32-cong, load32-store32_self, load32-store32_apart,
}
use rp2350_tz_tee.Hw.Array.{store_words_outside, store_words_at}
use rp2350_tz_tee.Pmp.Trap.{Frame}
use rp2350_tz_tee.Pmp.Entry.{frame_words, save_frame, load_frame}

-- The registers hold words of 32 bits.
abbrev pub IsWords : Frame → Type 0
IsWords f = All (λ v. v < 2 ^ 32) (frame_words f)

pub load_frame-save_frame :
    (sp : ℕ) (f : Frame) (m : Memory) → IsWords f → load_frame sp (save_frame sp f m) ≡ f
unfolding load_frame save_frame
load_frame-save_frame sp f m w =
    let word = λ (k : ℕ) (h : k < 16). store_words_at sp 0 (frame_words f) m k w h in
    rw
      (
        word 0 (omega arith),
        word 1 (omega arith),
        word 2 (omega arith),
        word 3 (omega arith),
        word 4 (omega arith),
        word 5 (omega arith),
        word 6 (omega arith),
        word 7 (omega arith),
        word 8 (omega arith),
        word 9 (omega arith),
        word 10 (omega arith),
        word 11 (omega arith),
        word 12 (omega arith),
        word 13 (omega arith),
        word 14 (omega arith),
        word 15 (omega arith),
      )
      refl

pub save_frame_outside :
    (sp : ℕ) (f : Frame) (m : Memory) (b : ℕ) → (b < sp) ⊎ (sp + 64 ≤ b) → save_frame sp f m b ≡ m b
unfolding save_frame
save_frame_outside sp f m b h = store_words_outside sp 0 (frame_words f) m b (ground arith)

-- The frame is made of its 64 bytes.
pub load_frame-cong :
    (sp : ℕ) (m n : Memory)
    → ((b : ℕ) → sp ≤ b → b < sp + 64 → m b ≡ n b)
    → load_frame sp m ≡ load_frame sp n
unfolding load_frame
load_frame-cong sp m n h =
    let word = λ (k : ℕ) (lt : k < 16).
      load32-cong m n (sp + 4 * k) (λ b lo hi. h b (omega arith) (omega arith)) in
    rw
      (
        word 0 (omega arith),
        word 1 (omega arith),
        word 2 (omega arith),
        word 3 (omega arith),
        word 4 (omega arith),
        word 5 (omega arith),
        word 6 (omega arith),
        word 7 (omega arith),
        word 8 (omega arith),
        word 9 (omega arith),
        word 10 (omega arith),
        word 11 (omega arith),
        word 12 (omega arith),
        word 13 (omega arith),
        word 14 (omega arith),
        word 15 (omega arith),
      )
      refl

-- A store through the handler's pointer changes `a0` of the frame.
pub load_frame-store32 :
    (sp v : ℕ) (m : Memory)
    → v < 2 ^ 32
    → load_frame sp (store32 m (sp + 4 * 0) v) ≡ record (load_frame sp m) { a0 = v }
unfolding load_frame
load_frame-store32 sp v m h =
    let over = λ (k : ℕ) (lt : 0 < k).
      load32-store32_apart m (sp + 4 * 0) (sp + 4 * k) v (inl (omega arith)) in
    rw
      (
        load32-store32_self m (sp + 4 * 0) v h,
        over 1 (omega arith),
        over 2 (omega arith),
        over 3 (omega arith),
        over 4 (omega arith),
        over 5 (omega arith),
        over 6 (omega arith),
        over 7 (omega arith),
        over 8 (omega arith),
        over 9 (omega arith),
        over 10 (omega arith),
        over 11 (omega arith),
        over 12 (omega arith),
        over 13 (omega arith),
        over 14 (omega arith),
        over 15 (omega arith),
      )
      refl
