-- ===== src/Tz/Client/Run.antt =====
-- How the client ends under the SAU that tz_config.c programs.
use rp2350_tz_tee.Prelude.{
  ℕ, zero, suc, ◌+◌, ◌-◌, ◌*◌, ◌^◌, ◌≤◌, ◌<◌, ◌≡◌, ◌⊎◌, ◌&&◌, Bool, true, false, arith, refl, ◌∙◌,
  ◌==◌, leb, ltb, if◌then◌else◌, bit_or,
}
use rp2350_tz_tee.Prelude.Maps.{update}
use rp2350_tz_tee.Prelude.Words.{u8, u32}
use rp2350_tz_tee.Hw.Memory.{Memory, load32, store32, load32-store32_apart, load32-store32_self}
use rp2350_tz_tee.Hw.Sau.{Attribution, nonsecure, attribution}
use rp2350_tz_tee.Tz.Config.{Chip, tz_isolation_config}
use rp2350_tz_tee.Tz.Config.Attribution.{
  IsPpbBase, UnusedOff, intended, attribution-tz_isolation_config,
}
use rp2350_tz_tee.Tz.Layout.{ns_mailbox_addr, s_ram_start}
use rp2350_tz_tee.Tz.Secret.{keyed, key_byte, secret_next_counter}
use rp2350_tz_tee.Tz.Service.{Cmse, secure_get_counter, secure_sign}
use rp2350_tz_tee.Tz.Service.Copy.{offset}
use rp2350_tz_tee.Tz.Service.Sign.{IsAccepted, secure_sign_at, secure_sign_guarded}
use rp2350_tz_tee.Tz.Client.{
  World, ns_mb, mb_magic, mb_cnt1, mb_cnt2, mb_sign_rc, mb_sign_r0, mb_leaked, mb_stage, mb_n, put,
  clear_mailbox, put_counter, fill_from, sign, faulted, ns_main,
}

-- A word of the mailbox after a store to another word of it, and to itself.
over :
    (m : Memory) (v : ℕ) (i j : ℕ)
    → (i == j) ≡ false
    → load32 (store32 m (ns_mb i) v) (ns_mb j) ≡ load32 m (ns_mb j)
over m v i j h = load32-store32_apart m (ns_mb i) (ns_mb j) v (ground arith)

same : (m : Memory) (v : ℕ) (i : ℕ) → v < 2 ^ 32 → load32 (store32 m (ns_mb i) v) (ns_mb i) ≡ v
same m v i h = load32-store32_self m (ns_mb i) v h

-- The stack arrays of the client: apart from each other and from the mailbox, in the address space.
pub record IsStack (challenge result : ℕ) : Type 0 where
  pub apart : (challenge + 16 ≤ result) ⊎ (result + 16 ≤ challenge)
  pub challenge_mb : (challenge + 16 ≤ ns_mailbox_addr) ⊎ (ns_mailbox_addr + 28 ≤ challenge)
  pub result_mb : (result + 16 ≤ ns_mailbox_addr) ⊎ (ns_mailbox_addr + 28 ≤ result)
  pub challenge_fits : challenge + 16 ≤ 2 ^ 32
  pub result_fits : result + 16 ≤ 2 ^ 32

pub fill_from_at :
    (left i challenge result : ℕ) (m : Memory) (a : ℕ)
    → IsStack challenge result
    → i + left ≤ 16
    → fill_from left i challenge result m a ≡ (
        if leb (challenge + i) a && ltb a (challenge + i + left)
        then a - challenge + 1
        else if leb (result + i) a && ltb a (result + i + left)
        then 0
        else m a)
unfolding fill_from
fill_from_at zero i challenge result m a s h = ground arith
fill_from_at (suc left) i challenge result m a s h = ground (
  arith,
  fill_from_at left (i + 1) challenge result
      (update (update m (challenge + i) (u8 (i + 1))) (result + i) 0) a,
)

-- The mailbox before the services are asked to sign.
start_word :
    (w : World)
    → let w1 = put mb_stage 1 (put mb_magic 0x4E53_0001 (clear_mailbox mb_n 0 w)) in
      let w2 = put mb_stage 2 (put_counter mb_cnt2 (put_counter mb_cnt1 w1)) in
      (load32 w2.mem (ns_mb 0) ≡ 0x4E53_0001)
      × (load32 w2.mem (ns_mb 1) ≡ u32 (w.s_counter + 1))
      × (load32 w2.mem (ns_mb 2) ≡ u32 (w.s_counter + 2))
      × (load32 w2.mem (ns_mb 5) ≡ 0)
unfolding clear_mailbox secure_get_counter secret_next_counter
start_word w = (
  over _ _ 6 0 refl
      ∙ over _ _ 2 0 refl
      ∙ over _ _ 1 0 refl
      ∙ over _ _ 6 0 refl
      ∙ same _ _ 0 (omega arith),
  over _ _ 6 1 refl ∙ over _ _ 2 1 refl ∙ same _ _ 1 (omega arith),
  over _ _ 6 2 refl ∙ same _ _ 2 (omega arith) ∙ omega arith,
  over _ _ 6 5 refl
      ∙ over _ _ 2 5 refl
      ∙ over _ _ 1 5 refl
      ∙ over _ _ 6 5 refl
      ∙ over _ _ 0 5 refl
      ∙ over _ _ 6 5 refl
      ∙ same _ _ 5 (omega arith),
)

packed :
    bit_or
      (bit_or (bit_or (keyed 1 0) (keyed 2 1 * 2 ^ 8)) (keyed 3 2 * 2 ^ 16))
      (keyed 4 3 * 2 ^ 24)
    ≡ 0xA9DD_58A4
unfolding key_byte
packed = refl

module _ (c : Cmse) (tmp_in tmp_out : ℕ → ℕ) (challenge result : ℕ) (w : World)
    (s : IsStack challenge result) (ok : IsAccepted c challenge result 16) where
  abbrev filled : Memory
  filled = fill_from 16 0 challenge result w.mem

  abbrev signed : ℕ × Memory
  signed = secure_sign c tmp_in tmp_out filled challenge result 16

  mailbox_byte : (a : ℕ) → ns_mailbox_addr ≤ a → a < ns_mailbox_addr + 28 → signed.1 a ≡ w.mem a
  mailbox_byte a lo hi = ground (
    arith,
    secure_sign_at c tmp_in tmp_out filled challenge result 16 a ok (omega arith) (omega arith),
    fill_from_at 16 0 challenge result w.mem a s,
    s,
  )

  result_byte : (j : ℕ) → j < 16 → signed.1 (result + j) ≡ keyed (j + 1) j
  result_byte j h =
      let at : offset result (result + j) ≡ j = omega arith in
      let from : u32 (challenge + j) ≡ challenge + j = omega arith in
      let byte : filled (challenge + j) ≡ j + 1 =
        ground (arith, fill_from_at 16 0 challenge result w.mem (challenge + j) s) in
      let all =
        secure_sign_at c tmp_in tmp_out filled challenge result 16 (result + j) ok (omega arith)
          (omega arith) in
      (rw (at, from, byte) at all) ∙ ground arith

  mailbox_word : (j : ℕ) → j < 7 → load32 signed.1 (ns_mb j) ≡ load32 w.mem (ns_mb j)
  unfolding load32
  mailbox_word j h =
      let a = ns_mb j in
      ground (
        arith,
        mailbox_byte a (omega arith) (omega arith),
        mailbox_byte (a + 1) (omega arith) (omega arith),
        mailbox_byte (a + 2) (omega arith) (omega arith),
        mailbox_byte (a + 3) (omega arith) (omega arith),
      )

  sign_word :
      (j : ℕ)
      → (3 == j) ≡ false
      → (4 == j) ≡ false
      → j < 7
      → load32 (sign c tmp_in tmp_out challenge result w).mem (ns_mb j) ≡ load32 w.mem (ns_mb j)
  unfolding sign
  sign_word j three four h = over _ _ 4 j four ∙ over _ _ 3 j three ∙ mailbox_word j h

  sign_results :
      let n = (sign c tmp_in tmp_out challenge result w).mem in
      (load32 n (ns_mb mb_sign_rc) ≡ 0) × (load32 n (ns_mb mb_sign_r0) ≡ 0xA9DD_58A4)
  unfolding sign
  sign_results =
      let rc : signed.0 ≡ 0 =
        (secure_sign_guarded c tmp_in tmp_out filled challenge result 16).0.1 ok in
      let first : signed.1 result ≡ keyed 1 0 =
        (let r : result + 0 ≡ result = omega arith in rw r at (result_byte 0 (omega arith))) in
      (
        over _ _ 4 3 refl ∙ (rw rc (same _ _ 3 (omega arith))),
        rw
            (
              first,
              result_byte 1 (omega arith),
              result_byte 2 (omega arith),
              result_byte 3 (omega arith),
            )
            (rw packed (same _ _ 4 (omega arith))),
      )

-- A Non-Secure load may read Non-Secure addresses.
abbrev pub is_nonsecure : Attribution → Bool
is_nonsecure nonsecure = true
is_nonsecure _ = false

-- Under the SAU of `tz_isolation_config` (32-byte aligned PPB_BASE, the other regions off), with
-- its stack arrays apart and accepted by the range checks, the Non-Secure client always reaches
-- its read of Secure RAM and faults there, from any memory and counter: then the mailbox holds the
-- magic word, the next two values of the counter, result 0, the first four signed bytes
-- 0xA9DD58A4, no leaked word, and the stage 0xBAD0.
pub ns_main_faults :
    (p b : ℕ) (chip : Chip) (c : Cmse) (tmp_in tmp_out : ℕ → ℕ) (challenge result : ℕ) (w : World)
    → IsPpbBase p
    → UnusedOff chip.sau
    → IsStack challenge result
    → IsAccepted c challenge result 16
    → let readable = λ (a : ℕ). is_nonsecure (attribution (tz_isolation_config p b chip).sau a) in
      (w' : World) × (ns_main c tmp_in tmp_out readable challenge result w ≡ faulted w')
      × (load32 w'.mem (ns_mb mb_magic) ≡ 0x4E53_0001)
      × (load32 w'.mem (ns_mb mb_cnt1) ≡ u32 (w.s_counter + 1))
      × (load32 w'.mem (ns_mb mb_cnt2) ≡ u32 (w.s_counter + 2))
      × (load32 w'.mem (ns_mb mb_sign_rc) ≡ 0)
      × (load32 w'.mem (ns_mb mb_sign_r0) ≡ 0xA9DD_58A4)
      × (load32 w'.mem (ns_mb mb_leaked) ≡ 0)
      × (load32 w'.mem (ns_mb mb_stage) ≡ 0xBAD0)
unfolding ns_main
ns_main_faults p b chip c tmp_in tmp_out challenge result w h off s ok =
    let w1 = put mb_stage 1 (put mb_magic 0x4E53_0001 (clear_mailbox mb_n 0 w)) in
    let w2 = put mb_stage 2 (put_counter mb_cnt2 (put_counter mb_cnt1 w1)) in
    let w4 = put mb_stage 0xBAD0 (put mb_stage 3 (sign c tmp_in tmp_out challenge result w2)) in
    let begun = start_word w in
    let results = sign_results c tmp_in tmp_out challenge result w2 s ok in
    let kept = sign_word c tmp_in tmp_out challenge result w2 s ok in
    let secure : attribution (tz_isolation_config p b chip).sau s_ram_start
        ≡ intended p s_ram_start =
      attribution-tz_isolation_config p b chip s_ram_start h off in
    let blocked : is_nonsecure (attribution (tz_isolation_config p b chip).sau s_ram_start)
        ≡ false =
      rw secure (unfold intended in ground arith) in
    (
      w4,
      rw blocked refl,
      over _ _ 6 0 refl ∙ over _ _ 6 0 refl ∙ kept 0 refl refl (omega arith) ∙ begun.0,
      over _ _ 6 1 refl ∙ over _ _ 6 1 refl ∙ kept 1 refl refl (omega arith) ∙ begun.1,
      over _ _ 6 2 refl ∙ over _ _ 6 2 refl ∙ kept 2 refl refl (omega arith) ∙ begun.2,
      over _ _ 6 3 refl ∙ over _ _ 6 3 refl ∙ results.0,
      over _ _ 6 4 refl ∙ over _ _ 6 4 refl ∙ results.1,
      over _ _ 6 5 refl ∙ over _ _ 6 5 refl ∙ kept 5 refl refl (omega arith) ∙ begun.3,
      same _ _ 6 (omega arith),
    )
