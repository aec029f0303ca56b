-- ===== src/Tz/Start/Launch.antt =====
-- What the Secure start-up hands over to the Non-Secure world.
use rp2350_tz_tee.Prelude.{
  ℕ, zero, suc, ◌+◌, ◌-◌, ◌*◌, ◌/◌, ◌≤◌, ◌<◌, ◌≡◌, ◌&&◌, leb, ltb, if◌then◌else◌, arith, refl, ap,
}
use rp2350_tz_tee.Hw.Memory.{
  Memory, IsBytes, load32, store32, store32_outside, store32-IsBytes, store32-load32,
}
use rp2350_tz_tee.Tz.Layout.{ns_flash_start, ns_ram_start}
use rp2350_tz_tee.Tz.Start.{ns_image_copy_bytes, copy_words, launch_nonsecure}

-- The word that a round moves.
moved :
    (i : ℕ) (m : Memory) (a : ℕ)
    → IsBytes m
    → ns_ram_start + 4 * i ≤ a
    → a < ns_ram_start + 4 * i + 4
    → store32 m (ns_ram_start + 4 * i) (load32 m (ns_flash_start + 4 * i)) a
      ≡ m (a - ns_ram_start + ns_flash_start)
moved i m a bytes lo hi =
    let b = ns_ram_start + 4 * i in
    let s = ns_flash_start + 4 * i in
    let back : b + (a - b) ≡ a = omega arith in
    let from : s + (a - b) ≡ a - ns_ram_start + ns_flash_start = omega arith in
    rw (back, from) at (store32-load32 m m s b (a - b) bytes (omega arith))

copy_words_at :
    (left i : ℕ) (m : Memory) (a : ℕ)
    → IsBytes m
    → i + left ≤ 0x4000
    → copy_words left i m a ≡ (
        if leb (ns_ram_start + 4 * i) a && ltb a (ns_ram_start + 4 * (i + left))
        then m (a - ns_ram_start + ns_flash_start)
        else m a)
unfolding copy_words
copy_words_at zero i m a bytes h = ground arith
copy_words_at (suc left) i m a bytes h =
    let b = ns_ram_start + 4 * i in
    let w = load32 m (ns_flash_start + 4 * i) in
    let rest =
      copy_words_at left (i + 1) (store32 m b w) a (store32-IsBytes m b w bytes) (omega arith) in
    ground (
      arith,
      rest,
      store32_outside m b a w,
      store32_outside m b (a - ns_ram_start + ns_flash_start) w,
      moved i m a bytes,
    )

-- A word of the copy is the word of the image.
word_copied :
    (m : Memory) (x : ℕ)
    → IsBytes m
    → ns_ram_start ≤ x
    → x < ns_ram_start + 0x8000
    → load32 (copy_words 16384 0 m) x ≡ load32 m (x - ns_ram_start + ns_flash_start)
unfolding load32
word_copied m x bytes lo hi =
    let copied = λ (y : ℕ). copy_words_at 16384 0 m y bytes (omega arith) in
    let to = x - ns_ram_start + ns_flash_start in
    let at_1 : x + 1 - ns_ram_start + ns_flash_start ≡ to + 1 = omega arith in
    let at_2 : x + 2 - ns_ram_start + ns_flash_start ≡ to + 2 = omega arith in
    let at_3 : x + 3 - ns_ram_start + ns_flash_start ≡ to + 3 = omega arith in
    ground (
      arith,
      copied x,
      copied (x + 1),
      copied (x + 2),
      copied (x + 3),
      ap m at_1,
      ap m at_2,
      ap m at_3,
    )

-- On a memory of bytes, `launch_nonsecure` copies the 64 KB image from Non-Secure flash to Non-
-- Secure RAM and changes no other byte; VTOR is the start of Non-Secure RAM, MSP is the first word
-- of the image, and the address called is its second word with bit 0 clear.
pub launch_nonsecure_at :
    (m : Memory) (a : ℕ)
    → IsBytes m
    → let h = launch_nonsecure m in
      (h.mem a ≡ (
        if leb ns_ram_start a && ltb a (ns_ram_start + ns_image_copy_bytes)
        then m (a - ns_ram_start + ns_flash_start)
        else m a))
      × (h.vtor ≡ ns_ram_start)
      × (h.msp ≡ load32 m ns_flash_start)
      × (h.entry ≡ load32 m (ns_flash_start + 4) / 2 * 2)
unfolding launch_nonsecure
launch_nonsecure_at m a bytes =
    let copied = λ (x : ℕ). copy_words_at 16384 0 m x bytes (omega arith) in
    (
      ground (arith, copied a),
      refl,
      word_copied m ns_ram_start bytes (omega arith) (omega arith),
      omega (arith, word_copied m (ns_ram_start + 4) bytes (omega arith) (omega arith)),
    )
