-- ===== src/Tz/Objects.antt =====
-- The objects of secure/secret.c in Secure RAM. A `World` holds `s_counter` next to the memory of
-- everything else, and `s_key` is never written; here they are put into memory at any places of Secure RAM.
use rp2350_tz_tee.Prelude.{
  ℕ, ◌+◌, ◌-◌, ◌/◌, ◌%◌, ◌^◌, ◌≤◌, ◌<◌, ◌≡◌, ◌⊎◌, ◌&&◌, leb, ltb, if◌then◌else◌, arith,
}
use rp2350_tz_tee.Hw.Memory.{Memory, load32}
use rp2350_tz_tee.Tz.Layout.{s_ram_start, s_ram_limit}
use rp2350_tz_tee.Tz.Secret.{key_byte}
use rp2350_tz_tee.Tz.Client.{World}

-- Where the linker puts them: in Secure RAM, apart.
pub record Objects : Type 0 where
  pub key_at : ℕ
  pub counter_at : ℕ
  pub key_low : s_ram_start ≤ key_at
  pub key_high : key_at + 16 ≤ s_ram_limit + 1
  pub counter_low : s_ram_start ≤ counter_at
  pub counter_high : counter_at + 4 ≤ s_ram_limit + 1
  pub apart : (key_at + 16 ≤ counter_at) ⊎ (counter_at + 4 ≤ key_at)

-- Byte `i` of a word.
abbrev pub word_byte : ℕ → ℕ → ℕ
word_byte v i = v / 256 ^ i % 256

-- All of memory, the two objects included.
unfoldable pub whole : Objects → World → Memory
whole o w a =
    if leb o.counter_at a && ltb a (o.counter_at + 4)
    then word_byte w.s_counter (a - o.counter_at)
    else if leb o.key_at a && ltb a (o.key_at + 16)
    then key_byte (a - o.key_at)
    else w.mem a

pub whole_counter :
    (o : Objects) (w : World) → w.s_counter < 2 ^ 32 → load32 (whole o w) o.counter_at ≡ w.s_counter
unfolding load32 whole
whole_counter o w h =
    let zeroth : o.counter_at - o.counter_at ≡ 0 = omega arith in
    let first : o.counter_at + 1 - o.counter_at ≡ 1 = omega arith in
    let second : o.counter_at + 2 - o.counter_at ≡ 2 = omega arith in
    let third : o.counter_at + 3 - o.counter_at ≡ 3 = omega arith in
    ground (arith, zeroth, first, second, third)

-- Off the counter two worlds differ only where their memories do.
pub whole_same :
    (o : Objects) (w w' : World) (a : ℕ)
    → (a < o.counter_at) ⊎ (o.counter_at + 4 ≤ a)
    → w.mem a ≡ w'.mem a
    → whole o w a ≡ whole o w' a
unfolding whole
whole_same o w w' a out h = ground (arith, out, h)
