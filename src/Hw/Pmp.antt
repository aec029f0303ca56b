-- ===== src/Hw/Pmp.antt =====
-- RISC-V physical memory protection as minimal-pmp uses it: the entries of `pmpcfg0`, with NAPOT
-- address matching, and Hazard3's PMPCFGM0, which subjects M-mode to an entry without locking it.
use rp2350_tz_tee.Prelude.{
  ℕ, zero, suc, ◌+◌, ◌-◌, ◌/◌, ◌%◌, ◌^◌, Bool, true, false, ◌&&◌, ◌||◌, not,
}
use rp2350_tz_tee.Prelude.{◌==◌, if◌then◌else◌}

pub data Mode : Type 0 where
  machine user : Mode

-- The permission that an access needs, by its bit of the configuration byte.
pub data Access : Type 0 where
  read write execute : Access

pub record Pmp : Type 0 where
  pub pmpaddr : ℕ → ℕ
  pub pmpcfg0 : ℕ
  pub pmpcfgm0 : ℕ

-- The ones at the low end of a word, counted up to the fuel.
unfoldable pub trailing_ones : ℕ → ℕ → ℕ
trailing_ones zero x = 0
trailing_ones (suc fuel) x =
    let more = suc (trailing_ones fuel (x / 2)) in if x % 2 == 1 then more else 0

-- The granule of this Hazard3 is 32 bytes: the two low bits of an address word count as ones.
abbrev pub granular : ℕ → ℕ
granular pmpaddr = pmpaddr - pmpaddr % 4 + 3

-- With `t` trailing ones, a word stands for a naturally aligned block of `2 ^ (t + 3)` bytes.
unfoldable pub napot_match : ℕ → ℕ → Bool
napot_match pmpaddr a =
    let w = granular pmpaddr in let t = trailing_ones 32 w in a / 2 ^ (t + 3) == w / 2 ^ (t + 1)

-- The configuration byte of entry `n`, of the four that `pmpcfg0` packs.
abbrev pub cfg_byte : ℕ → ℕ → ℕ
cfg_byte pmpcfg0 n = pmpcfg0 / 256 ^ n % 256

-- The A field: 3 is NAPOT. The program uses no other mode but off.
abbrev pub entry_match : Pmp → ℕ → ℕ → Bool
entry_match p n a = cfg_byte p.pmpcfg0 n / 8 % 4 == 3 && napot_match (p.pmpaddr n) a

abbrev pub permits : ℕ → Access → Bool
permits cfg read = cfg % 2 == 1
permits cfg write = cfg / 2 % 2 == 1
permits cfg execute = cfg / 4 % 2 == 1

-- M-mode is held to an entry that is locked (bit 7) or whose bit of PMPCFGM0 is set.
abbrev pub applies : Pmp → Mode → ℕ → Bool
applies p user n = true
applies p machine n = cfg_byte p.pmpcfg0 n / 128 == 1 || p.pmpcfgm0 / 2 ^ n % 2 == 1

-- The matching entry with the lowest number decides; with none, only M-mode has access.
unfoldable pub entries_allow : Pmp → Mode → Access → ℕ → ℕ → ℕ → Bool
entries_allow p machine k a zero n = true
entries_allow p user k a zero n = false
entries_allow p mode k a (suc left) n =
    if entry_match p n a
    then (not (applies p mode n) || permits (cfg_byte p.pmpcfg0 n) k)
    else entries_allow p mode k a left (n + 1)

unfoldable pub pmp_allows : Pmp → Mode → Access → ℕ → Bool
unfolding entries_allow
pmp_allows p mode k a = entries_allow p mode k a 4 0
