-- ===== src/Pmp/Isolate.antt =====
-- `pmp_napot` and `pmp_isolate_secret` of examples/minimal-pmp/main.c.
pub mod Napot
use rp2350_tz_tee.Prelude.{ℕ, zero, suc, ◌+◌, ◌-◌, ◌*◌, ◌/◌, ◌^◌, bit_or}
use rp2350_tz_tee.Prelude.Maps.{update}
use rp2350_tz_tee.Prelude.Words.{u32}
use rp2350_tz_tee.Hw.Pmp.{Pmp}
use rp2350_tz_tee.Pmp.Link.{prot_size}

abbrev pub pmp_r : ℕ
pmp_r = 1

abbrev pub pmp_w : ℕ
pmp_w = 2

abbrev pub pmp_x : ℕ
pmp_x = 4

abbrev pub pmp_a_napot : ℕ
pmp_a_napot = 3 * 2 ^ 3

-- `(size >> 3) - 1u` wraps at 2 ^ 32.
unfoldable pub pmp_napot : ℕ → ℕ → ℕ
pmp_napot base size = u32 (bit_or (base / 2 ^ 2) (u32 (size / 2 ^ 3 + 2 ^ 32 - 1)))

-- The value written to `pmpcfg0`.
abbrev pub cfg : ℕ
cfg = bit_or (bit_or (bit_or (bit_or pmp_a_napot pmp_r) pmp_w) pmp_x * 2 ^ 8) pmp_a_napot

-- `g_prot` is the address of the protected region.
unfoldable pub pmp_isolate_secret : ℕ → Pmp → Pmp
pmp_isolate_secret g_prot p = record p {
  pmpaddr = update (update p.pmpaddr 0 (pmp_napot g_prot prot_size)) 1 0xFFFF_FFFF;
  pmpcfg0 = cfg;
  pmpcfgm0 = 0;
}
