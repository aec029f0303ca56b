-- ===== src/Tz/Config/Attribution.antt =====
-- What tz_config.c makes of every address: for the core by the SAU, for the DMA by its MPU.
use rp2350_tz_tee.Prelude.{ℕ, ◌+◌, ◌-◌, ◌%◌, ◌^◌, ◌<◌, ◌≤◌, bit_and, bit_or, ◌≡◌, ◌≢◌, ◌↔◌, ◌⊎◌}
use rp2350_tz_tee.Prelude.{Bool, true, ◌&&◌, ◌||◌, arith, leb, if◌then◌else◌}
use rp2350_tz_tee.Prelude.Words.{align_down, or_low}
use rp2350_tz_tee.Hw.Sau.{Sau, Attribution, secure, nonsecure, callable, region_hit, attribution}
use rp2350_tz_tee.Hw.DmaMpu.{dma_open, in_region}
use rp2350_tz_tee.Tz.Layout.{
  veneer_start, veneer_limit, ns_flash_start, ns_flash_limit, ns_ram_start, ns_ram_limit,
}
use rp2350_tz_tee.Tz.Config.{
  Chip, addr_msk, rlar_enable, lar_p, lar_en, below_ppb, tz_isolation_config,
}

-- What the code relies on in the SDK's `PPB_BASE`: a 32-byte boundary above the peripherals.
pub record IsPpbBase (ppb_base : ℕ) : Type 0 where
  pub aligned : ppb_base % 32 ≡ 0
  pub above : 0x4000_0000 < ppb_base
  pub fits : ppb_base < 2 ^ 32

-- The SAU regions that tz_config.c does not program are off, as after a reset.
abbrev pub UnusedOff : Sau → Type 0
UnusedOff s = (s.rlar 4 % 2 ≡ 0) × (s.rlar 5 % 2 ≡ 0) × (s.rlar 6 % 2 ≡ 0) × (s.rlar 7 % 2 ≡ 0)

-- The intended map.
unfoldable pub intended : ℕ → ℕ → Attribution
intended ppb_base a =
    if leb veneer_start a && leb a veneer_limit
    then callable
    else if (leb ns_flash_start a && leb a ns_flash_limit)
        || (leb ns_ram_start a && leb a ns_ram_limit)
        || (leb 0x4000_0000 a && leb a (ppb_base - 1))
    then nonsecure
    else secure

-- What a Non-Secure DMA channel is meant to reach.
unfoldable pub intended_dma : ℕ → ℕ → Bool
intended_dma ppb_base a =
    (leb veneer_start a && leb a veneer_limit)
    || (leb ns_flash_start a && leb a ns_flash_limit)
    || (leb ns_ram_start a && leb a (ppb_base - 1))

ppb_limit : (p : ℕ) → IsPpbBase p → bit_and (below_ppb p) addr_msk ≡ p - 32
ppb_limit p h = omega (arith, align_down (below_ppb p) (omega arith))

sau_limit : (p : ℕ) → IsPpbBase p → bit_or (bit_and (below_ppb p) addr_msk) rlar_enable ≡ p - 31
sau_limit p h = rw (ppb_limit p h) (omega (arith, or_low 5 (p - 32) 1 (omega arith) (omega arith)))

dma_limit :
    (p : ℕ) → IsPpbBase p → bit_or (bit_or (bit_and (below_ppb p) addr_msk) lar_p) lar_en ≡ p - 29
dma_limit p h =
    rw
      (
        ppb_limit p h,
        or_low 5 (p - 32) 2 (omega arith) (omega arith),
        or_low 1 (p - 32 + 2) 1 (omega arith) (omega arith),
      )
      (omega arith)

-- After `tz_isolation_config`, with a 32-byte aligned PPB_BASE and the unprogrammed SAU regions
-- off, every address has the intended attribution: the veneers are Non-Secure-Callable, Non-Secure
-- flash and RAM and the peripherals up to the PPB are Non-Secure, and all else is Secure.
pub attribution-tz_isolation_config :
    (p b : ℕ) (c : Chip) (a : ℕ)
    → IsPpbBase p
    → UnusedOff c.sau
    → attribution (tz_isolation_config p b c).sau a ≡ intended p a
unfolding tz_isolation_config attribution region_hit intended
attribution-tz_isolation_config p b c a h off = rw (sau_limit p h) (ground arith)

-- After `tz_isolation_config`, with a 32-byte aligned PPB_BASE, a Non-Secure DMA channel reaches
-- exactly the veneers, Non-Secure flash, and all from Non-Secure RAM to the PPB.
pub dma_open-tz_isolation_config :
    (p b : ℕ) (c : Chip) (a : ℕ)
    → IsPpbBase p
    → dma_open (tz_isolation_config p b c).dma a ≡ intended_dma p a
unfolding tz_isolation_config dma_open in_region intended_dma
dma_open-tz_isolation_config p b c a h = rw (dma_limit p h) (ground arith)

-- After `tz_isolation_config`, with a 32-byte aligned PPB_BASE and the unprogrammed SAU regions
-- off, a Non-Secure DMA channel reaches an address up to the end of Non-Secure RAM, or from
-- 0x40000000 on, exactly if the SAU does not keep it Secure.
pub tz_isolation_config_mirrors :
    (p b : ℕ) (c : Chip) (a : ℕ)
    → IsPpbBase p
    → UnusedOff c.sau
    → (a ≤ ns_ram_limit) ⊎ (0x4000_0000 ≤ a)
    → (dma_open (tz_isolation_config p b c).dma a ≡ true)
      ↔ (attribution (tz_isolation_config p b c).sau a ≢ secure)
unfolding intended intended_dma
tz_isolation_config_mirrors p b c a h off outside =
    ground
      (arith, attribution-tz_isolation_config p b c a h off, dma_open-tz_isolation_config p b c a h)

-- After `tz_isolation_config`, with a 32-byte aligned PPB_BASE and the unprogrammed SAU regions
-- off, every address above Non-Secure RAM and below 0x40000000 is open to Non-Secure DMA channels
-- although the SAU keeps it Secure.
pub tz_isolation_config_gap :
    (p b : ℕ) (c : Chip) (a : ℕ)
    → IsPpbBase p
    → UnusedOff c.sau
    → ns_ram_limit < a
    → a < 0x4000_0000
    → (dma_open (tz_isolation_config p b c).dma a ≡ true)
      × (attribution (tz_isolation_config p b c).sau a ≡ secure)
unfolding intended intended_dma
tz_isolation_config_gap p b c a h off lo hi =
    ground
      (arith, attribution-tz_isolation_config p b c a h off, dma_open-tz_isolation_config p b c a h)
