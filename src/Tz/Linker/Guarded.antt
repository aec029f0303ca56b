-- ===== src/Tz/Linker/Guarded.antt =====
-- The parts of the Secure image under the isolation that tz_config.c programs.
use rp2350_tz_tee.Prelude.{ℕ, ◌≡◌, Bool, true, false, ◌&&◌, arith, some, leb, ltb}
use rp2350_tz_tee.Hw.Sau.{Attribution, secure, callable, attribution}
use rp2350_tz_tee.Hw.DmaMpu.{dma_open}
use rp2350_tz_tee.Tz.Config.{Chip, tz_isolation_config}
use rp2350_tz_tee.Tz.Config.Attribution.{
  IsPpbBase, UnusedOff, intended, intended_dma, attribution-tz_isolation_config,
  dma_open-tz_isolation_config,
}
use rp2350_tz_tee.Tz.Linker.Secure.{
  flash, ram, origin, SecureContents, IsSecureContents, SecureMap, end_of, s_link,
  s_link-IsSecureMap,
}

-- Code and constants, gateway stubs, data with the heap, and the stacks of core 1 and of core 0.
pub data SecurePart : Type 0 where
  code stubs ram_data stack_1 stack : SecurePart

abbrev between : (start limit a : ℕ) → Bool
between start limit a = leb start a && ltb a limit

unfoldable pub holds : SecureMap → SecurePart → ℕ → Bool
holds y code a = between (origin flash) (end_of flash) a
holds y stubs a = between y.veneer_base y.veneer_limit a
holds y ram_data a = between (origin ram) y.heap_limit a
holds y stack_1 a = between y.stack_1_bottom y.stack_1_top a
holds y stack a = between y.stack_bottom y.stack_top a

-- What the SAU makes of a part, and whether a Non-Secure DMA channel reaches it.
abbrev pub world : SecurePart → Attribution
world stubs = callable
world _ = secure

abbrev pub reached : SecurePart → Bool
reached code = false
reached ram_data = false
reached _ = true

part_intended :
    (c : SecureContents) (y : SecureMap) (p : ℕ) (k : SecurePart) (a : ℕ)
    → IsPpbBase p
    → IsSecureContents c
    → s_link c ≡ some y
    → holds y k a ≡ true
    → (intended p a ≡ world k) × (intended_dma p a ≡ reached k)
unfolding holds intended intended_dma
part_intended c y p k a ppb ok linked h =
    let at = s_link-IsSecureMap c y ok linked in
    elim k
        as (λ x. holds y x a ≡ true → (intended p a ≡ world x) × (intended_dma p a ≡ reached x)) [
          | code ↦ λ i. ground arith
          | stubs ↦ λ i. ground arith
          | ram_data ↦ λ i. ground arith
          | stack_1 ↦ λ i. ground arith
          | stack ↦ λ i. ground arith
        ]
      h

-- For every Secure image that linker_s.ld of minimal-tz links, its stacks aligned, after
-- `tz_isolation_config` with a 32-byte aligned PPB_BASE and the unprogrammed SAU regions off: the
-- gateway stubs are Non-Secure-Callable, code, data and both stacks are Secure, and a Non-Secure
-- DMA channel reaches the stubs and both stacks but not code and data.
pub secure_parts_guarded :
    (c : SecureContents) (y : SecureMap) (p b : ℕ) (chip : Chip) (k : SecurePart) (a : ℕ)
    → IsPpbBase p
    → UnusedOff chip.sau
    → IsSecureContents c
    → s_link c ≡ some y
    → holds y k a ≡ true
    → (attribution (tz_isolation_config p b chip).sau a ≡ world k)
      × (dma_open (tz_isolation_config p b chip).dma a ≡ reached k)
secure_parts_guarded c y p b chip k a ppb off ok linked h =
    rw
      (
        attribution-tz_isolation_config p b chip a ppb off,
        dma_open-tz_isolation_config p b chip a ppb,
      )
      (part_intended c y p k a ppb ok linked h)
