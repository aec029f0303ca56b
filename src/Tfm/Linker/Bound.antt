-- ===== src/Tfm/Linker/Bound.antt =====
-- The rights of the Secure image after partitions are bound, one call after the other.
use rp2350_tz_tee.Prelude.{
  ◌≢◌, ℕ, ◌^◌, ◌/◌, ◌<◌, ◌≡◌, true, bit_and, List, [], ◌∷◌, Option, some, arith, refl, ap, ◌∙◌,
  zero, suc, ◌+◌,
}
use rp2350_tz_tee.Hw.Pmp.{Access}
use rp2350_tz_tee.Tfm.Mpu.{Mpu, MpuApi, IsMpuApi, region_num, enable_bit}
use rp2350_tz_tee.Tfm.Isolation.{
  hal_success, Spe, Platform, Region, clear_from, set_from, set_attributes, disable_if_on,
  configure_mpu, mpu_region_attributes, tfm_hal_set_up_static_boundaries, set_up_mpu, check_dma,
  check_filter,
}
use rp2350_tz_tee.Tfm.Isolation.Static.{static_boundaries_configure}
use rp2350_tz_tee.Tfm.Isolation.Access.{IsMpuMacros, unprivileged_allows}
use rp2350_tz_tee.Tfm.Isolation.Bind.{Mmio, LoadInfo, contains, tfm_hal_bind_boundary}
use rp2350_tz_tee.Tfm.Isolation.Bind.Regions.{tfm_hal_bind_boundary-Extends, region_num-Extends}
use rp2350_tz_tee.Tfm.Isolation.Bind.Elsewhere.{IsOutside, IsSpare, bind_boundary_elsewhere}
use rp2350_tz_tee.Tfm.Isolation.Bind.Units.{SameUnits, tfm_hal_bind_boundary-SameUnits}
use rp2350_tz_tee.Tfm.Linker.{Alignments, IsAlignments}
use rp2350_tz_tee.Tfm.Linker.Link.{Image, IsImage, Memories, IsMemories, Linked, link, symbols_of}
use rp2350_tz_tee.Tfm.Linker.Areas.{Part, holds, rights}
use rp2350_tz_tee.Tfm.Linker.Guarded.{linked_boundaries_allow}

module _ (c : MpuApi) (laws : IsMpuApi c) where
  type-clear_from : (left i : ℕ) (m : Mpu) → (clear_from c left i m).type ≡ m.type
  unfolding clear_from
  type-clear_from zero i m = refl
  type-clear_from (suc left) i m =
      type-clear_from left (i + 1) (c.clr_region i m) ∙ laws.type_clr i m

  type-set_from : (rs : List Region) (i : ℕ) (m : Mpu) → (set_from c rs i m).type ≡ m.type
  unfolding set_from
  type-set_from [] i m = refl
  type-set_from (r ∷ rs) i m =
      type-set_from rs (i + 1) (c.set_region i r.rbar r.rlar m) ∙ laws.type_set i r.rbar r.rlar m

  type-configure_mpu : (rs : List Region) (m : Mpu) → (configure_mpu c rs m).type ≡ m.type
  unfolding configure_mpu
  type-configure_mpu rs m =
      let off : (disable_if_on c m).type ≡ m.type = ground (arith, laws.type_disable m) in
      let cleared = clear_from c (region_num c m) 0 (disable_if_on c m) in
      let named : (set_attributes c cleared).type ≡ cleared.type = simp laws.type_attr in
      laws.type_enable c.ctrl_flags _
      ∙ type-set_from rs 0 _
      ∙ named
      ∙ type-clear_from (region_num c m) 0 _
      ∙ off

set_up_type :
    (p : Platform) (boundary : ℕ) (s : Spe p.bus)
    → IsMpuApi p.api
    → (tfm_hal_set_up_static_boundaries p boundary s).2.mpu.type ≡ s.mpu.type
unfolding tfm_hal_set_up_static_boundaries check_filter check_dma set_up_mpu
set_up_type p boundary s laws =
    ground
      (arith, type-configure_mpu p.api laws (mpu_region_attributes p.api p.build p.symbols) s.mpu)

-- Set-up counts the regions it fills and turns off the rest.
static_boundaries-IsSpare :
    (p : Platform) (boundary : ℕ) (s : Spe p.bus)
    → IsMpuApi p.api
    → p.build.memory_protect ≡ true
    → (tfm_hal_set_up_static_boundaries p boundary s).0 ≡ hal_success
    → IsSpare p (region_num p.api s.mpu) (tfm_hal_set_up_static_boundaries p boundary s).2
static_boundaries-IsSpare p boundary s laws on done =
    let off_region : Region = record { rbar = 0; rlar = 0 } in
    record {
      off = λ j lo hi.
          let (v, count, enabled, row, off) =
            static_boundaries_configure p boundary s j off_region laws on done in
          off (rw count at lo) hi;
    }

-- A call of `tfm_hal_bind_boundary`: the partition and the place for its handle, each may be null.
pub record Call : Type 0 where
  pub load_info : Option LoadInfo
  pub boundary : Option ℕ

-- The calls one after the other, whatever each returns.
unfoldable pub bind_all : (p : Platform) → Mmio → List Call → Spe p.bus → Spe p.bus
bind_all p mmio [] s = s
bind_all p mmio (c ∷ cs) s =
    bind_all p mmio cs (tfm_hal_bind_boundary p mmio c.load_info c.boundary s).2

pub bind_all-SameUnits :
    (p : Platform) (mmio : Mmio) (cs : List Call) (s : Spe p.bus)
    → SameUnits p mmio s (bind_all p mmio cs s)
unfolding bind_all
bind_all-SameUnits p mmio [] s = record { same_sau = refl; same_dma = refl }
bind_all-SameUnits p mmio (c ∷ cs) s =
    let s' = (tfm_hal_bind_boundary p mmio c.load_info c.boundary s).2 in
    ground (
      arith,
      tfm_hal_bind_boundary-SameUnits p mmio c.load_info c.boundary s,
      bind_all-SameUnits p mmio cs s',
    )

bind_all_elsewhere :
    (p : Platform) (mmio : Mmio) (cs : List Call) (s : Spe p.bus) (n a : ℕ) (k : Access)
    → IsMpuApi p.api
    → IsMpuMacros p.api
    → region_num p.api s.mpu ≡ n
    → n < 2 ^ 32
    → enable_bit p.api s.mpu ≢ 0
    → IsSpare p n s
    → ((x : ℕ) → contains mmio.list x ≡ true → IsOutside (mmio.deref x) a)
    → unprivileged_allows (bind_all p mmio cs s).mpu n k a ≡ unprivileged_allows s.mpu n k a
unfolding bind_all
bind_all_elsewhere p mmio [] s n a k laws macros count small on spare away = refl
bind_all_elsewhere p mmio (c ∷ cs) s n a k laws macros count small on spare away =
    let s' = (tfm_hal_bind_boundary p mmio c.load_info c.boundary s).2 in
    let fits : region_num p.api s.mpu < 2 ^ 32 = rw count small in
    let grown = tfm_hal_bind_boundary-Extends p laws mmio c.load_info c.boundary s fits in
    let (left, same) =
      bind_boundary_elsewhere p mmio laws macros c.load_info c.boundary s a k fits on
        (rw count spare) away in
    bind_all_elsewhere p mmio cs s' n a k laws macros (region_num-Extends p laws grown ∙ count)
      small (grown.on on) (rw count at left) away
    ∙ rw count at same

-- Let reference/linker_s.ld link the Secure image into its memories, with flash below RAM and the
-- alignments of TF-M's header in blocks of 32 bytes, let `tfm_hal_set_up_static_boundaries`
-- succeed on the symbols of that link with memory protection built in and fewer than 2^32 regions,
-- and let no listed device have a block of 32 bytes that holds the address. Then after any calls
-- of `tfm_hal_bind_boundary`, with any arguments and results, unprivileged code still has the
-- rights of the part of the image the address is in, and no others: it reads and executes the
-- veneers, the application partitions' code and the unprivileged code, reads and writes the
-- application partitions' data and the pointer to the metadata, and does nothing with the rest.
pub bound_boundaries_allow :
    (p : Platform) (mmio : Mmio) (calls : List Call) (boundary : ℕ) (s : Spe p.bus)
    (align : Alignments) (g : Image) (m : Memories) (y : Linked) (part : Part) (k : Access) (a : ℕ)
    → IsMpuApi p.api
    → IsMpuMacros p.api
    → IsMemories m
    → IsAlignments align
    → IsImage g
    → link p.build align g m ≡ some y
    → p.symbols ≡ symbols_of y
    → p.build.memory_protect ≡ true
    → (tfm_hal_set_up_static_boundaries p boundary s).0 ≡ hal_success
    → region_num p.api s.mpu < 2 ^ 32
    → ((x : ℕ) → contains mmio.list x ≡ true → IsOutside (mmio.deref x) a)
    → holds p.build y part a ≡ true
    → unprivileged_allows
        (bind_all p mmio calls (tfm_hal_set_up_static_boundaries p boundary s).2).mpu
        (region_num p.api s.mpu)
        k
        a
      ≡ rights part k
bound_boundaries_allow p mmio calls boundary s align g m y part k a laws macros mem ok image linked
      from on done small away h =
    let after = (tfm_hal_set_up_static_boundaries p boundary s).2 in
    let count : region_num p.api after.mpu ≡ region_num p.api s.mpu =
      ap (λ (t : ℕ). bit_and t p.api.dregion_msk / 2 ^ p.api.dregion_pos)
        (set_up_type p boundary s laws) in
    let (v, rows, running, row, off) =
      static_boundaries_configure p boundary s 0 (record { rbar = 0; rlar = 0 }) laws on done in
    bind_all_elsewhere p mmio calls after (region_num p.api s.mpu) a k laws macros count small
      running (static_boundaries-IsSpare p boundary s laws on done) away
    ∙ linked_boundaries_allow p boundary s align g m y part k a laws macros mem ok image linked from
        on done h
