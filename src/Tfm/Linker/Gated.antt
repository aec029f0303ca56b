-- ===== src/Tfm/Linker/Gated.antt =====
-- The parts of the linked Secure image in the memory map of region_defs.h, and which of them the
-- SAU of target_cfg.c opens.
use rp2350_tz_tee.Prelude.{
  ℕ, ◌+◌, ◌-◌, ◌%◌, ◌^◌, ◌≤◌, ◌<◌, ◌≡◌, Bool, true, false, ◌&&◌, leb, if◌then◌else◌, arith, refl,
}
use rp2350_tz_tee.Hw.Sau.{Attribution, callable, secure}
use rp2350_tz_tee.Hw.Align.{align_rules}
use rp2350_tz_tee.Tfm.Build.{Build}
use rp2350_tz_tee.Tfm.Regions.{Regions}
use rp2350_tz_tee.Tfm.Defs.{Switches, Platform, ns_partition_start, ns_partition_size}
use rp2350_tz_tee.Tfm.Defs.Areas.{Area, s_code, s_data, owner}
use rp2350_tz_tee.Tfm.Defs.Areas
use rp2350_tz_tee.Tfm.Defs.Apart.{IsPlatform, regions-IsApart}
use rp2350_tz_tee.Tfm.Defs.Attributed.{IsMapped}
use rp2350_tz_tee.Tfm.Linker.{Alignments, IsAlignments}
use rp2350_tz_tee.Tfm.Linker.Code.{CodeContents, Veneers, place_code}
use rp2350_tz_tee.Tfm.Linker.Link.{Image, Linked, IsLinked, memories}
use rp2350_tz_tee.Tfm.Linker.Areas.{
  Part, vectors, veneers, load_list, psa_code, app_code, tfm_code, unpriv_code, shared_data,
  msp_stack, sp_meta, app_data, psa_data, tfm_data, holds,
}

-- `memory_regions` as the platform fills it, from the symbols of the link and the memory map, with
-- a map in whole blocks and a build that loads the Non-Secure image.
pub record IsFilled (b : Switches) (f : Platform) (y : Linked) (r : Regions) : Type 0 where
  pub loads : b.load_ns_image ≡ true
  pub flash_block : f.xip_base % 32 ≡ 0
  pub sram_block : f.sram4_base % 32 ≡ 0
  pub veneer_from : r.veneer_base ≡ y.code.veneer_base
  pub veneer_to : r.veneer_limit ≡ y.code.veneer_limit - 1
  pub partition_from : r.non_secure_partition_base ≡ ns_partition_start b f
  pub partition_to :
      r.non_secure_partition_limit ≡ ns_partition_start b f + ns_partition_size b f - 1
  pub sram4 : r.sram4_base ≡ f.sram4_base
  pub ppb_start : r.ppb_base % 32 ≡ 0
  pub ppb_after : f.sram4_base + 0x40000 ≤ r.ppb_base
  pub ppb_fits : r.ppb_base < 2 ^ 32

-- The gateway stubs take room.
pub veneers_fill :
    (v : Veneers) (k : Alignments) (c : CodeContents) (origin : ℕ)
    → IsAlignments k
    → 0 < c.stubs
    → (place_code v k c origin).veneer_base < (place_code v k c origin).veneer_limit
unfolding place_code
veneers_fill v k c origin align room = grind (arith, align_rules)

-- The world of a part of the image.
abbrev pub world : Part → Attribution
world veneers = callable
world _ = secure

abbrev pub is_veneers : Part → Bool
is_veneers veneers = true
is_veneers _ = false

-- The area of the memory map that a part lies in.
abbrev pub area : Part → Area
area shared_data = s_data
area msp_stack = s_data
area sp_meta = s_data
area app_data = s_data
area psa_data = s_data
area tfm_data = s_data
area _ = s_code

module _ (b : Switches) (f : Platform) (ok : IsPlatform f) (build : Build) (g : Image) (y : Linked)
    (r : Regions) (at : IsLinked build g (memories b f) y) (fill : IsFilled b f y r)
    (tz : build.use_trustzone ≡ true) where
  pub linked-IsMapped : y.code.veneer_base < y.code.veneer_limit → IsMapped b f r
  linked-IsMapped room = record {
    loads = fill.loads;
    flash_block = fill.flash_block;
    sram_block = fill.sram_block;
    veneer_start = ground arith;
    veneer_end = ground arith;
    veneer_low = ground arith;
    veneer_some = ground arith;
    veneer_high = ground arith;
    partition_from = fill.partition_from;
    partition_to = fill.partition_to;
    sram4 = fill.sram4;
    ppb_start = fill.ppb_start;
    ppb_after = fill.ppb_after;
    ppb_fits = fill.ppb_fits;
  }

  -- A part lies in its area, and only the veneers lie where the SAU opens a gate.
  pub part_in_area :
      (part : Part) (a : ℕ) → holds build y part a ≡ true → Areas.holds b f (area part) a ≡ true
  unfolding holds Areas.holds
  part_in_area vectors a h = ground arith
  part_in_area veneers a h = ground arith
  part_in_area load_list a h = ground arith
  part_in_area psa_code a h = ground arith
  part_in_area app_code a h = ground arith
  part_in_area tfm_code a h = ground arith
  part_in_area unpriv_code a h = ground arith
  part_in_area shared_data a h = ground arith
  part_in_area msp_stack a h = ground arith
  part_in_area sp_meta a h = ground arith
  part_in_area app_data a h = ground arith
  part_in_area psa_data a h = ground arith
  part_in_area tfm_data a h = ground arith

  pub part_gated :
      (part : Part) (a : ℕ)
      → y.code.veneer_base < y.code.veneer_limit
      → holds build y part a ≡ true
      → (leb r.veneer_base a && leb a r.veneer_limit) ≡ is_veneers part
  unfolding holds
  part_gated vectors a room h = ground arith
  part_gated veneers a room h = ground arith
  part_gated load_list a room h = ground arith
  part_gated psa_code a room h = ground arith
  part_gated app_code a room h = ground arith
  part_gated tfm_code a room h = ground arith
  part_gated unpriv_code a room h = ground arith
  part_gated shared_data a room h = ground arith
  part_gated msp_stack a room h = ground arith
  part_gated sp_meta a room h = ground arith
  part_gated app_data a room h = ground arith
  part_gated psa_data a room h = ground arith
  part_gated tfm_data a room h = ground arith

  -- All parts lie below SRAM4.
  pub part_low : (part : Part) (a : ℕ) → holds build y part a ≡ true → a < r.sram4_base
  unfolding Areas.holds
  part_low part a h =
      let apart = regions-IsApart b f ok in
      let inside = part_in_area part a h in
      elim part as (λ (x : Part). Areas.holds b f (area x) a ≡ true → a < r.sram4_base) [
        | vectors ↦ λ i. ground arith
        | veneers ↦ λ i. ground arith
        | load_list ↦ λ i. ground arith
        | psa_code ↦ λ i. ground arith
        | app_code ↦ λ i. ground arith
        | tfm_code ↦ λ i. ground arith
        | unpriv_code ↦ λ i. ground arith
        | shared_data ↦ λ i. ground arith
        | msp_stack ↦ λ i. ground arith
        | sp_meta ↦ λ i. ground arith
        | app_data ↦ λ i. ground arith
        | psa_data ↦ λ i. ground arith
        | tfm_data ↦ λ i. ground arith
      ]
        inside

  pub area_world :
      (part : Part) → (if is_veneers part then callable else owner (area part)) ≡ world part
  area_world vectors = refl
  area_world veneers = refl
  area_world load_list = refl
  area_world psa_code = refl
  area_world app_code = refl
  area_world tfm_code = refl
  area_world unpriv_code = refl
  area_world shared_data = refl
  area_world msp_stack = refl
  area_world sp_meta = refl
  area_world app_data = refl
  area_world psa_data = refl
  area_world tfm_data = refl
