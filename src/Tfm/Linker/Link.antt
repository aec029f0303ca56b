-- ===== src/Tfm/Linker/Link.antt =====
-- The link of the Secure image against the memory of region_defs.h, and the symbols that
-- tfm_hal_isolation_rp2350.c takes from it.
use rp2350_tz_tee.Prelude.{
  ℕ, ◌+◌, ◌^◌, ◌≤◌, ◌<◌, ◌≡◌, Bool, ◌&&◌, leb, if◌then◌else◌, Option, none, some, if_some, arith,
}
use rp2350_tz_tee.Tfm.Build.{Build}
use rp2350_tz_tee.Tfm.Defs.{
  Switches, Platform, s_code_start, s_code_size, s_data_start, s_data_size,
}
use rp2350_tz_tee.Tfm.Defs.Apart.{IsPlatform, regions-IsApart, area_2, area_scratch}
use rp2350_tz_tee.Tfm.Isolation.{Symbols}
use rp2350_tz_tee.Tfm.Linker.{Alignments, IsAlignments}
use rp2350_tz_tee.Tfm.Linker.Code.{CodeContents, IsCodeContents, CodeMap, Veneers, place_code}
use rp2350_tz_tee.Tfm.Linker.CodeOrder.{IsCodeMap, place_code-IsCodeMap}
use rp2350_tz_tee.Tfm.Linker.Data.{DataContents, IsDataContents, DataMap, DataSwitches, place_data}
use rp2350_tz_tee.Tfm.Linker.DataOrder.{IsDataMap, place_data-IsDataMap}

-- The lines FLASH and RAM of MEMORY.
pub record Memories : Type 0 where
  pub flash_origin : ℕ
  pub flash_length : ℕ
  pub ram_origin : ℕ
  pub ram_length : ℕ

abbrev pub memories : Switches → Platform → Memories
memories b p = record {
  flash_origin = s_code_start b p;
  flash_length = s_code_size b p;
  ram_origin = s_data_start b p;
  ram_length = s_data_size b p;
}

-- Flash below RAM, not at address 0.
pub record IsMemories (m : Memories) : Type 0 where
  pub flash_some : 0 < m.flash_origin
  pub flash_first : m.flash_origin + m.flash_length ≤ m.ram_origin
  pub ram_fits : m.ram_origin + m.ram_length < 2 ^ 32

pub memories-IsMemories :
    (b : Switches) (p : Platform) → IsPlatform p → 0 < p.xip_base → IsMemories (memories b p)
memories-IsMemories b p ok positive =
    let a = regions-IsApart b p ok in
    record {
      flash_some = omega arith;
      flash_first = ground (arith, area_2 b.images, area_scratch b.images);
      ram_fits = omega arith;
    }

-- What is linked: the sections, and the bytes in flash that the sections in RAM start with.
pub record Image : Type 0 where
  pub at_end : Bool  -- TFM_LINKER_VENEERS_LOCATION_END
  pub enable_heap : Bool  -- ENABLE_HEAP
  pub code : CodeContents
  pub ram : DataContents
  pub loads : ℕ

pub record Linked : Type 0 where
  pub code : CodeMap
  pub ram : DataMap

abbrev pub veneers_of : Build → Image → Veneers
veneers_of b g = record { use_trustzone = b.use_trustzone; at_end = g.at_end }

abbrev pub switches_of : Build → Image → DataSwitches
switches_of b g = record { enable_heap = g.enable_heap; partition_meta = b.partition_meta }

unfoldable pub place : Build → Alignments → Image → Memories → Linked
place b k g m = record {
  code = place_code (veneers_of b g) k g.code m.flash_origin;
  ram = place_data (switches_of b g) k g.ram m.ram_origin;
}

-- The sections fit into their memories.
abbrev pub fits : Image → Memories → Linked → Bool
fits g m y =
    leb (y.code.code_end + g.loads) (m.flash_origin + m.flash_length)
    && leb y.ram.bss_end (m.ram_origin + m.ram_length)

unfoldable pub link : Build → Alignments → Image → Memories → Option Linked
link b k g m = let y = place b k g m in if fits g m y then some y else none

-- `Image$$...`
abbrev pub symbols_of : Linked → Symbols
symbols_of y = record {
  er_veneer_base = y.code.veneer_base;
  veneer_align_limit = y.code.veneer_limit;
  unpriv_code_start = y.code.unpriv_start;
  unpriv_code_end = y.code.unpriv_end;
  app_code_start = y.code.app_start;
  app_code_end = y.code.app_end;
  app_rw_stack_start = y.ram.app_start;
  app_rw_stack_end = y.ram.app_end;
  sp_meta_ptr = y.ram.meta_start;
  sp_meta_ptr_end = y.ram.meta_end;
}

pub record IsImage (g : Image) : Type 0 where
  pub code : IsCodeContents g.code
  pub ram : IsDataContents g.ram

-- The maps of a link, within their memories.
pub record IsLinked (b : Build) (g : Image) (m : Memories) (y : Linked) : Type 0 where
  pub code : IsCodeMap (veneers_of b g) m.flash_origin y.code
  pub ram : IsDataMap (switches_of b g) m.ram_origin y.ram
  pub code_fits : y.code.code_end ≤ m.flash_origin + m.flash_length
  pub ram_fits : y.ram.bss_end ≤ m.ram_origin + m.ram_length

pub link-IsLinked :
    (b : Build) (k : Alignments) (g : Image) (m : Memories) (y : Linked)
    → IsAlignments k
    → IsImage g
    → link b k g m ≡ some y
    → IsLinked b g m y
unfolding link place
link-IsLinked b k g m y align ok h =
    let (holds, at) = if_some (fits g m (place b k g m)) (place b k g m) y h in
    rw (← at) (record {
      code = place_code-IsCodeMap (veneers_of b g) k g.code m.flash_origin align ok.code;
      ram = place_data-IsDataMap (switches_of b g) k g.ram m.ram_origin align ok.ram;
      code_fits = ground arith;
      ram_fits = ground arith;
    })
