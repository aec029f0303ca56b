-- ===== src/Tfm/LinkerNs.antt =====
-- reference/linker_ns.ld: where the sections of the Non-Secure image lie in the memories of
-- region_defs.h. Where their initial bytes are kept in flash is left out.
pub mod Order
pub mod Open
use rp2350_tz_tee.Prelude.{ℕ, ◌+◌, ◌-◌, Bool, ◌&&◌, leb, if◌then◌else◌, Option, none, some}
use rp2350_tz_tee.Hw.Align.{align_up}
use rp2350_tz_tee.Tfm.Defs.{
  Switches, Platform, ns_code_start, ns_code_size, ns_data_start, ns_data_size, scratch_x_size,
  scratch_y_size, ns_vector_allocated_size, ns_heap_size,
}
use rp2350_tz_tee.Tfm.Linker.{Contents}
use rp2350_tz_tee.Tfm.Linker.Code.{placed}

-- MEMORY, with the two banks of the SDK's address map.
pub record Memories : Type 0 where
  pub flash_origin : ℕ
  pub flash_length : ℕ
  pub ram_origin : ℕ
  pub ram_length : ℕ
  pub scratch_x_base : ℕ
  pub scratch_x_length : ℕ
  pub scratch_y_base : ℕ
  pub scratch_y_length : ℕ

abbrev pub ns_memories : Switches → Platform → (scratch_x_base scratch_y_base : ℕ) → Memories
ns_memories b p x y = record {
  flash_origin = ns_code_start b p;
  flash_length = ns_code_size b p;
  ram_origin = ns_data_start b p;
  ram_length = ns_data_size b p;
  scratch_x_base = x;
  scratch_x_length = scratch_x_size b p;
  scratch_y_base = y;
  scratch_y_length = scratch_y_size b p;
}

-- The sections in the order of the script; of .PICO_RESET the bytes up to the end of the binary
-- information's header as well.
pub record NsContents : Type 0 where
  pub vectors : Contents
  pub core1_entry : Contents
  pub info_header : ℕ
  pub pico_reset : Contents
  pub text : Contents
  pub extab : Contents
  pub exidx : Contents
  pub binary_info : Contents
  pub initialized : Contents
  pub ram_vectors : Contents
  pub bss : Contents
  pub scratch_x : Contents
  pub scratch_y : Contents
  pub stack_one : Contents
  pub stack : Contents

pub record NsMap : Type 0 where
  pub vectors_start : ℕ
  pub core1_start : ℕ
  pub core1_end : ℕ
  pub reset_start : ℕ
  pub reset_end : ℕ
  pub text_end : ℕ
  pub info_start : ℕ
  pub info_end : ℕ
  pub initialized_start : ℕ
  pub initialized_end : ℕ
  pub ram_vectors_end : ℕ
  pub bss_start : ℕ
  pub bss_end : ℕ
  pub heap_base : ℕ
  pub heap_limit : ℕ
  pub scratch_x_end : ℕ
  pub scratch_y_end : ℕ
  pub stack_one_end : ℕ
  pub stack_end : ℕ

unfoldable pub ns_place : NsContents → Memories → NsMap
ns_place c m =
    let vectors_start = align_up m.flash_origin c.vectors.align in
    let core1_start =
      align_up (align_up (vectors_start + ns_vector_allocated_size) 4) c.core1_entry.align in
    let core1_end = core1_start + c.core1_entry.size in
    let reset_start = align_up (align_up core1_end 4) c.pico_reset.align in
    let reset_end = reset_start + c.pico_reset.size in
    let text_end = placed c.text reset_end in
    let info_start = align_up (placed c.exidx (placed c.extab text_end)) 4 in
    let initialized_start = align_up m.ram_origin c.initialized.align in
    let initialized_end = align_up (initialized_start + c.initialized.size) 4 in
    let ram_vectors_end = placed c.ram_vectors (align_up initialized_end 256) in
    let bss_start = align_up (align_up ram_vectors_end c.bss.align) 4 in
    let bss_end = align_up (bss_start + c.bss.size) 4 in
    let heap_base = align_up (align_up bss_end 8) 8 in
    let scratch_x_end = align_up (placed c.scratch_x m.scratch_x_base) 4 in
    let scratch_y_end = align_up (placed c.scratch_y m.scratch_y_base) 4 in
    record {
      vectors_start = vectors_start;
      core1_start = core1_start;
      core1_end = core1_end;
      reset_start = reset_start;
      reset_end = reset_end;
      text_end = text_end;
      info_start = info_start;
      info_end = placed c.binary_info info_start;
      initialized_start = initialized_start;
      initialized_end = initialized_end;
      ram_vectors_end = ram_vectors_end;
      bss_start = bss_start;
      bss_end = bss_end;
      heap_base = heap_base;
      heap_limit = heap_base + ns_heap_size;
      scratch_x_end = scratch_x_end;
      scratch_y_end = scratch_y_end;
      stack_one_end = placed c.stack_one scratch_x_end;
      stack_end = placed c.stack scratch_y_end;
    }

-- `__StackOneTop`, `__StackOneBottom`, `__StackTop` and `__StackBottom`
abbrev pub stack_one_top : Memories → ℕ
stack_one_top m = m.scratch_x_base + m.scratch_x_length

abbrev pub stack_one_bottom : NsContents → Memories → ℕ
stack_one_bottom c m = stack_one_top m - c.stack_one.size

abbrev pub stack_top : Memories → ℕ
stack_top m = m.scratch_y_base + m.scratch_y_length

abbrev pub stack_bottom : NsContents → Memories → ℕ
stack_bottom c m = stack_top m - c.stack.size

-- The sections fit into their memories.
abbrev pub ns_fits : NsContents → Memories → NsMap → Bool
ns_fits c m y =
    leb y.info_end (m.flash_origin + m.flash_length)
    && leb y.heap_limit (m.ram_origin + m.ram_length)
    && leb y.stack_one_end (stack_one_top m)
    && leb y.stack_end (stack_top m)

-- The three assertions: the vectors, the heap, and the binary information.
abbrev pub ns_asserts : NsContents → Memories → NsMap → Bool
ns_asserts c m y =
    leb (y.vectors_start + c.vectors.size) (y.vectors_start + ns_vector_allocated_size)
    && leb y.heap_limit (m.ram_origin + m.ram_length)
    && leb (y.reset_start + c.info_header - y.vectors_start) 1024

unfoldable pub ns_link : NsContents → Memories → Option NsMap
ns_link c m = let y = ns_place c m in if ns_fits c m y && ns_asserts c m y then some y else none
