-- ===== src/Tfm/Linker/Data.antt =====
-- The sections of reference/linker_s.ld in RAM.
use rp2350_tz_tee.Prelude.{ℕ, ◌+◌, ◌-◌, ◌<◌, Bool, if◌then◌else◌, ◌==◌}
use rp2350_tz_tee.Hw.Align.{align_up}
use rp2350_tz_tee.Tfm.Defs.{s_heap_size, s_msp_stack_size, boot_tfm_shared_data_size}
use rp2350_tz_tee.Tfm.Linker.{Alignments, Contents}

-- The bytes of the sections, in the order of the script.
pub record DataContents : Type 0 where
  pub ram_vectors : Contents
  pub heap : ℕ
  pub sp_meta : ℕ
  pub app_data : ℕ
  pub app_bss : ℕ
  pub psa_data : ℕ
  pub psa_bss : ℕ
  pub tfm_data : ℕ
  pub uninitialized : Contents
  pub tfm_bss : ℕ

-- Whether the build sets ENABLE_HEAP and CONFIG_TFM_PARTITION_META
pub record DataSwitches : Type 0 where
  pub enable_heap : Bool
  pub partition_meta : Bool

pub record DataMap : Type 0 where
  pub shared_start : ℕ
  pub shared_end : ℕ
  pub stack_start : ℕ
  pub stack_end : ℕ
  pub seal_end : ℕ
  pub heap_end : ℕ
  pub meta_start : ℕ
  pub meta_end : ℕ
  pub app_start : ℕ
  pub app_end : ℕ
  pub psa_start : ℕ
  pub psa_end : ℕ
  pub tfm_start : ℕ
  pub bss_end : ℕ

-- `. += (. - start) ? 0 : 4`
abbrev pub padded : ℕ → ℕ
padded n = if n == 0 then 4 else n

-- The initialised data of a kind of partition and its bss, from a location on.
abbrev pub partition_end : (align data_size bss_size dot : ℕ) → ℕ
partition_end align data_size bss_size dot =
    let data_end = align_up (align_up dot align + data_size) 4 in
    align_up (align_up data_end 4 + padded bss_size) align

abbrev pub heap_from : DataSwitches → DataContents → ℕ → ℕ
heap_from w c dot =
    if w.enable_heap then align_up (align_up dot 8) 8 + c.heap + s_heap_size else dot

abbrev pub meta_to : DataSwitches → Alignments → DataContents → ℕ → ℕ
meta_to w k c dot =
    if w.partition_meta then align_up (align_up dot k.sp_meta + c.sp_meta) k.sp_meta else dot

unfoldable pub place_data : DataSwitches → Alignments → DataContents → ℕ → DataMap
place_data w k c origin =
    let shared_start = align_up (align_up origin 4) k.shared_data in
    let shared_end = shared_start + boot_tfm_shared_data_size in
    let stack_start = align_up shared_end k.msp_stack in
    let stack_end = stack_start + (s_msp_stack_size - 0x8) in
    let vectors_end = align_up (stack_end + 0x8) c.ram_vectors.align + c.ram_vectors.size in
    let heap_end = heap_from w c vectors_end in
    let app_start = align_up (meta_to w k c heap_end) k.app_data in
    let app_end = partition_end k.app_data c.app_data c.app_bss app_start in
    let psa_end = partition_end k.psa_data c.psa_data c.psa_bss app_end in
    let tfm_start = align_up psa_end 4 in
    let data_end = align_up (tfm_start + c.tfm_data) 4 in
    let uninitialized_end = align_up data_end c.uninitialized.align + c.uninitialized.size in
    record {
      shared_start = shared_start;
      shared_end = shared_end;
      stack_start = stack_start;
      stack_end = stack_end;
      seal_end = stack_end + 0x8;
      heap_end = heap_end;
      meta_start = align_up heap_end k.sp_meta;
      meta_end = align_up (align_up heap_end k.sp_meta + c.sp_meta) k.sp_meta;
      app_start = app_start;
      app_end = app_end;
      psa_start = app_end;
      psa_end = psa_end;
      tfm_start = tfm_start;
      bss_end = align_up (align_up uninitialized_end 4 + c.tfm_bss) 4;
    }

-- Sections with an alignment.
pub record IsDataContents (c : DataContents) : Type 0 where
  pub vectors_aligned : 0 < c.ram_vectors.align
  pub uninitialized_aligned : 0 < c.uninitialized.align
