-- ===== src/Tfm/LinkerNs/Order.antt =====
-- The order of the sections of reference/linker_ns.ld, and the place of the other core's entry.
use rp2350_tz_tee.Prelude.{◌+◌, ◌%◌, ◌≤◌, ◌<◌, ◌≡◌, ◌&&◌, some, if_some, arith}
use rp2350_tz_tee.Hw.Align.{align_up_same, align_rules}
use rp2350_tz_tee.Tfm.Defs.{ns_vector_allocated_size, ns_heap_size}
use rp2350_tz_tee.Tfm.LinkerNs.{
  NsContents, NsMap, Memories, ns_place, ns_link, ns_fits, ns_asserts, stack_one_top,
  stack_one_bottom, stack_top, stack_bottom,
}

-- Sections with an alignment; that of the vectors and that of the entry hold at the addresses that
-- region_defs.h gives them.
pub record IsNsContents (c : NsContents) (m : Memories) : Type 0 where
  pub vectors_aligned : 0 < c.vectors.align
  pub vectors_at : m.flash_origin % c.vectors.align ≡ 0
  pub flash_word : m.flash_origin % 4 ≡ 0
  pub entry_aligned : 0 < c.core1_entry.align
  pub entry_at : (m.flash_origin + ns_vector_allocated_size) % c.core1_entry.align ≡ 0
  pub reset_aligned : 0 < c.pico_reset.align
  pub text_aligned : 0 < c.text.align
  pub extab_aligned : 0 < c.extab.align
  pub exidx_aligned : 0 < c.exidx.align
  pub info_aligned : 0 < c.binary_info.align
  pub initialized_aligned : 0 < c.initialized.align
  pub ram_vectors_aligned : 0 < c.ram_vectors.align
  pub bss_aligned : 0 < c.bss.align
  pub scratch_x_aligned : 0 < c.scratch_x.align
  pub scratch_y_aligned : 0 < c.scratch_y.align
  pub stack_one_aligned : 0 < c.stack_one.align
  pub stack_aligned : 0 < c.stack.align

-- The sections in flash, one behind the other from the origin on.
pub record IsNsCode (c : NsContents) (m : Memories) (y : NsMap) : Type 0 where
  pub vectors_at : y.vectors_start ≡ m.flash_origin
  pub entry_at : y.core1_start ≡ m.flash_origin + ns_vector_allocated_size
  pub entry_some : y.core1_start + c.core1_entry.size ≡ y.core1_end
  pub reset_after : y.core1_end ≤ y.reset_start
  pub reset_some : y.reset_start + c.pico_reset.size ≡ y.reset_end
  pub text_after : y.reset_end + c.text.size ≤ y.text_end
  pub info_after : y.text_end + c.extab.size + c.exidx.size ≤ y.info_start
  pub info_some : y.info_start + c.binary_info.size ≤ y.info_end

-- The sections in RAM, and in the two banks the stacks behind what the bank holds.
pub record IsNsData (c : NsContents) (m : Memories) (y : NsMap) : Type 0 where
  pub initialized_in : m.ram_origin ≤ y.initialized_start
  pub initialized_some : y.initialized_start + c.initialized.size ≤ y.initialized_end
  pub ram_vectors_after : y.initialized_end + c.ram_vectors.size ≤ y.ram_vectors_end
  pub bss_after : y.ram_vectors_end ≤ y.bss_start
  pub bss_some : y.bss_start + c.bss.size ≤ y.bss_end
  pub heap_after : y.bss_end ≤ y.heap_base
  pub heap_some : y.heap_base + ns_heap_size ≡ y.heap_limit
  pub scratch_x_in : m.scratch_x_base + c.scratch_x.size ≤ y.scratch_x_end
  pub scratch_y_in : m.scratch_y_base + c.scratch_y.size ≤ y.scratch_y_end
  pub stack_one_after : y.scratch_x_end + c.stack_one.size ≤ y.stack_one_end
  pub stack_after : y.scratch_y_end + c.stack.size ≤ y.stack_end

ns_place-IsNsCode : (c : NsContents) (m : Memories) → IsNsContents c m → IsNsCode c m (ns_place c m)
unfolding ns_place
ns_place-IsNsCode c m ok = grind (
  arith,
  align_rules,
  align_up_same m.flash_origin c.vectors.align ok.vectors_aligned ok.vectors_at,
  align_up_same (m.flash_origin + ns_vector_allocated_size) 4 (omega arith) (omega arith),
  align_up_same (m.flash_origin + ns_vector_allocated_size) c.core1_entry.align ok.entry_aligned
      ok.entry_at,
)

ns_place-IsNsData : (c : NsContents) (m : Memories) → IsNsContents c m → IsNsData c m (ns_place c m)
unfolding ns_place
ns_place-IsNsData c m ok = grind (arith, align_rules)

-- A link within the memories, with the stacks apart from the rest of their banks.
pub record IsNsLinked (c : NsContents) (m : Memories) (y : NsMap) : Type 0 where
  pub code : IsNsCode c m y
  pub ram : IsNsData c m y
  pub vectors_fit : y.vectors_start + c.vectors.size ≤ y.core1_start
  pub code_fits : y.info_end ≤ m.flash_origin + m.flash_length
  pub ram_fits : y.heap_limit ≤ m.ram_origin + m.ram_length
  pub stack_one_fits : y.scratch_x_end ≤ stack_one_bottom c m
  pub stack_one_some : stack_one_bottom c m + c.stack_one.size ≡ stack_one_top m
  pub stack_fits : y.scratch_y_end ≤ stack_bottom c m
  pub stack_some : stack_bottom c m + c.stack.size ≡ stack_top m

pub ns_link-IsNsLinked :
    (c : NsContents) (m : Memories) (y : NsMap)
    → IsNsContents c m
    → ns_link c m ≡ some y
    → IsNsLinked c m y
unfolding ns_link
ns_link-IsNsLinked c m y ok h =
    let z = ns_place c m in
    let (holds, at) = if_some (ns_fits c m z && ns_asserts c m z) z y h in
    let code = ns_place-IsNsCode c m ok in
    let ram = ns_place-IsNsData c m ok in
    rw (← at) (record {
      code = code;
      ram = ram;
      vectors_fit = ground arith;
      code_fits = ground arith;
      ram_fits = ground arith;
      stack_one_fits = ground arith;
      stack_one_some = ground arith;
      stack_fits = ground arith;
      stack_some = ground arith;
    })
