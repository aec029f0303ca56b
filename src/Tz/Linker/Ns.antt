-- ===== src/Tz/Linker/Ns.antt =====
-- examples/minimal-tz/nonsecure/linker_ns.ld: where the parts of the Non-Secure image lie, and its
-- guard.
use rp2350_tz_tee.Prelude.{
  arith, ◌%◌, ◌≤◌, ◌<◌, ◌≡◌, ℕ, ◌+◌, ◌-◌, Option, none, some, ltb, if◌then◌else◌, if_some,
}
use rp2350_tz_tee.Hw.Align.{align_up, align_rules}
use rp2350_tz_tee.Tz.Layout.{ns_ram_start, ns_ram_limit, ns_mailbox_addr}

-- What the object files put into an output section: the alignment of its first part, and the bytes
-- of all parts with the padding between them.
pub record Contents : Type 0 where
  pub align : ℕ
  pub size : ℕ

-- The vector table has its size only, since the script gives its address.
pub record NsContents : Type 0 where
  pub vectors_size : ℕ
  pub text_section : Contents
  pub rodata_section : Contents
  pub data_section : Contents
  pub bss_section : Contents

abbrev pub ram_origin : ℕ
ram_origin = 0x2004_0000

abbrev pub ram_length : ℕ
ram_length = 0x0004_0000

abbrev pub ns_stack_size : ℕ
ns_stack_size = 0x1000

-- The ends of the sections and the symbols of the script.
pub record NsMap : Type 0 where
  pub text_start : ℕ
  pub text_end : ℕ
  pub rodata_end : ℕ
  pub data_start : ℕ
  pub data_end : ℕ
  pub bss_start : ℕ
  pub bss_end : ℕ
  pub stack_top : ℕ
  pub stack_bottom : ℕ

unfoldable pub ns_place : NsContents → NsMap
ns_place c =
    let text_start = align_up (ram_origin + c.vectors_size) c.text_section.align in
    let text_end = align_up (text_start + c.text_section.size) 4 in
    let rodata_end =
      align_up (align_up text_end c.rodata_section.align + c.rodata_section.size) 4 in
    let data_start = align_up (align_up rodata_end c.data_section.align) 4 in
    let data_end = align_up (data_start + c.data_section.size) 4 in
    let bss_start = align_up (align_up data_end c.bss_section.align) 4 in
    record {
      text_start = text_start;
      text_end = text_end;
      rodata_end = rodata_end;
      data_start = data_start;
      data_end = data_end;
      bss_start = bss_start;
      bss_end = align_up (bss_start + c.bss_section.size) 4;
      stack_top = ram_origin + ram_length;
      stack_bottom = ram_origin + ram_length - ns_stack_size;
    }

-- The link fails when the assertion of the script does not hold.
unfoldable pub ns_link : NsContents → Option NsMap
ns_link c = if ltb (ns_place c).bss_end 0x2007_C000 then some (ns_place c) else none

-- Sections with an alignment.
pub record IsContents (c : NsContents) : Type 0 where
  pub text_aligned : 0 < c.text_section.align
  pub rodata_aligned : 0 < c.rodata_section.align
  pub data_aligned : 0 < c.data_section.align
  pub bss_aligned : 0 < c.bss_section.align

-- The sections in their order from the start of RAM, in whole words, below the mailbox, and the
-- stack at the end of RAM behind it.
pub record IsNsMap (c : NsContents) (y : NsMap) : Type 0 where
  pub vectors_below : ns_ram_start + c.vectors_size ≤ y.text_start
  pub text_holds : y.text_start + c.text_section.size ≤ y.text_end
  pub rodata_holds : y.text_end + c.rodata_section.size ≤ y.rodata_end
  pub data_after : y.rodata_end ≤ y.data_start
  pub data_holds : y.data_start + c.data_section.size ≤ y.data_end
  pub bss_after : y.data_end ≤ y.bss_start
  pub bss_holds : y.bss_start + c.bss_section.size ≤ y.bss_end
  pub bss_start_word : y.bss_start % 4 ≡ 0
  pub bss_end_word : y.bss_end % 4 ≡ 0
  pub below_mailbox : y.bss_end < ns_mailbox_addr
  pub stack_after : ns_mailbox_addr + 28 ≤ y.stack_bottom
  pub stack_size : y.stack_bottom + ns_stack_size ≡ y.stack_top
  pub stack_end : y.stack_top ≡ ns_ram_limit + 1

ns_place-IsNsMap :
    (c : NsContents)
    → IsContents c
    → (ns_place c).bss_end < ns_mailbox_addr
    → IsNsMap c (ns_place c)
unfolding ns_place
ns_place-IsNsMap c ok h = grind (arith, align_rules)

-- A link that succeeds gives such a map.
pub ns_link-IsNsMap : (c : NsContents) (y : NsMap) → IsContents c → ns_link c ≡ some y → IsNsMap c y
unfolding ns_link
ns_link-IsNsMap c y ok h =
    let (below, at) = if_some (ltb (ns_place c).bss_end 0x2007_C000) (ns_place c) y h in
    rw (← at) (ns_place-IsNsMap c ok (ground arith))
