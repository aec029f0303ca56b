-- ===== src/Tz/Linker/Loaded.antt =====
-- What RAM holds when the Non-Secure reset handler calls `ns_main`: `launch_nonsecure` has copied
-- the blob and `ns_reset` has cleared bss.
use rp2350_tz_tee.Prelude.{ℕ, ◌+◌, ◌-◌, ◌≤◌, ◌≡◌, ◌&&◌, arith, some, leb, ltb, if◌then◌else◌}
use rp2350_tz_tee.Hw.Memory.{Memory, IsBytes}
use rp2350_tz_tee.Tz.Layout.{ns_flash_start, ns_ram_start}
use rp2350_tz_tee.Tz.Start.{ns_image_copy_bytes, launch_nonsecure}
use rp2350_tz_tee.Tz.Start.Launch.{launch_nonsecure_at}
use rp2350_tz_tee.Tz.Client.{clear_bss}
use rp2350_tz_tee.Tz.Client.Reset.{clear_bss_at}
use rp2350_tz_tee.Tz.Linker.Ns.{NsContents, NsMap, IsContents, ns_link, ns_link-IsNsMap}

abbrev pub at_ns_main : NsMap → ℕ → Memory → Memory
at_ns_main y fuel m = clear_bss fuel y.bss_start y.bss_end (launch_nonsecure m).mem

-- For every image that linker_ns.ld links, on a memory of bytes and with fuel for all of RAM below
-- the mailbox, memory when `ns_reset` calls `ns_main` is zero in bss, the blob from Non-Secure
-- flash in the other bytes of the first 64 KB of Non-Secure RAM, and unchanged elsewhere.
pub at_ns_main_lem :
    (c : NsContents) (y : NsMap) (fuel : ℕ) (m : Memory) (a : ℕ)
    → IsContents c
    → ns_link c ≡ some y
    → IsBytes m
    → 0xF000 ≤ fuel
    → at_ns_main y fuel m a ≡ (
        if leb y.bss_start a && ltb a y.bss_end
        then 0
        else if leb ns_ram_start a && ltb a (ns_ram_start + ns_image_copy_bytes)
        then m (a - ns_ram_start + ns_flash_start)
        else m a)
at_ns_main_lem c y fuel m a ok linked bytes enough =
    let p = ns_link-IsNsMap c y ok linked in
    let (copied, vtor, msp, entry) = launch_nonsecure_at m a bytes in
    ground (
      arith,
      copied,
      clear_bss_at fuel y.bss_start y.bss_end a (launch_nonsecure m).mem (omega arith) (omega arith)
          (omega arith) (omega arith),
    )
