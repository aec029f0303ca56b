-- ===== src/Examples/Tfm/Filter.antt =====
-- `bus_filter_cfg` on a device that works and on one that does not.
use rp2350_tz_tee.Prelude.{ℕ, ◌≡◌, if◌then◌else◌, arith, refl}
use rp2350_tz_tee.Tfm.Build.{success, system_err}
use rp2350_tz_tee.Tfm.Filter.{
  bus_filter_cfg, reset, ns_priv, s_unpriv_c0, s_unpriv_c0_c1, c0_c1_unpriv_periph_offsets,
  c0_unpriv_periph_offsets, ns_priv_periph_offsets,
}
use rp2350_tz_tee.Tfm.Filter.Reads.{listed, bus_filter_cfg_reads}
use rp2350_tz_tee.Tfm.Filter.Errors.{ns, first, bus_filter_cfg_stuck}
use rp2350_tz_tee.Examples.Tfm.{
  build, byte_bus, dead_bus, offsets, accessctrl, byte_bus-IsAccessctrl, dead_bus-IsStuck,
}

abbrev nulls : ℕ → ℕ
nulls x = 0

bus_filter_cfg_reads_example :
    ((bus_filter_cfg byte_bus build accessctrl nulls).0 ≡ success)
    × ((bus_filter_cfg byte_bus build accessctrl nulls).1 0x4006_0060 ≡ (
        if listed accessctrl 0x4006_0060 (ns_priv_periph_offsets offsets)
        then ns_priv
        else if listed accessctrl 0x4006_0060 (c0_unpriv_periph_offsets offsets)
        then s_unpriv_c0
        else if listed accessctrl 0x4006_0060 (c0_c1_unpriv_periph_offsets offsets)
        then s_unpriv_c0_c1 build
        else reset byte_bus accessctrl nulls 0x4006_0060))
bus_filter_cfg_reads_example =
    bus_filter_cfg_reads byte_bus accessctrl byte_bus-IsAccessctrl build nulls 0x4006_0060
      (λ h. omega arith)

bus_filter_cfg_stuck_example : (bus_filter_cfg dead_bus build accessctrl 0).0 ≡ system_err
bus_filter_cfg_stuck_example =
    bus_filter_cfg_stuck dead_bus accessctrl build 0 (ns first refl) dead_bus-IsStuck
