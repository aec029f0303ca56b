-- ===== src/Examples/Tfm/Boundaries.antt =====
-- The isolation boundaries on the parameters of the example.
use rp2350_tz_tee.Prelude.{ℕ, ◌+◌, ◌/◌, ◌%◌, ◌<◌, ◌≤◌, ◌≡◌, ◌≢◌, ◌↔◌, ◌||◌, ◌==◌, true, false}
use rp2350_tz_tee.Prelude.{if◌then◌else◌, arith, refl, [], ◌∷◌, some}
use rp2350_tz_tee.Prelude.Lists.{length, get_or}
use rp2350_tz_tee.Tfm.Build.{success}
use rp2350_tz_tee.Tfm.Filter.{bus_filter_cfg}
use rp2350_tz_tee.Tfm.Filter.Reads.{bus_filter_cfg_reads}
use rp2350_tz_tee.Tfm.Mpu.{region_num, enable_bit}
use rp2350_tz_tee.Tfm.Isolation.{
  hal_success, hal_error_invalid_input, hal_error_mem_fault, Spe, Platform, Symbols, Region,
  mpu_region_attributes, prot_boundary_val, tfm_hal_set_up_static_boundaries,
}
use rp2350_tz_tee.Tfm.Isolation.Static.{static_boundaries_succeed, static_boundaries_configure}
use rp2350_tz_tee.Tfm.Isolation.Bind.{
  Asset, LoadInfo, PlatformData, Mmio, is_privileged, tfm_hal_bind_boundary, contains,
}
use rp2350_tz_tee.Tfm.Isolation.Bind.Regions.{Extends, tfm_hal_bind_boundary-Extends}
use rp2350_tz_tee.Tfm.Isolation.Bind.Outcome.{
  all_listed, all_aligned, count_named, tfm_hal_bind_boundary_handle, tfm_hal_bind_boundary_mapped,
}
use rp2350_tz_tee.Tfm.Isolation.Handle.{
  CheckApi, tfm_hal_activate_boundary, tfm_hal_boundary_need_switch, tfm_hal_memory_check,
}
use rp2350_tz_tee.Tfm.Isolation.Handle.Laws.{
  IsCheckApi, expected_flags, activate-bind, need_switch_skips, tfm_hal_memory_check_lem,
}
use rp2350_tz_tee.Examples.Tfm.{
  build, byte_bus, accessctrl, byte_bus-IsAccessctrl, regions, sau_api, dma_api, mpu_api,
  mpu_api-IsMpuApi, sau_reset, dma_reset, mpu_reset,
}

abbrev nulls : ℕ → ℕ
nulls x = 0

abbrev symbols : Symbols
symbols = record {
  er_veneer_base = 0x1007_F000;
  veneer_align_limit = 0x1008_0000;
  unpriv_code_start = 0x1000_0000;
  unpriv_code_end = 0x1001_0000;
  app_code_start = 0x1001_0000;
  app_code_end = 0x1002_0000;
  app_rw_stack_start = 0x2000_0000;
  app_rw_stack_end = 0x2001_0000;
  sp_meta_ptr = 0;
  sp_meta_ptr_end = 0;
}

abbrev pub platform : Platform
platform = record {
  build = build;
  bus = byte_bus;
  ac = accessctrl;
  regions = regions;
  sau_api = sau_api;
  dma_api = dma_api;
  api = mpu_api;
  symbols = symbols;
}

abbrev pub spe : Spe byte_bus
spe = record {
  sau = sau_reset;
  devices = nulls;
  dma = dma_reset;
  mpu = mpu_reset;
  n_configured_regions = 0;
}

rows : length (mpu_region_attributes mpu_api build symbols) ≤ region_num mpu_api mpu_reset
unfolding mpu_region_attributes
rows = omega arith

static_boundaries_succeed_example :
    ((tfm_hal_set_up_static_boundaries platform 0 spe).0 ≡ hal_success) ↔ (
      ((bus_filter_cfg byte_bus build accessctrl nulls).0 ≡ success)
      × (length (mpu_region_attributes mpu_api build symbols) ≤ region_num mpu_api mpu_reset))
static_boundaries_succeed_example = static_boundaries_succeed platform 0 spe mpu_api-IsMpuApi refl

pub filter_succeeds : (bus_filter_cfg byte_bus build accessctrl nulls).0 ≡ success
filter_succeeds =
    (bus_filter_cfg_reads byte_bus accessctrl byte_bus-IsAccessctrl build nulls 0
      (λ h. omega arith)).0

succeeds : (tfm_hal_set_up_static_boundaries platform 0 spe).0 ≡ hal_success
succeeds =
    (static_boundaries_succeed platform 0 spe mpu_api-IsMpuApi refl).1 (filter_succeeds, rows)

abbrev no_region : Region
no_region = record { rbar = 0; rlar = 0 }

static_boundaries_configure_example :
    let result = tfm_hal_set_up_static_boundaries platform 0 spe in
    let rows_of = mpu_region_attributes mpu_api build symbols in
    (result.1 ≡ prot_boundary_val)
    × (result.2.n_configured_regions ≡ length rows_of)
    × (enable_bit mpu_api result.2.mpu ≢ 0)
    × (1 < length rows_of
        → (result.2.mpu.rbar 1 ≡ (get_or rows_of 1 no_region).rbar)
          × (result.2.mpu.rlar 1 ≡ (get_or rows_of 1 no_region).rlar))
    × (length rows_of ≤ 1 → 1 < region_num mpu_api mpu_reset → result.2.mpu.rlar 1 ≡ 0)
static_boundaries_configure_example =
    static_boundaries_configure platform 0 spe 1 no_region mpu_api-IsMpuApi refl succeeds

-- A partition with one device.
abbrev pub asset : Asset
asset = record { attr = 4; dev_ref = 7 }

abbrev pub load_info : LoadInfo
load_info = record { is_psa_rot = false; is_ns_agent_tz = false; assets = asset ∷ [] }

abbrev load_info_rot : LoadInfo
load_info_rot = record { is_psa_rot = true; is_ns_agent_tz = false; assets = asset ∷ [] }

abbrev device : PlatformData
device = record {
  periph_start = 0x4007_0000;
  periph_limit = 0x4007_0FFF;
  periph_ppc_bank = 1;
  periph_ppc_mask = 0x80;
}

abbrev pub mmio : Mmio
mmio = record { list = 7 ∷ []; deref = λ r. device; named_mmio = 4; do_not_configure = 0xFFFF }

tfm_hal_bind_boundary-Extends_example :
    Extends platform mpu_api-IsMpuApi spe
      (tfm_hal_bind_boundary platform mmio (some load_info) (some 9) spe).2
tfm_hal_bind_boundary-Extends_example =
    tfm_hal_bind_boundary-Extends platform mpu_api-IsMpuApi mmio (some load_info) (some 9) spe
      (omega arith)

tfm_hal_bind_boundary_mapped_example :
    let result = tfm_hal_bind_boundary platform mmio (some load_info) (some 9) spe in
    (result.0 ≡ hal_success ↔ (
      (all_listed platform mmio (asset ∷ []) ≡ true)
      × (all_aligned platform mmio (asset ∷ []) ≡ true)
      × (0 + count_named platform mmio (asset ∷ []) ≤ region_num mpu_api mpu_reset)))
    × (result.0 ≡ hal_success
        → result.2.n_configured_regions ≡ 0 + count_named platform mmio (asset ∷ []))
tfm_hal_bind_boundary_mapped_example =
    tfm_hal_bind_boundary_mapped platform mmio load_info 9 spe mpu_api-IsMpuApi refl refl
      (omega arith) (omega arith)

conditions :
    (all_listed platform mmio (asset ∷ []) ≡ true)
    × (all_aligned platform mmio (asset ∷ []) ≡ true)
    × (0 + count_named platform mmio (asset ∷ []) ≤ region_num mpu_api mpu_reset)
unfolding all_listed all_aligned count_named contains
conditions = (refl, refl, omega arith)

binds : (tfm_hal_bind_boundary platform mmio (some load_info) (some 9) spe).0 ≡ hal_success
binds =
    (tfm_hal_bind_boundary_mapped platform mmio load_info 9 spe mpu_api-IsMpuApi refl refl
        (omega arith) (omega arith)).0.1
      conditions

activate-bind_example :
    ((tfm_hal_activate_boundary 0 6).1 % 2
      ≡ (if is_privileged build.isolation_level load_info then 0 else 1))
    × ((tfm_hal_activate_boundary 0 6).1 / 2 ≡ 6 / 2)
activate-bind_example =
    activate-bind platform mmio load_info 9 spe 0 6 binds
      ((tfm_hal_bind_boundary_handle platform mmio load_info 9 spe).0 binds)

no_switch : tfm_hal_boundary_need_switch 2 3 ≡ false
unfolding tfm_hal_boundary_need_switch
no_switch = refl

need_switch_skips_example :
    tfm_hal_activate_boundary 3 (tfm_hal_activate_boundary 2 5).1 ≡ tfm_hal_activate_boundary 2 5
need_switch_skips_example = need_switch_skips 2 3 5 no_switch

abbrev check_api : CheckApi
check_api = record {
  check = λ p size flags. flags == 13;
  mpu_readwrite = 1;
  mpu_read = 8;
  mpu_unpriv = 4;
  nonsecure = 18;
  access_readable = 2;
  access_readwrite = 6;
  access_ns = 32;
}

check_api-IsCheckApi : IsCheckApi check_api
check_api-IsCheckApi = record {
  readwrite_flag = refl;
  unpriv_flag = refl;
  read_flag = refl;
  nonsecure_flag = refl;
  readable_bit = refl;
  readwrite_bits = refl;
  ns_bit = refl;
}

tfm_hal_memory_check_example : tfm_hal_memory_check check_api 0 2 0x2000_0000 16 2 ≡ (
    if 16 == 0
    then hal_success
    else if 0x2000_0000 == 0 || 2 / 2 % 2 == 0
    then hal_error_invalid_input
    else if check_api.check 0x2000_0000 16 (expected_flags 2 2 0)
    then hal_success
    else hal_error_mem_fault)
tfm_hal_memory_check_example =
    tfm_hal_memory_check_lem check_api 2 0x2000_0000 16 2 0 check_api-IsCheckApi
