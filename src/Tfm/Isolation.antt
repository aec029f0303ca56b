-- ===== src/Tfm/Isolation.antt =====
-- reference/tfm_hal_isolation_rp2350.c: the isolation boundaries inside the Secure world.
pub mod Static
pub mod Access
pub mod Rights
pub mod Allow
pub mod Bind
pub mod Handle
use rp2350_tz_tee.Prelude.{
  ℕ, ◌+◌, ◌-◌, ◌*◌, ◌^◌, Bool, true, false, if◌then◌else◌, ◌==◌, ltb, bit_and, List, [], ◌∷◌, ◌++◌,
  zero, suc,
}
use rp2350_tz_tee.Prelude.Lists.{length}
use rp2350_tz_tee.Prelude.Maps.{◌▷◌}
use rp2350_tz_tee.Prelude.Words.{u32}
use rp2350_tz_tee.Hw.Sau.{Sau}
use rp2350_tz_tee.Tfm.Build.{
  Build, IsolationLevel, level_1, level_2, level_3, PlatErr, success, system_err,
}
use rp2350_tz_tee.Tfm.Regions.{Regions}
use rp2350_tz_tee.Tfm.Sau.{SauApi, sau_and_idau_cfg}
use rp2350_tz_tee.Tfm.Dma.{DmaApi, Dma, dma_security_config}
use rp2350_tz_tee.Tfm.Filter.{Bus, Accessctrl, bus_filter_cfg}
use rp2350_tz_tee.Tfm.Mpu.{Mpu, MpuApi, region_num, enable_bit}

-- `enum tfm_hal_status_t`, as far as this file returns it.
pub data Status : Type 0 where
  hal_success hal_error_generic hal_error_invalid_input hal_error_mem_fault : Status

-- The hardware, and the file's own `n_configured_regions`.
pub record Spe (bus : Bus) : Type 0 where
  pub sau : Sau
  pub devices : bus.State
  pub dma : Dma
  pub mpu : Mpu
  pub n_configured_regions : ℕ

-- The symbols of the linker script.
pub record Symbols : Type 0 where
  pub er_veneer_base : ℕ
  pub veneer_align_limit : ℕ
  pub unpriv_code_start : ℕ
  pub unpriv_code_end : ℕ
  pub app_code_start : ℕ
  pub app_code_end : ℕ
  pub app_rw_stack_start : ℕ
  pub app_rw_stack_end : ℕ
  pub sp_meta_ptr : ℕ
  pub sp_meta_ptr_end : ℕ

-- Everything that the file takes from elsewhere.
pub record Platform : Type 1 where
  pub build : Build
  pub bus : Bus
  pub ac : Accessctrl
  pub regions : Regions
  pub sau_api : SauApi
  pub dma_api : DmaApi
  pub api : MpuApi
  pub symbols : Symbols

-- An element of `mpu_region_attributes`.
pub record Region : Type 0 where
  pub rbar : ℕ
  pub rlar : ℕ

-- `ARM_MPU_RLAR_PXN` or `ARM_MPU_RLAR`.
abbrev pub limit_value : MpuApi → Build → ℕ → ℕ → ℕ → ℕ
limit_value c b limit pxn idx =
    if b.pxn_enable then c.mpu_rlar_pxn limit pxn idx else c.mpu_rlar limit idx

-- `address - 1` of a symbol.
abbrev pub before : ℕ → ℕ
before address = u32 (address + 2 ^ 32 - 1)

abbrev pub ro_pxn : IsolationLevel → ℕ
ro_pxn level_1 = 0
ro_pxn level_2 = 1
ro_pxn level_3 = 1

-- `mpu_region_attributes`
unfoldable pub mpu_region_attributes : MpuApi → Build → Symbols → List Region
mpu_region_attributes c b y =
    let region = λ (base limit ro xn pxn idx : ℕ).
      let r : Region = record {
        rbar = c.mpu_rbar base c.sh_non ro 1 xn;
        rlar = limit_value c b (before limit) pxn idx;
      } in
      r in
    (if b.use_trustzone then region y.er_veneer_base y.veneer_align_limit 1 0 0 0 ∷ [] else [])
    ++ ((region y.unpriv_code_start y.unpriv_code_end 1 0 0 0
          ∷ region y.app_code_start y.app_code_end 1 0 (ro_pxn b.isolation_level) 0
          ∷ region y.app_rw_stack_start y.app_rw_stack_end 0 1 1 1
          ∷ [])
        ++ (if b.partition_meta then region y.sp_meta_ptr y.sp_meta_ptr_end 0 1 1 1 ∷ [] else []))

-- `for (i = 0; i < mpu_region_num; i++)`, from `i` with `left` rounds to go.
unfoldable pub clear_from : MpuApi → ℕ → ℕ → Mpu → Mpu
clear_from c zero i m = m
clear_from c (suc left) i m = clear_from c left (i + 1) (c.clr_region i m)

-- The loop that configures the regions, from number `i`.
unfoldable pub set_from : MpuApi → List Region → ℕ → Mpu → Mpu
set_from c [] i m = m
set_from c (r ∷ rs) i m = set_from c rs (i + 1) (c.set_region i r.rbar r.rlar m)

abbrev pub disable_if_on : MpuApi → Mpu → Mpu
disable_if_on c m = if enable_bit c m == 0 then m else c.disable m

-- `ARM_MPU_SetMemAttr` for attributes 0, 1 and 2.
abbrev pub set_attributes : MpuApi → Mpu → Mpu
set_attributes c m =
    m
    ▷ c.set_mem_attr 0 (c.mpu_attr (c.mpu_attr_memory 1 0 1 0) (c.mpu_attr_memory 1 0 1 0))
    ▷ c.set_mem_attr 1 (c.mpu_attr (c.mpu_attr_memory 1 1 1 1) (c.mpu_attr_memory 1 1 1 1))
    ▷ c.set_mem_attr 2 (c.mpu_attr c.attr_device c.attr_device_ngnre)

unfoldable pub configure_mpu : MpuApi → List Region → Mpu → Mpu
configure_mpu c rs m =
    m
    ▷ disable_if_on c
    ▷ clear_from c (region_num c m) 0
    ▷ set_attributes c
    ▷ set_from c rs 0
    ▷ c.enable c.ctrl_flags

abbrev pub prot_boundary_val : ℕ
prot_boundary_val = bit_and (2 ^ 1) (2 ^ 1)

module _ (p : Platform) where
  -- The status, the value behind the caller's pointer, and the hardware.
  abbrev pub Result : Type 0
  Result = Status × ℕ × Spe p.bus

  -- The part under CONFIG_TFM_ENABLE_MEMORY_PROTECT, up to the end.
  unfoldable pub set_up_mpu : ℕ → Spe p.bus → Result
  set_up_mpu boundary s =
      let rs = mpu_region_attributes p.api p.build p.symbols in
      if p.build.memory_protect
      then if ltb (region_num p.api s.mpu) (length rs) then (hal_error_generic, boundary, s) else (
        hal_success,
        prot_boundary_val,
        record s { mpu = configure_mpu p.api rs s.mpu; n_configured_regions = length rs },
      )
      else (hal_success, prot_boundary_val, s)

  unfoldable pub check_dma : PlatErr → ℕ → Spe p.bus → Result
  check_dma success boundary s = set_up_mpu boundary s
  check_dma system_err boundary s = (hal_error_generic, boundary, s)

  unfoldable pub check_filter : PlatErr → ℕ → Spe p.bus → Result
  check_filter success boundary s =
      let (err, dma) = dma_security_config p.dma_api p.regions s.dma in
      check_dma err boundary (record s { dma = dma })
  check_filter system_err boundary s = (hal_error_generic, boundary, s)

  unfoldable pub tfm_hal_set_up_static_boundaries : ℕ → Spe p.bus → Result
  tfm_hal_set_up_static_boundaries boundary s =
      let sau = sau_and_idau_cfg p.sau_api p.regions s.sau in
      let (err, devices) = bus_filter_cfg p.bus p.build p.ac s.devices in
      check_filter err boundary (record s { sau = sau; devices = devices })
