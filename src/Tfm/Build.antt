-- ===== src/Tfm/Build.antt =====
-- The preprocessor switches that the files of reference/ test.
use rp2350_tz_tee.Prelude.{Bool}

pub data IsolationLevel : Type 0 where
  level_1 level_2 level_3 : IsolationLevel

pub record Build : Type 0 where
  pub memory_protect : Bool  -- CONFIG_TFM_ENABLE_MEMORY_PROTECT
  pub use_trustzone : Bool  -- CONFIG_TFM_USE_TRUSTZONE
  pub partition_meta : Bool  -- CONFIG_TFM_PARTITION_META
  pub pxn_enable : Bool  -- TFM_PXN_ENABLE
  pub multi_core_topology : Bool  -- TFM_MULTI_CORE_TOPOLOGY
  pub isolation_level : IsolationLevel  -- TFM_ISOLATION_LEVEL

-- `enum tfm_plat_err_t`, as far as the files of reference/ return it.
pub data PlatErr : Type 0 where
  success system_err : PlatErr
