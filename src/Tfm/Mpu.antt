-- ===== src/Tfm/Mpu.antt =====
-- The Memory Protection Unit of ARMv8-M, and the CMSIS functions of armv8m_mpu.h that
-- reference/tfm_hal_isolation_rp2350.c calls on it.
use rp2350_tz_tee.Prelude.{ℕ, ◌/◌, ◌^◌, ◌≡◌, ◌≢◌, ◌==◌, if◌then◌else◌, bit_and}

pub record Mpu : Type 0 where
  pub type : ℕ
  pub ctrl : ℕ
  pub rbar : ℕ → ℕ
  pub rlar : ℕ → ℕ
  pub mair : ℕ → ℕ

-- The macros that assemble register values, the functions, and the masks.
pub record MpuApi : Type 0 where
  pub mpu_rbar : (base sh ro np xn : ℕ) → ℕ
  pub mpu_rlar : (limit idx : ℕ) → ℕ
  pub mpu_rlar_pxn : (limit pxn idx : ℕ) → ℕ
  pub mpu_attr : (outer inner : ℕ) → ℕ
  pub mpu_attr_memory : (nt wb ra wa : ℕ) → ℕ
  pub disable : Mpu → Mpu
  pub enable : ℕ → Mpu → Mpu
  pub clr_region : ℕ → Mpu → Mpu
  pub set_region : (i rbar rlar : ℕ) → Mpu → Mpu
  pub set_mem_attr : (i attr : ℕ) → Mpu → Mpu
  pub sh_non : ℕ
  pub attr_device : ℕ
  pub attr_device_ngnre : ℕ
  pub dregion_msk : ℕ
  pub dregion_pos : ℕ
  pub ctrl_enable_msk : ℕ
  pub ctrl_flags : ℕ  -- MPU_CTRL_PRIVDEFENA_Msk | MPU_CTRL_HFNMIENA_Msk
  pub rbar_base_msk : ℕ
  pub rlar_limit_msk : ℕ

-- `(MPU->TYPE & MPU_TYPE_DREGION_Msk) >> MPU_TYPE_DREGION_Pos`
abbrev pub region_num : MpuApi → Mpu → ℕ
region_num c m = bit_and m.type c.dregion_msk / 2 ^ c.dregion_pos

-- `MPU->CTRL & MPU_CTRL_ENABLE_Msk`
abbrev pub enable_bit : MpuApi → Mpu → ℕ
enable_bit c m = bit_and m.ctrl c.ctrl_enable_msk

-- What armv8m_mpu.h documents of the functions.
pub record IsMpuApi (c : MpuApi) : Type 0 where
  pub type_disable : (m : Mpu) → (c.disable m).type ≡ m.type
  pub rbar_disable : (m : Mpu) → (c.disable m).rbar ≡ m.rbar
  pub rlar_disable : (m : Mpu) → (c.disable m).rlar ≡ m.rlar
  pub type_enable : (v : ℕ) (m : Mpu) → (c.enable v m).type ≡ m.type
  pub rbar_enable : (v : ℕ) (m : Mpu) → (c.enable v m).rbar ≡ m.rbar
  pub rlar_enable : (v : ℕ) (m : Mpu) → (c.enable v m).rlar ≡ m.rlar
  pub enabled : (v : ℕ) (m : Mpu) → enable_bit c (c.enable v m) ≢ 0
  pub type_clr : (i : ℕ) (m : Mpu) → (c.clr_region i m).type ≡ m.type
  pub rlar_clr : (i j : ℕ) (m : Mpu) → (c.clr_region i m).rlar j ≡ (if i == j then 0 else m.rlar j)
  pub type_set : (i b l : ℕ) (m : Mpu) → (c.set_region i b l m).type ≡ m.type
  pub rbar_set :
      (i b l j : ℕ) (m : Mpu) → (c.set_region i b l m).rbar j ≡ (if i == j then b else m.rbar j)
  pub rlar_set :
      (i b l j : ℕ) (m : Mpu) → (c.set_region i b l m).rlar j ≡ (if i == j then l else m.rlar j)
  pub type_attr : (i v : ℕ) (m : Mpu) → (c.set_mem_attr i v m).type ≡ m.type
  pub rlar_attr : (i v : ℕ) (m : Mpu) → (c.set_mem_attr i v m).rlar ≡ m.rlar
