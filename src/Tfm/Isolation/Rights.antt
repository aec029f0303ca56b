-- ===== src/Tfm/Isolation/Rights.antt =====
-- The table of MPU regions in reference/tfm_hal_isolation_rp2350.c as rights on addresses.
use rp2350_tz_tee.Prelude.{
  ℕ, ◌%◌, ◌^◌, ◌≤◌, ◌<◌, ◌≡◌, ◌⊎◌, Bool, true, false, ◌&&◌, ◌==◌, leb, ltb, if◌then◌else◌, List, [],
  ◌∷◌, ◌++◌, arith, refl, Bool-cases, inl, inr,
}
use rp2350_tz_tee.Prelude.Lists.{All}
use rp2350_tz_tee.Hw.Pmp.{Access, read, write, execute}
use rp2350_tz_tee.Tfm.Build.{Build, IsolationLevel, level_1, level_2, level_3}
use rp2350_tz_tee.Tfm.Mpu.{MpuApi}
use rp2350_tz_tee.Tfm.Isolation.{
  Region, Symbols, limit_value, before, ro_pxn, mpu_region_attributes,
}
use rp2350_tz_tee.Tfm.Isolation.Access.{covers, grants, hits, allowed, IsMpuMacros}

-- A row by its first address, the one behind its last, and its flags.
pub record Row : Type 0 where
  pub base : ℕ
  pub limit : ℕ
  pub ro : ℕ
  pub xn : ℕ
  pub pxn : ℕ
  pub idx : ℕ

abbrev pub code_row : (base limit pxn : ℕ) → Row
code_row base limit pxn = record { base = base; limit = limit; ro = 1; xn = 0; pxn = pxn; idx = 0 }

abbrev pub data_row : (base limit : ℕ) → Row
data_row base limit = record { base = base; limit = limit; ro = 0; xn = 1; pxn = 1; idx = 1 }

-- The veneers, the unprivileged code, the code and the data of the application partitions, and the
-- pointer to the metadata of the partition.
abbrev pub table : Build → Symbols → List Row
table b y =
    (if b.use_trustzone then code_row y.er_veneer_base y.veneer_align_limit 0 ∷ [] else [])
    ++ ((code_row y.unpriv_code_start y.unpriv_code_end 0
          ∷ code_row y.app_code_start y.app_code_end (ro_pxn b.isolation_level)
          ∷ data_row y.app_rw_stack_start y.app_rw_stack_end
          ∷ [])
        ++ (if b.partition_meta then data_row y.sp_meta_ptr y.sp_meta_ptr_end ∷ [] else []))

abbrev pub inside : Row → ℕ → Bool
inside r a = leb r.base a && ltb a r.limit

abbrev pub row_grants : Row → Access → Bool
row_grants r read = true
row_grants r write = r.ro == 0
row_grants r execute = r.xn == 0

-- The row that holds the address decides; outside the rows nothing is allowed.
abbrev pub table_allows : List Row → Access → ℕ → Bool
table_allows [] k a = false
table_allows (r ∷ rs) k a = if inside r a then row_grants r k else table_allows rs k a

-- Whole blocks of 32 bytes.
pub record IsRow (r : Row) : Type 0 where
  pub base_block : r.base % 32 ≡ 0
  pub limit_block : r.limit % 32 ≡ 0
  pub limit_some : 0 < r.limit
  pub limit_fits : r.limit < 2 ^ 32
  pub ro_flag : r.ro ≤ 1
  pub xn_flag : r.xn ≤ 1
  pub pxn_flag : r.pxn ≤ 1
  pub idx_small : r.idx < 8

-- What a row of code or of data needs of its addresses.
abbrev pub IsSpan : ℕ → ℕ → Type 0
IsSpan base limit = (base % 32 ≡ 0) × (limit % 32 ≡ 0) × (0 < limit) × (limit < 2 ^ 32)

pub code_row-IsRow :
    (base limit pxn : ℕ) → IsSpan base limit → pxn ≤ 1 → IsRow (code_row base limit pxn)
code_row-IsRow base limit pxn (start, end, low, high) h = record {
  base_block = start;
  limit_block = end;
  limit_some = low;
  limit_fits = high;
  ro_flag = omega arith;
  xn_flag = omega arith;
  pxn_flag = h;
  idx_small = omega arith;
}

pub data_row-IsRow : (base limit : ℕ) → IsSpan base limit → IsRow (data_row base limit)
data_row-IsRow base limit (start, end, low, high) = record {
  base_block = start;
  limit_block = end;
  limit_some = low;
  limit_fits = high;
  ro_flag = omega arith;
  xn_flag = omega arith;
  pxn_flag = omega arith;
  idx_small = omega arith;
}

pub ro_pxn-le : (n : IsolationLevel) → ro_pxn n ≤ 1
ro_pxn-le level_1 = omega arith
ro_pxn-le level_2 = omega arith
ro_pxn-le level_3 = omega arith

abbrev pub RowsApart : Row → Row → Type 0
RowsApart r q = (r.limit ≤ q.base) ⊎ (q.limit ≤ r.base)

-- Rows of whole blocks that do not overlap.
abbrev pub IsTable : List Row → Type 0
IsTable [] = Unit
IsTable (r ∷ rs) = IsRow r × (All (RowsApart r) rs × IsTable rs)

module _ (c : MpuApi) (b : Build) where
  abbrev pub encode : Row → Region
  encode r = record {
    rbar = c.mpu_rbar r.base c.sh_non r.ro 1 r.xn;
    rlar = limit_value c b (before r.limit) r.pxn r.idx;
  }

  abbrev pub encode_all : List Row → List Region
  encode_all [] = []
  encode_all (r ∷ rs) = encode r ∷ encode_all rs

  -- The table in the source is the encoded one.
  pub table_encoded : (y : Symbols) → mpu_region_attributes c b y ≡ encode_all (table b y)
  unfolding mpu_region_attributes
  table_encoded y = elim (Bool-cases b.use_trustzone) [
    | inl t ↦ elim (Bool-cases b.partition_meta) [ inl m ↦ rw (t, m) refl | inr m ↦ rw (t, m) refl ]
    | inr t ↦ elim (Bool-cases b.partition_meta) [ inl m ↦ rw (t, m) refl | inr m ↦ rw (t, m) refl ]
  ]

  module _ (macros : IsMpuMacros c) where
    covers-encode : (r : Row) (a : ℕ) → IsRow r → covers (encode r) a ≡ inside r a
    covers-encode r a ok = ground (
      arith,
      macros.rbar_base r.base r.ro 1 r.xn ok.ro_flag (omega arith) ok.xn_flag,
      macros.rlar_limit (before r.limit) r.idx ok.idx_small,
      macros.rlar_on (before r.limit) r.idx ok.idx_small,
      macros.pxn_limit (before r.limit) r.pxn r.idx ok.pxn_flag ok.idx_small,
      macros.pxn_on (before r.limit) r.pxn r.idx ok.pxn_flag ok.idx_small,
    )

    grants-encode : (r : Row) (k : Access) → IsRow r → grants (encode r) k ≡ row_grants r k
    grants-encode r read ok =
        ground (arith, macros.rbar_flags r.base r.ro 1 r.xn ok.ro_flag (omega arith) ok.xn_flag)
    grants-encode r write ok =
        ground (arith, macros.rbar_flags r.base r.ro 1 r.xn ok.ro_flag (omega arith) ok.xn_flag)
    grants-encode r execute ok =
        ground (arith, macros.rbar_flags r.base r.ro 1 r.xn ok.ro_flag (omega arith) ok.xn_flag)

    hits_elsewhere :
        (r : Row) (rs : List Row) (a : ℕ)
        → inside r a ≡ true
        → All (RowsApart r) rs
        → IsTable rs
        → hits (encode_all rs) a ≡ []
    unfolding hits
    hits_elsewhere r [] a h apart ok = refl
    hits_elsewhere r (q ∷ rs) a h (here, apart) (row, (far, ok)) =
        ground (arith, covers-encode q a row, hits_elsewhere r rs a h apart ok, here)

    pub allowed-table :
        (rs : List Row) (k : Access) (a : ℕ)
        → IsTable rs
        → allowed (hits (encode_all rs) a) k ≡ table_allows rs k a
    unfolding hits
    allowed-table [] k a ok = refl
    allowed-table (r ∷ rs) k a (row, (apart, ok)) = elim (Bool-cases (inside r a)) [
      | inl t ↦
          rw (covers-encode r a row, t, hits_elsewhere r rs a t apart ok) (grants-encode r k row)
      | inr f ↦ rw (covers-encode r a row, f) (allowed-table rs k a ok)
    ]
