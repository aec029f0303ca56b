-- ===== src/Tfm/Linker/Table.antt =====
-- The MPU table of tfm_hal_isolation_rp2350.c on the symbols of a link.
use rp2350_tz_tee.Prelude.{false, ◌≡◌, inl, inr, true, if◌then◌else◌, [], ◌∷◌, Bool-cases, arith}
use rp2350_tz_tee.Prelude.Lists.{All}
use rp2350_tz_tee.Tfm.Build.{Build}
use rp2350_tz_tee.Tfm.Isolation.Rights.{
  Row, RowsApart, IsSpan, code_row, data_row, code_row-IsRow, data_row-IsRow, ro_pxn-le, table,
  IsTable,
}
use rp2350_tz_tee.Tfm.Isolation.{ro_pxn}
use rp2350_tz_tee.Tfm.Linker.Link.{Image, Memories, IsMemories, Linked, IsLinked, symbols_of}

module _ (b : Build) (g : Image) (m : Memories) (y : Linked) (mem : IsMemories m)
    (at : IsLinked b g m y) where
  abbrev veneers_row : Row
  veneers_row = code_row y.code.veneer_base y.code.veneer_limit 0

  abbrev unpriv_row : Row
  unpriv_row = code_row y.code.unpriv_start y.code.unpriv_end 0

  abbrev app_row : Row
  app_row = code_row y.code.app_start y.code.app_end (ro_pxn b.isolation_level)

  abbrev app_rw_row : Row
  app_rw_row = data_row y.ram.app_start y.ram.app_end

  -- The addresses of the rows.
  veneers-IsSpan : b.use_trustzone ≡ true → IsSpan y.code.veneer_base y.code.veneer_limit
  veneers-IsSpan tz =
      (at.code.veneer_base_block, at.code.veneer_limit_block, ground arith, ground arith)

  unpriv-IsSpan : IsSpan y.code.unpriv_start y.code.unpriv_end
  unpriv-IsSpan = (at.code.unpriv_start_block, at.code.unpriv_end_block, omega arith, omega arith)

  app-IsSpan : IsSpan y.code.app_start y.code.app_end
  app-IsSpan = (at.code.app_start_block, at.code.app_end_block, omega arith, omega arith)

  app_rw-IsSpan : IsSpan y.ram.app_start y.ram.app_end
  app_rw-IsSpan = (at.ram.app_start_block, at.ram.app_end_block, omega arith, omega arith)

  meta-IsSpan : b.partition_meta ≡ true → IsSpan y.ram.meta_start y.ram.meta_end
  meta-IsSpan on = (at.ram.meta_start_block, at.ram.meta_end_block, omega arith, ground arith)

  meta-IsTable :
      IsTable (if b.partition_meta then data_row y.ram.meta_start y.ram.meta_end ∷ [] else [])
  meta-IsTable = elim (Bool-cases b.partition_meta) [
    | inl on ↦ rw on (data_row-IsRow _ _ (meta-IsSpan on), (tt, tt))
    | inr off ↦ rw off tt
  ]

  -- A row that the pointer to the metadata does not touch.
  meta_apart :
      (r : Row)
      → (b.partition_meta ≡ true → RowsApart r (data_row y.ram.meta_start y.ram.meta_end))
      → All
          (RowsApart r)
          (if b.partition_meta then data_row y.ram.meta_start y.ram.meta_end ∷ [] else [])
  meta_apart r h = elim (Bool-cases b.partition_meta) [
    | inl on ↦ rw on (h on, tt)
    | inr off ↦ rw off tt
  ]

  -- The rows behind that of the veneers.
  rows-IsTable : IsTable (table (record b { use_trustzone = false }) (symbols_of y))
  rows-IsTable = (
    code_row-IsRow _ _ 0 unpriv-IsSpan (omega arith),
    (
      (inr (omega arith), (inl (omega arith), meta_apart unpriv_row (λ on. inl (omega arith)))),
      (
        code_row-IsRow _ _ _ app-IsSpan (ro_pxn-le b.isolation_level),
        (
          (inl (omega arith), meta_apart app_row (λ on. inl (omega arith))),
          (
            data_row-IsRow _ _ app_rw-IsSpan,
            (meta_apart app_rw_row (λ on. inr (at.ram.app_after_meta on)), meta-IsTable),
          ),
        ),
      ),
    ),
  )

  -- The rows of the MPU table are whole blocks that do not overlap.
  pub linked-IsTable : IsTable (table b (symbols_of y))
  linked-IsTable = elim (Bool-cases b.use_trustzone) [
    | inl tz ↦ rw tz (
      code_row-IsRow _ _ 0 (veneers-IsSpan tz) (omega arith),
      (
        (ground arith, (ground arith, (ground arith, meta_apart veneers_row (λ on. ground arith)))),
        rows-IsTable,
      ),
    )
    | inr off ↦ rw off rows-IsTable
  ]
