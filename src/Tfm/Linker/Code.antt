-- ===== src/Tfm/Linker/Code.antt =====
-- The sections of reference/linker_s.ld in flash.
use rp2350_tz_tee.Prelude.{ℕ, ◌+◌, ◌<◌, Bool, if◌then◌else◌, ◌&&◌, not}
use rp2350_tz_tee.Hw.Align.{align_up}
use rp2350_tz_tee.Tfm.Linker.{Alignments, Contents}

-- The bytes of the sections, in the order of the script, with the padding between their parts.
pub record CodeContents : Type 0 where
  pub vectors : Contents
  pub reset : Contents
  pub stubs : ℕ
  pub load_list : ℕ
  pub psa_rot : ℕ
  pub app_rot : ℕ
  pub extab : Contents
  pub exidx : Contents
  pub binary_info : Contents
  pub tfm_code : ℕ
  pub unpriv_code : ℕ

-- Whether the build sets CONFIG_TFM_USE_TRUSTZONE and TFM_LINKER_VENEERS_LOCATION_END
pub record Veneers : Type 0 where
  pub use_trustzone : Bool
  pub at_end : Bool

pub record CodeMap : Type 0 where
  pub vectors_start : ℕ
  pub reset_end : ℕ
  pub veneer_base : ℕ
  pub veneer_limit : ℕ
  pub load_list_start : ℕ
  pub load_list_end : ℕ
  pub psa_start : ℕ
  pub psa_end : ℕ
  pub app_start : ℕ
  pub app_end : ℕ
  pub tfm_start : ℕ
  pub tfm_end : ℕ
  pub unpriv_start : ℕ
  pub unpriv_end : ℕ
  pub code_end : ℕ
  pub pt_ro_end : ℕ

-- Where `VENEERS()` starts and ends from a location on.
abbrev pub veneers_from : Alignments → ℕ → ℕ
veneers_from k dot = align_up dot k.veneers

abbrev pub veneers_to : Alignments → ℕ → ℕ → ℕ
veneers_to k stubs dot = align_up (veneers_from k dot + stubs) k.veneers

abbrev pub placed : Contents → ℕ → ℕ
placed c dot = align_up dot c.align + c.size

unfoldable pub place_code : Veneers → Alignments → CodeContents → ℕ → CodeMap
place_code v k c origin =
    let vectors_start = align_up origin c.vectors.align in
    let reset_end = placed c.reset (align_up (vectors_start + c.vectors.size) 4) in
    let early = v.use_trustzone && not v.at_end in
    let load_list_start =
      align_up (if early then veneers_to k c.stubs reset_end else reset_end) 4 in
    let psa_start = align_up (load_list_start + c.load_list) k.psa_code in
    let psa_end = align_up (align_up psa_start k.psa_code + c.psa_rot) k.psa_code in
    let app_end = align_up (align_up psa_end k.app_code + c.app_rot) k.app_code in
    let exidx_end = placed c.exidx (placed c.extab app_end) in
    let tfm_start = align_up (placed c.binary_info (align_up exidx_end 4)) 4 in
    let unpriv_start = align_up (tfm_start + c.tfm_code) k.unpriv_code in
    let unpriv_end = align_up (unpriv_start + c.unpriv_code) k.unpriv_code in
    let late = v.use_trustzone && v.at_end in
    let code_end = if late then veneers_to k c.stubs unpriv_end else unpriv_end in
    let stubs_dot = if v.at_end then unpriv_end else reset_end in
    record {
      vectors_start = vectors_start;
      reset_end = reset_end;
      veneer_base = veneers_from k stubs_dot;
      veneer_limit = veneers_to k c.stubs stubs_dot;
      load_list_start = load_list_start;
      load_list_end = load_list_start + c.load_list;
      psa_start = psa_start;
      psa_end = psa_end;
      app_start = psa_end;
      app_end = app_end;
      tfm_start = tfm_start;
      tfm_end = tfm_start + c.tfm_code;
      unpriv_start = unpriv_start;
      unpriv_end = unpriv_end;
      code_end = code_end;
      pt_ro_end = align_up code_end k.pt_ro;
    }

-- Sections with an alignment.
pub record IsCodeContents (c : CodeContents) : Type 0 where
  pub vectors_aligned : 0 < c.vectors.align
  pub reset_aligned : 0 < c.reset.align
  pub extab_aligned : 0 < c.extab.align
  pub exidx_aligned : 0 < c.exidx.align
  pub info_aligned : 0 < c.binary_info.align
