-- ===== src/Tfm/Defs/Areas.antt =====
-- The areas of region_defs.h as sets of addresses, for each build.
use rp2350_tz_tee.Prelude.{ℕ, ◌+◌, Bool, ◌&&◌, leb, ltb}
use rp2350_tz_tee.Hw.Sau.{Attribution, secure, nonsecure}
use rp2350_tz_tee.Tfm.Defs.{
  Switches, Platform, s_code_start, s_code_size, s_data_start, s_data_size, scratch_x_start,
  scratch_x_size, scratch_y_start, scratch_y_size, ns_code_start, ns_code_size, ns_data_start,
  ns_data_size, bl2_code_start, bl2_code_size, secondary_partition_start, secondary_partition_size,
}

pub data Area : Type 0 where
  s_code s_data scratch_x scratch_y ns_code ns_data bl2_code other_slot : Area

-- Whether the address lies in the `size` bytes from `start`.
abbrev pub within : (start size a : ℕ) → Bool
within start size a = leb start a && ltb a (start + size)

-- The last two areas are there with the bootloader only.
unfoldable pub holds : Switches → Platform → Area → ℕ → Bool
holds b p s_code a = within (s_code_start b p) (s_code_size b p) a
holds b p s_data a = within (s_data_start b p) (s_data_size b p) a
holds b p scratch_x a = within (scratch_x_start b p) (scratch_x_size b p) a
holds b p scratch_y a = within (scratch_y_start b p) (scratch_y_size b p) a
holds b p ns_code a = within (ns_code_start b p) (ns_code_size b p) a
holds b p ns_data a = within (ns_data_start b p) (ns_data_size b p) a
holds b p bl2_code a = b.bl2 && within (bl2_code_start b p) (bl2_code_size b p) a
holds b p other_slot a =
    b.bl2 && within (secondary_partition_start b p) (secondary_partition_size b p) a

-- The world that an area is for.
abbrev pub owner : Area → Attribution
owner ns_code = nonsecure
owner ns_data = nonsecure
owner _ = secure
