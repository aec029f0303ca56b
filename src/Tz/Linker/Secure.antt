-- ===== src/Tz/Linker/Secure.antt =====
-- examples/minimal-tz/secure/linker_s.ld: the memory areas of the Secure image, the gateway stubs
-- and the two stacks.
use rp2350_tz_tee.Prelude.{
  ◌<◌, true, if_some, ◌≡◌, ◌≤◌, arith, refl, ℕ, ◌+◌, ◌-◌, Option, none, some, Bool, ◌&&◌, leb,
  if◌then◌else◌,
}
use rp2350_tz_tee.Hw.Align.{align_rules, align_up}

-- The lines of MEMORY.
pub data Region : Type 0 where
  flash veneer ram scratch_x scratch_y : Region

abbrev pub origin : Region → ℕ
origin flash = 0x1000_0000
origin veneer = 0x100F_F000
origin ram = 0x2000_0000
origin scratch_x = 0x2008_0000
origin scratch_y = 0x2008_1000

abbrev pub length : Region → ℕ
length flash = 0x000F_F000
length veneer = 0x0000_1000
length ram = 0x0004_0000
length scratch_x = 0x1000
length scratch_y = 0x1000

-- The bytes that the object files put into the stubs, the two scratch sections and the two stacks,
-- and the alignment of the stacks.
pub record SecureContents : Type 0 where
  pub stubs : ℕ
  pub in_scratch_x : ℕ
  pub stack_1 : ℕ
  pub stack_1_align : ℕ
  pub in_scratch_y : ℕ
  pub stack : ℕ
  pub stack_align : ℕ

pub record SecureMap : Type 0 where
  pub veneer_base : ℕ
  pub veneer_limit : ℕ
  pub scratch_x_end : ℕ
  pub scratch_y_end : ℕ
  pub heap_limit : ℕ
  pub stack_limit : ℕ
  pub stack_1_top : ℕ
  pub stack_top : ℕ
  pub stack_1_bottom : ℕ
  pub stack_bottom : ℕ

-- The end of a memory area.
abbrev pub end_of : Region → ℕ
end_of r = origin r + length r

unfoldable pub s_place : SecureContents → SecureMap
s_place c = record {
  veneer_base = align_up (origin veneer) 32;
  veneer_limit = align_up (align_up (origin veneer) 32 + c.stubs) 32;
  scratch_x_end = align_up (origin scratch_x + c.in_scratch_x) 4;
  scratch_y_end = align_up (origin scratch_y + c.in_scratch_y) 4;
  heap_limit = end_of ram;
  stack_limit = end_of ram;
  stack_1_top = end_of scratch_x;
  stack_top = end_of scratch_y;
  stack_1_bottom = end_of scratch_x - c.stack_1;
  stack_bottom = end_of scratch_y - c.stack;
}

-- What a section must leave room for in its memory area, and the assertion on the stack limit.
abbrev pub s_fits : SecureContents → Bool
s_fits c =
    let y = s_place c in
    leb y.veneer_limit (end_of veneer)
    && leb (align_up y.scratch_x_end c.stack_1_align + c.stack_1) (end_of scratch_x)
    && leb (align_up y.scratch_y_end c.stack_align + c.stack) (end_of scratch_y)
    && leb y.heap_limit y.stack_limit

unfoldable pub s_link : SecureContents → Option SecureMap
s_link c = if s_fits c then some (s_place c) else none

-- Stacks with an alignment.
pub record IsSecureContents (c : SecureContents) : Type 0 where
  pub stack_1_aligned : 0 < c.stack_1_align
  pub stack_aligned : 0 < c.stack_align

-- The stubs in their area, and the stacks at the ends of theirs.
pub record IsSecureMap (y : SecureMap) : Type 0 where
  pub veneer_from : y.veneer_base ≡ origin veneer
  pub veneer_to : y.veneer_limit ≤ end_of veneer
  pub heap_to : y.heap_limit ≡ end_of ram
  pub stack_1_from : origin scratch_x ≤ y.stack_1_bottom
  pub stack_1_to : y.stack_1_top ≡ end_of scratch_x
  pub stack_from : origin scratch_y ≤ y.stack_bottom
  pub stack_to : y.stack_top ≡ end_of scratch_y

-- The origin of the veneers is aligned.
veneer_at : align_up (origin veneer) 32 ≡ origin veneer
unfolding align_up
veneer_at = refl

s_place-IsSecureMap :
    (c : SecureContents) → IsSecureContents c → s_fits c ≡ true → IsSecureMap (s_place c)
unfolding s_place
s_place-IsSecureMap c ok fits = grind (arith, align_rules, veneer_at)

pub s_link-IsSecureMap :
    (c : SecureContents) (y : SecureMap) → IsSecureContents c → s_link c ≡ some y → IsSecureMap y
unfolding s_link
s_link-IsSecureMap c y ok h =
    let (fits, at) = if_some (s_fits c) (s_place c) y h in rw (← at) (s_place-IsSecureMap c ok fits)
