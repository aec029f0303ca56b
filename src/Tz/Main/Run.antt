-- ===== src/Tz/Main/Run.antt =====
-- The end of every run of the demo, and what it leaves of the Secure world's memory.
use rp2350_tz_tee.Prelude.{ℕ, ◌+◌, ◌-◌, ◌*◌, ◌%◌, ◌^◌, ◌≤◌, ◌<◌, ◌≡◌, ◌⊎◌}
use rp2350_tz_tee.Prelude.Lists.{get_or}
use rp2350_tz_tee.Prelude.Words.{u32}
use rp2350_tz_tee.Hw.Memory.{Memory, IsBytes, load32}
use rp2350_tz_tee.Tz.Layout.{s_ram_start, s_ram_limit, ns_flash_start, ns_ram_start, ns_ram_limit}
use rp2350_tz_tee.Tz.Config.Attribution.{IsPpbBase, UnusedOff}
use rp2350_tz_tee.Tz.Service.Sign.{IsAccepted}
use rp2350_tz_tee.Tz.Start.{
  s_result, sr_mark, sr_sfsr, sr_ns_cnt1, sr_ns_cnt2, sr_ns_sign_rc, sr_ns_sign_r0, sr_ns_leaked,
  sr_ns_stage, launch_nonsecure,
}
use rp2350_tz_tee.Tz.Client.{World, NsImage, clear_bss, ns_vectors}
use rp2350_tz_tee.Tz.Objects.{Objects}
use rp2350_tz_tee.Tz.Client.Run.{IsStack}
use rp2350_tz_tee.Tz.Main.{System, Setting}

-- `size` bytes from `a` lie in Non-Secure RAM.
abbrev InNsRam : ℕ → ℕ → Type 0
InNsRam a size = (ns_ram_start ≤ a) × (a + size ≤ ns_ram_limit + 1)

-- The Non-Secure image: its table at the start of its flash, its objects in its RAM.
pub record IsImage (g : NsImage) (m : Memory) : Type 0 where
  pub vectors : (i : ℕ) → i < 4 → load32 m (ns_flash_start + 4 * i) ≡ get_or (ns_vectors g) i 0
  pub thumb : g.reset % 2 ≡ 1
  pub bss : InNsRam g.bss_start (g.bss_end - g.bss_start)
  pub bss_order : g.bss_start ≤ g.bss_end
  pub bss_words : (g.bss_end - g.bss_start) % 4 ≡ 0
  pub stack : IsStack g.challenge g.result
  pub challenge_ram : InNsRam g.challenge 16
  pub result_ram : InNsRam g.result 16

-- The two images, the chip out of reset, and the checks that accept the client's arrays.
pub record IsReady (e : Setting) (s : System) : Type 0 where
  pub ppb : IsPpbBase e.ppb_base
  pub unused : UnusedOff s.chip.sau
  pub bytes : IsBytes s.world.mem
  pub image : IsImage e.image s.world.mem
  pub accepted : IsAccepted e.cmse e.image.challenge e.image.result 16
  pub array_low : s_ram_start ≤ e.result_array
  pub array_high : e.result_array + 32 ≤ s_ram_limit + 1
  pub status : e.sfsr < 2 ^ 32
  pub enough : 0x1_0000 ≤ e.fuel

-- `s_result` after the fault, for the counter at the start.
pub record IsReport (e : Setting) (start : ℕ) (m : Memory) : Type 0 where
  pub mark : load32 m (s_result e.result_array sr_mark) ≡ 0x5ECF_0000
  pub sfsr : load32 m (s_result e.result_array sr_sfsr) ≡ e.sfsr
  pub cnt1 : load32 m (s_result e.result_array sr_ns_cnt1) ≡ u32 (start + 1)
  pub cnt2 : load32 m (s_result e.result_array sr_ns_cnt2) ≡ u32 (start + 2)
  pub sign_rc : load32 m (s_result e.result_array sr_ns_sign_rc) ≡ 0
  pub sign_r0 : load32 m (s_result e.result_array sr_ns_sign_r0) ≡ 0xA9DD_58A4
  pub leaked : load32 m (s_result e.result_array sr_ns_leaked) ≡ 0
  pub stage : load32 m (s_result e.result_array sr_ns_stage) ≡ 0xBAD0

-- An address outside Non-Secure RAM and outside `s_result`.
pub record IsSecureSide (e : Setting) (a : ℕ) : Type 0 where
  pub small : a < 2 ^ 32
  pub no_ns_ram : (a < ns_ram_start) ⊎ (ns_ram_limit < a)
  pub no_array : (a < e.result_array) ⊎ (e.result_array + 32 ≤ a)

-- `s_result` is apart from the two objects of secret.c.
pub record IsBeside (e : Setting) (o : Objects) : Type 0 where
  pub key_apart : (o.key_at + 16 ≤ e.result_array) ⊎ (e.result_array + 32 ≤ o.key_at)
  pub counter_apart : (o.counter_at + 4 ≤ e.result_array) ⊎ (e.result_array + 32 ≤ o.counter_at)

module _ (e : Setting) (s : System) (r : IsReady e s) where
  abbrev launched : Memory
  launched = (launch_nonsecure s.world.mem).mem

  abbrev entered : World
  entered = record (s.world) { mem = clear_bss e.fuel e.image.bss_start e.image.bss_end launched }
