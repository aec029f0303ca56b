-- ===== src/Tz/Main.antt =====
-- The whole of examples/minimal-tz: `main` of secure/main_s.c, the call into the Non-Secure image,
-- and the fault that brings it back to the Secure handler.
pub mod Run
use rp2350_tz_tee.Prelude.{ℕ, ◌+◌, Bool, ◌==◌, if◌then◌else◌}
use rp2350_tz_tee.Hw.Memory.{Memory}
use rp2350_tz_tee.Hw.Sau.{attribution}
use rp2350_tz_tee.Tz.Config.{Chip, tz_isolation_config}
use rp2350_tz_tee.Tz.Service.{Cmse}
use rp2350_tz_tee.Tz.Start.{
  Accessctrl, tz_accessctrl_open_ns, Handover, launch_nonsecure, isr_hardfault,
}
use rp2350_tz_tee.Tz.Client.{World, End, faulted, leaked, NsImage, ns_reset}
use rp2350_tz_tee.Tz.Client.Run.{is_nonsecure}

-- The isolation hardware, the registers of ACCESSCTRL, and the memory and counter.
pub record System : Type 0 where
  pub chip : Chip
  pub accessctrl : ℕ → ℕ
  pub world : World

-- What the SDK, the compiler and the linker give: the names of the headers, the stack buffers of
-- `secure_sign`, the Non-Secure image, the address of `s_result`, what the fault status register
-- reads, and fuel for the two loops that count up to a bound.
pub record Setting : Type 0 where
  pub ppb_base : ℕ
  pub bfhfnmins : ℕ
  pub registers : Accessctrl
  pub cmse : Cmse
  pub tmp_in : ℕ → ℕ
  pub tmp_out : ℕ → ℕ
  pub image : NsImage
  pub result_array : ℕ
  pub sfsr : ℕ
  pub fuel : ℕ

-- `main` up to the call of the Non-Secure entry.
unfoldable pub main : Setting → System → System × Handover
main e s =
    let h = launch_nonsecure s.world.mem in
    (
      record {
        chip = tz_isolation_config e.ppb_base e.bfhfnmins s.chip;
        accessctrl = tz_accessctrl_open_ns e.registers e.fuel s.accessctrl;
        world = record (s.world) { mem = h.mem };
      },
      h,
    )

-- What a load of the Non-Secure world may read.
abbrev pub readable : System → ℕ → Bool
readable s a = is_nonsecure (attribution s.chip.sau a)

-- The Secure handler has caught the client, the client holds the secret, or the entry that `main`
-- called is not the reset handler.
pub data Finish : Type 0 where
  caught disclosed : World → Finish
  astray : Finish

abbrev pub after_client : Setting → End → Finish
after_client e (faulted w) = caught (record w { mem = isr_hardfault e.result_array e.sfsr w.mem })
after_client e (leaked w) = disclosed w

-- The call clears the Thumb bit, and the fault escalates to the Secure HardFault.
unfoldable pub run : Setting → System → System × Finish
unfolding main
run e s =
    let (s', h) = main e s in
    (
      s',
      if h.entry + 1 == e.image.reset
          then after_client e
              (ns_reset e.image e.fuel e.cmse e.tmp_in e.tmp_out (readable s') s'.world)
          else astray,
    )
