-- ===== src/Tz/Linker/Image.antt =====
-- An image that linker_ns.ld accepts is one that the Secure world can run.
use rp2350_tz_tee.Prelude.{ℕ, ◌+◌, ◌*◌, ◌%◌, ◌≤◌, ◌<◌, ◌≡◌, ◌⊎◌, arith, some}
use rp2350_tz_tee.Prelude.Lists.{get_or}
use rp2350_tz_tee.Hw.Memory.{Memory, load32}
use rp2350_tz_tee.Tz.Layout.{ns_flash_start}
use rp2350_tz_tee.Tz.Client.{NsImage, ns_vectors}
use rp2350_tz_tee.Tz.Main.Run.{IsImage}
use rp2350_tz_tee.Tz.Linker.Ns.{NsContents, NsMap, IsContents, ns_link, ns_link-IsNsMap}

-- The image takes its addresses from the symbols of the script, its blob in flash starts with the
-- vector table, and the two arrays lie on the stack.
pub record IsBuilt (y : NsMap) (g : NsImage) (m : Memory) : Type 0 where
  pub bss_from : g.bss_start ≡ y.bss_start
  pub bss_to : g.bss_end ≡ y.bss_end
  pub stack : g.stack_top ≡ y.stack_top
  pub blob : (i : ℕ) → i < 4 → load32 m (ns_flash_start + 4 * i) ≡ get_or (ns_vectors g) i 0
  pub thumb : g.reset % 2 ≡ 1
  pub challenge_low : y.stack_bottom ≤ g.challenge
  pub challenge_high : g.challenge + 16 ≤ y.stack_top
  pub result_low : y.stack_bottom ≤ g.result
  pub result_high : g.result + 16 ≤ y.stack_top
  pub apart : (g.challenge + 16 ≤ g.result) ⊎ (g.result + 16 ≤ g.challenge)

-- Every Non-Secure image that linker_ns.ld links, the alignments of its sections positive, with
-- its blob's vector table in flash and its two arrays on the stack, meets what the run of the demo
-- asks of an image: bss in whole words inside Non-Secure RAM, and the arrays in Non-Secure RAM,
-- apart from each other and from the mailbox.
pub ns_link-IsImage :
    (c : NsContents) (y : NsMap) (g : NsImage) (m : Memory)
    → IsContents c
    → ns_link c ≡ some y
    → IsBuilt y g m
    → IsImage g m
ns_link-IsImage c y g m ok linked built =
    let p = ns_link-IsNsMap c y ok linked in
    record {
      vectors = built.blob;
      thumb = built.thumb;
      bss = (omega arith, omega arith);
      bss_order = omega arith;
      bss_words = omega arith;
      stack = record {
        apart = built.apart;
        challenge_mb = ground arith;
        result_mb = ground arith;
        challenge_fits = omega arith;
        result_fits = omega arith;
      };
      challenge_ram = (omega arith, omega arith);
      result_ram = (omega arith, omega arith);
    }
