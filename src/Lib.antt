-- ===== src/Lib.antt =====
-- Isolation on the RP2350: the two minimal examples and the TF-M reference files.
--
-- The program's parts. `examples/minimal-tz` splits an Arm core in two worlds: secure/tz_config.c
-- programs the SAU for the core and the DMA's own protection unit, secure/secure_service.c offers
-- two gateway functions on the key and the counter of secure/secret.c.
-- `examples/minimal-pmp/main.c` does the same on the RISC-V core: machine mode keeps a secret
-- behind the PMP, user mode asks for services by `ecall`, and the trap handler answers or halts.
-- `reference/target_cfg.c` and `reference/tfm_hal_isolation_rp2350.c` are the platform layer of
-- TF-M: SAU, ACCESSCTRL, DMA, and the MPU regions inside the Secure world.
--
-- The files.
--   Prelude: names and lemmas that all share: Boolean tests, lists, maps updated at one index,
--     the bit operations on words. `update` stands for a store or a register write.
--   Hw: the hardware as its manuals document it: the SAU with its banked registers and its rule
--     for overlaps, the DMA's protection unit with the default of its control register, byte memory
--     with word accesses, the PMP with NAPOT matching in granules of 32 bytes and PMPCFGM0, and the `ALIGN` of the linker.
--   Tz: examples/minimal-tz. Layout is include/tz_layout.h; Config is secure/tz_config.c; Secret
--     is secure/secret.c; Service is secure/secure_service.c; Start is secure/main_s.c; Client is
--     nonsecure/main_ns.c; Main runs the two worlds together; Attack is any Non-Secure program as
--     a relation of steps, and Secrecy one that acts by what it sees. Objects puts the key and
--     the counter, which a `World` holds apart, into memory. Linker is the two linker
--     scripts, nonsecure/linker_ns.ld and secure/linker_s.ld, and what they give the rest. A
--     function of the source has a definition of its name, from the registers or the memory
--     before to those after.
--   Pmp: examples/minimal-pmp/main.c. Link has the objects and the mailbox, Isolate `pmp_napot`
--     and `pmp_isolate_secret`, Sign `svc_sign`, Trap `trap_dispatch`, Entry the assembly of
--     `trap_entry`, Access the loads, stores and calls under the PMP, Main `main` and
--     `u_mode_entry`, and Attack any user-mode program as a relation of steps.
--   Tfm: the files of reference/. Sau, Dma, Filter and Periph are target_cfg.c; Mpu is the
--     interface of armv8m_mpu.h; Isolation, with Bind and Handle, is tfm_hal_isolation_rp2350.c,
--     and its Access what the MPU lets unprivileged code do; Flash is flash_layout.h, Defs is
--     region_defs.h, and Linker is linker_s.ld, whose symbols Isolation takes, with the MPU (Bound)
--     and the SAU and the DMA's unit (Sealed) on the image that it links; LinkerNs is linker_ns.ld.
--   Examples: the theorems at concrete inputs.
--
-- Conventions. A word of 32 bits is a natural number; sums that wrap are written with `u32`,
-- casts to a byte with `u8`, and a negative `int` by its two's complement. Pointers are
-- addresses; a null pointer is `none` or 0 as the source tests it. A loop is a recursion on the
-- rounds left, so it ends; a loop for ever is the outcome `halted`. `trailing_ones` counts on
-- fuel 32, the width of a PMP address register; `hits` and `open_below` count down the eight
-- regions of their units, and `pmp_allows` looks at the four entries that `pmpcfg0` packs.
-- `open_from` runs on fuel; 55 rounds are the 54 registers and the test that ends the loop.
-- `clear_bss` runs on fuel; a round clears a word, and 0x10000 rounds are the words of Non-Secure
-- RAM.
--
-- Parameters. What the SDK, CMSIS and the compiler give is a parameter with its documented
-- behaviour as a hypothesis: PPB_BASE (`IsPpbBase`), `cmse_check_address_range` (`Cmse`,
-- `CheckApi`), the masks and functions of the SAU, DMA and MPU headers (`SauApi`, `DmaApi`,
-- `MpuApi`), ACCESSCTRL as a device on a bus (`Bus`, `IsAccessctrl`), the build switches
-- (`Build`, `Switches`), the address map and the header sizes (`Regions`, `Platform`, `Bases`;
-- how the platform fills `memory_regions` is `IsFilled`), what the linker places (`Link`,
-- `Symbols`, `NsImage`), the sizes and alignments of what the object files hold (`NsContents`,
-- `SecureContents`, `Image`, `Alignments`), and what the compiler and the hardware decide about
-- an access or a trap, with what runs at addresses that are no entry of the program (`Site`).
--
-- Not modelled. Barriers order accesses and leave no value; console output has no effect on the
-- state. What the compiler keeps
-- on the trap stack below the saved frame is no state of the source. Other sizes of heaps and
-- stacks, names of drivers and constants of reference/ that only other code reads are left out.
-- Of the linker scripts the choice of the input sections and the symbols of the C library are
-- left out, and of reference/linker_s.ld builds with code sharing, vectors or code in RAM, or a
-- vector table size, and its scratch banks; of reference/linker_ns.ld where initial data is kept
-- in flash, and builds without the size of the vectors or the scratch banks.
pub mod Prelude
pub mod Hw
pub mod Tz
pub mod Pmp
pub mod Tfm
pub mod Examples
