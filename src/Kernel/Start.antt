-- ===== src/Kernel/Start.antt =====
-- kmain, src/kernel/core/main.c, from the registers that the boot loader leaves. Its own
-- messages and their buffer are left out.
pub mod Entered
mod Tests
use cr_ow_s.Base.{ℕ, ◌+◌, ◌%◌, ◌^◌, not, ◌||◌, List, ltb, ◌==◌, if◌then◌else◌}
use cr_ow_s.Base.Memory.{Memory}
use cr_ow_s.Kernel.{load32}
use cr_ow_s.Kernel.Init.{Context, Boot, Outcome, kinit}
use cr_ow_s.Kernel.Init.Printing.{print_hole}

-- MULTIBOOT_INFO_MAGIC
abbrev pub information_magic : ℕ
information_magic = 0x36d76289

-- expected_minimum_multiboot_info_size: the sizes of the information's header and of the tags for
-- the command line, the loader's name, the framebuffer, a 64-bit pointer and the EFI memory map.
abbrev pub least_information : ℕ
least_information = 8 + 8 + 8 + 40 + 16 + 16

-- The two returns with a PANIC message before kinit, or what kinit returned; kmain returns after
-- either of its results.
pub data Start : Type 0 where
  no_information too_small : Start
  entered : Outcome → Start

-- kmain with the fuel of kinit's loops, the stale string for snprintf, RAX, RBX, and the context as
-- the stack happens to hold it.
pub kmain : ℕ → List ℕ → ℕ → ℕ → Context → Memory → Start
kmain fuel stale rax rbx stack m =
    let info = rbx % 2 ^ 32 in
    if not (rax % 2 ^ 32 == information_magic) || (info == 0)
    then no_information
    else if ltb (load32 m info) least_information
    then too_small
    else entered (kinit fuel (print_hole stale) info (record { context = stack; memory = m }))
