-- ===== src/Kernel/Multiboot/Endless.antt =====
-- A tag of size 0 holds the search up: nothing in it counts the bytes that a round passes.
use cr_ow_s.Base.{ℕ, zero, suc, ◌+◌, ◌^◌, ◌<◌, ◌≡◌, ◌≢◌, refl, arith}
use cr_ow_s.Base.Memory.{Memory}
use cr_ow_s.Kernel.{load32}
use cr_ow_s.Kernel.Multiboot.{running, seek_from}

-- At a tag of another type whose size field is 0, inside the boot information, the search is still
-- at work after any number of rounds: it neither finds a tag nor gives up.
pub seek_from-endless :
    (m : Memory) (of_type limit p fuel : ℕ)
    → p < limit
    → p < 2 ^ 64
    → load32 m p ≢ of_type
    → load32 m (p + 4) ≡ 0
    → seek_from fuel m of_type limit p ≡ running
unfolding seek_from
seek_from-endless m of_type limit p zero inside in_space other still = refl
seek_from-endless m of_type limit p (suc fuel) inside in_space other still =
    let again = seek_from-endless m of_type limit p fuel inside in_space other still in
    ground (arith, again)
