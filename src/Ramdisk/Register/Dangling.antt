-- ===== src/Ramdisk/Register/Dangling.antt =====
-- What RamDiskRegister leaves behind when ConnectController fails.
use cr_ow_s.Base.{
  ℕ, ◌+◌, ◌%◌, ◌^◌, ◌≤◌, ◌<◌, ◌≡◌, ◌≢◌, Bool, true, false, none, some, List, [], ◌∷◌, ◌++◌, refl,
  arith,
}
use cr_ow_s.Base.Status.{is_error}
use cr_ow_s.Base.Memory.{EfiLib}
use cr_ow_s.Ramdisk.{init_device_node}
use cr_ow_s.Ramdisk.Pools.{Pool, Event, ledger}
use cr_ow_s.Ramdisk.Register.{
  Firmware, returned, new_disk, error_exit, register_disk, register, allocations,
}

-- Whether the block I/O protocols inside the private data were installed. The driver never
-- uninstalls them.
abbrev pub serves : List Event → Bool
serves [] = false
serves (Event.installed ∷ es) = true
serves (_ ∷ es) = serves es

-- With valid arguments and enough memory, if the protocols are installed and ConnectController then
-- fails, RamDiskRegister returns its error; the firmware goes on offering the protocol instances,
-- while the private data that holds them has been freed.
pub register-dangling :
    (lib : EfiLib) (release_date : ℕ) (f : Firmware) (base size guid : ℕ)
    → 0 < size
    → size % 512 ≡ 0
    → size < 2 ^ 64
    → base + size ≤ 2 ^ 64
    → f.private_pool ≡ true
    → f.node_pool ≡ true
    → f.path (init_device_node (new_disk base size guid)) ≢ 0
    → is_error f.install ≡ false
    → is_error f.connect ≡ true
    → let path = f.path (init_device_node (new_disk base size guid)) in
      (es : List Event) × (register lib release_date f base size (some guid) true
        ≡ returned f.connect none (some path) es)
      × (serves es ≡ true)
      × (ledger Pool.private_data false es ≡ some false)
unfolding register register_disk error_exit
register-dangling lib release_date f base size guid h1 h2 h3 h4 h5 h6 h7 h8 h9 =
    (allocations ++ (Event.installed ∷ error_exit true true), ground arith, refl, refl)
