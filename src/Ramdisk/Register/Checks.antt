-- ===== src/Ramdisk/Register/Checks.antt =====
-- What a successful registration says about the disk.
use cr_ow_s.Base.{
  ℕ, ◌+◌, ◌%◌, ◌^◌, ◌≤◌, ◌<◌, ◌≡◌, ◌==◌, not, Bool, Option, none, some, List, arith, if_both,
  if_elim, ◌-◌, ◌||◌, leb, ltb, subst, refl, false,
}
use cr_ow_s.Base.Status.{Status, is_error}
use cr_ow_s.Base.Memory.{EfiLib}
use cr_ow_s.Ramdisk.{PrivateData, init_block_io, init_device_node}
use cr_ow_s.Ramdisk.Pools.{Event}
use cr_ow_s.Ramdisk.BlockIo.Bounds.{IsRegistered, init_block_io-IsRegistered}
use cr_ow_s.Ramdisk.Register.{
  Firmware, Outcome, returned, panicked, unanswered, new_disk, finish, register_disk, register,
}

-- Every disk that an outcome leaves behind has the property.
data Leaves (P : PrivateData → Type 0) : Outcome → Type 0 where
  no_disk : {s : Status} {path : Option ℕ} {es : List Event} → Leaves P (returned s none path es)
  one_disk :
      {s : Status} {p : PrivateData} {path : Option ℕ} {es : List Event}
      → P p
      → Leaves P (returned s (some p) path es)
  stopped : {es : List Event} → Leaves P (panicked es)
  waits : Leaves P unanswered

left_disk :
    {P : PrivateData → Type 0} {s : Status} {p : PrivateData} {path : Option ℕ} {es : List Event}
    → Leaves P (returned s (some p) path es)
    → P p
left_disk (one_disk h) = h

-- The end of the device node is the last byte of the disk, also where base plus size is 2^64.
pub init_device_node-ending :
    {p : PrivateData} → IsRegistered p → (init_device_node p).ending + 1 ≡ p.starting_addr + p.size
unfolding init_device_node
init_device_node-ending r = ground arith

-- A disk of these numbers, ready for block I/O.
pub record Describes (base size guid : ℕ) (p : PrivateData) : Type 0 where
  pub ready : IsRegistered p
  pub at_base : p.starting_addr ≡ base
  pub of_size : p.size ≡ size
  pub of_type : p.type_guid ≡ guid
  pub writable : p.media.read_only ≡ false

finish-Leaves :
    {P : PrivateData → Type 0} (p : PrivateData) (path : ℕ) (done : List Event)
    (r : Option (Status × List Event))
    → P p
    → Leaves P (finish p path done r)
unfolding finish
finish-Leaves p path done none h = waits
finish-Leaves p path done (some r) h = one_disk h

module _ (lib : EfiLib) (release_date : ℕ) (f : Firmware) (base size guid : ℕ) where
  abbrev Fine : Outcome → Type 0
  Fine = Leaves (Describes base size guid)

  described :
      0 < size
      → size % 512 ≡ 0
      → base + size ≤ 2 ^ 64
      → size < 2 ^ 64
      → (path handle : ℕ)
      → Describes base size guid
          (record (init_block_io lib (record (new_disk base size guid) { device_path = path })) {
            handle = handle;
          })
  unfolding new_disk init_block_io
  described h1 h2 h3 h4 path handle =
      let disk = record (new_disk base size guid) { device_path = path } in
      let r = init_block_io-IsRegistered lib disk h1 h2 h3 h4 in
      record {
        ready = record {
          some_size = r.some_size;
          whole = r.whole;
          in_space = r.in_space;
          bounded = r.bounded;
          blocks = r.blocks;
          last = r.last;
        };
        at_base = refl;
        of_size = refl;
        of_type = refl;
        writable = refl;
      }

  register_disk-Leaves :
      0 < size
      → size % 512 ≡ 0
      → base + size ≤ 2 ^ 64
      → size < 2 ^ 64
      → Fine (register_disk lib release_date f (new_disk base size guid))
  unfolding register_disk
  register_disk-Leaves h1 h2 h3 h4 = if_both Fine (not f.private_pool) no_disk (
      if_both Fine (not f.node_pool) no_disk (
        if_both Fine (f.path (init_device_node (new_disk base size guid)) == 0) no_disk (
          if_both Fine (is_error f.install) no_disk (
            if_both Fine (is_error f.connect) no_disk (
              if_both Fine (not f.acpi.present) stopped
                (finish-Leaves _ _ _ _ (described h1 h2 h3 h4 _ _)))))))

  register-Leaves :
      (type : Option ℕ) (has_path : Bool)
      → type ≡ some guid
      → Fine (register lib release_date f base size type has_path)
  unfolding register
  register-Leaves type has_path e = rw e (
      if_elim Fine ((size == 0) || not has_path) (λ _. no_disk)
        (λ a.
          if_elim Fine (not (size % 512 == 0)) (λ _. no_disk)
            (λ b.
              if_elim Fine (leb (2 ^ 64 - 1) size || ltb (2 ^ 64 - 1 - size + 1) base)
                (λ _. no_disk)
                (λ c.
                  register_disk-Leaves (ground arith) (ground arith) (ground arith)
                    (ground arith)))))

  -- Whatever the firmware answers, a disk that RamDiskRegister of a given type leaves behind has the
  -- base, the size and the type of the call, is a positive number of whole blocks that ends inside
  -- the address space, and its media describe exactly these blocks, which can be written.
  pub register-Describes :
      (has_path : Bool) (s : Status) (p : PrivateData) (path : Option ℕ) (es : List Event)
      → register lib release_date f base size (some guid) has_path ≡ returned s (some p) path es
      → Describes base size guid p
  register-Describes has_path s p path es h =
      left_disk (subst Fine h (register-Leaves (some guid) has_path refl))
