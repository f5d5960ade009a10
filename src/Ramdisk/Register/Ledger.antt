-- ===== src/Ramdisk/Register/Ledger.antt =====
-- What RamDiskRegister does with its pools on every path, and what the firmware keeps of them.
use cr_ow_s.Base.{
  ℕ, ◌≡◌, ◌||◌, ◌==◌, ◌^◌, ◌+◌, ◌-◌, ◌%◌, not, ◌&&◌, Bool, false, Option, none, some, List, [], ◌∷◌,
  ◌++◌, ◌∙◌, subst, refl, leb, ltb, if_both,
}
use cr_ow_s.Base.Status.{Status, is_error}
use cr_ow_s.Base.Memory.{EfiLib}
use cr_ow_s.Ramdisk.{PrivateData, init_device_node}
use cr_ow_s.Ramdisk.Pools.{Pool, Event, same, ledger, ledger-append}
use cr_ow_s.Ramdisk.Nfit.{publish_nfit}
use cr_ow_s.Ramdisk.Nfit.Ledger.{own, publish_nfit-ledger}
use cr_ow_s.Ramdisk.Register.{
  Firmware, Outcome, returned, panicked, unanswered, new_disk, error_exit, finish, register_disk,
  register, allocations,
}

-- What the caller finds held afterwards: the private data and its device path if the disk was left
-- behind, and nothing else.
abbrev pub kept : Option PrivateData → Pool → Bool
kept none q = false
kept (some p) q = same Pool.private_data q || same Pool.device_path q

data Balanced : Outcome → Type 0 where
  ends :
      {s : Status} {d : Option PrivateData} {path : Option ℕ} {es : List Event}
      → ((q : Pool) → ledger q false es ≡ some (kept d q))
      → Balanced (returned s d path es)
  stops : {es : List Event} → Balanced (panicked es)
  waits : Balanced unanswered

balance :
    {s : Status} {d : Option PrivateData} {path : Option ℕ} {es : List Event}
    → Balanced (returned s d path es)
    → (q : Pool) → ledger q false es ≡ some (kept d q)
balance (ends h) = h

abbrev ready : List Event
ready =
    allocations ++ (Event.installed ∷ Event.connected ∷ []) ++ (Event.freed Pool.device_node ∷ [])

ready-kept : (p : PrivateData) (q : Pool) → ledger q false ready ≡ some (kept (some p) q)
ready-kept p Pool.private_data = refl
ready-kept p _ = refl

module _ (lib : EfiLib) (release_date : ℕ) (f : Firmware) where
  finish-Balanced :
      (p : PrivateData) (path : ℕ) (r : Option (Status × List Event))
      → publish_nfit lib release_date p f.acpi ≡ r
      → Balanced (finish p path ready r)
  unfolding finish
  finish-Balanced p path none e = waits
  finish-Balanced p path (some (s, es)) e = ends (λ q.
      ledger-append q false _ ready es (ready-kept p q)
      ∙ publish_nfit-ledger lib release_date p f.acpi s es e q _ (disjoint q))
    where
      disjoint : (q : Pool) → (kept (some p) q && own q) ≡ false
      disjoint Pool.private_data = refl
      disjoint _ = refl

  early :
      (es : List Event) (s : Status) (path : Option ℕ)
      → ledger Pool.private_data false es ≡ some false
      → ledger Pool.device_node false es ≡ some false
      → ledger Pool.device_path false es ≡ some false
      → ledger Pool.path_text false es ≡ some false
      → ledger Pool.memory_map false es ≡ some false
      → ledger Pool.nfit false es ≡ some false
      → Balanced (returned s none path es)
  early es s path h1 h2 h3 h4 h5 h6 = ends all
    where
      all : (q : Pool) → ledger q false es ≡ some false
      all Pool.private_data = h1
      all Pool.device_node = h2
      all Pool.device_path = h3
      all Pool.path_text = h4
      all Pool.memory_map = h5
      all Pool.nfit = h6

  register_disk-Balanced : (new : PrivateData) → Balanced (register_disk lib release_date f new)
  unfolding register_disk error_exit
  register_disk-Balanced new =
      if_both Balanced (not f.private_pool) (early _ _ _ refl refl refl refl refl refl) (
        if_both Balanced (not f.node_pool) (early _ _ _ refl refl refl refl refl refl) (
          if_both Balanced (f.path (init_device_node new) == 0)
            (early _ _ _ refl refl refl refl refl refl)
            (if_both Balanced (is_error f.install) (early _ _ _ refl refl refl refl refl refl) (
              if_both Balanced (is_error f.connect) (early _ _ _ refl refl refl refl refl refl)
                (if_both Balanced (not f.acpi.present) stops (finish-Balanced _ _ _ refl))))))

  register-Balanced :
      (base size : ℕ) (type : Option ℕ) (has_path : Bool)
      → Balanced (register lib release_date f base size type has_path)
  unfolding register
  register-Balanced base size none has_path = early _ _ _ refl refl refl refl refl refl
  register-Balanced base size (some guid) has_path =
      if_both Balanced ((size == 0) || not has_path) (early _ _ _ refl refl refl refl refl refl) (
        if_both Balanced (not (size % 512 == 0)) (early _ _ _ refl refl refl refl refl refl) (
          if_both Balanced (leb (2 ^ 64 - 1) size || ltb (2 ^ 64 - 1 - size + 1) base)
            (early _ _ _ refl refl refl refl refl refl)
            (register_disk-Balanced (new_disk base size guid))))

  -- Whatever the firmware answers and whatever the arguments are, when RamDiskRegister returns, the
  -- private data and the device path are held if the disk was left behind, and no pool is held if it
  -- was not; no pool is freed twice, and none is lost.
  pub register-ledger :
      (base size : ℕ) (type : Option ℕ) (has_path : Bool) (s : Status) (d : Option PrivateData)
      (path : Option ℕ) (es : List Event)
      → register lib release_date f base size type has_path ≡ returned s d path es
      → (q : Pool) → ledger q false es ≡ some (kept d q)
  register-ledger base size type has_path s d path es h =
      balance (subst Balanced h (register-Balanced base size type has_path))
