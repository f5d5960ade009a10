-- ===== src/Boot/Hints/Untouched.antt =====
-- What SetEfiVarsHints leaves alone.
use cr_ow_s.Base.{ℕ, ◌+◌, ◌≤◌, ◌<◌, ◌≡◌, ◌⊎◌, refl, ◌∙◌, if_both, ◌==◌}
use cr_ow_s.Base.Status.{is_error}
use cr_ow_s.Base.Memory.{Memory, EfiLib}
use cr_ow_s.Boot.Hints.{Variable, Firmware, Hints, hash_bytes, store_hash, set_efi_vars_hints}

module _ (lib : EfiLib) (f : Firmware) (image length loader payload : ℕ) (before : Memory)
    (a : ℕ) where
  abbrev Same : Hints → Type 0
  Same h = h.memory a ≡ before a

  -- Memory beside the two pools is as it was before.
  pub hints-untouched :
      (a < (f.allocate Variable.loader_hash).1)
        ⊎ ((f.allocate Variable.loader_hash).1 + hash_bytes ≤ a)
      → (a < (f.allocate Variable.payload_hash).1)
        ⊎ ((f.allocate Variable.payload_hash).1 + hash_bytes ≤ a)
      → (set_efi_vars_hints lib f image length loader payload before).memory a ≡ before a
  unfolding set_efi_vars_hints store_hash
  hints-untouched beside_first beside_second =
      let first = (f.allocate Variable.loader_hash).1 in
      let second = (f.allocate Variable.payload_hash).1 in
      let m = lib.copy_mem first loader hash_bytes before in
      let one : m a ≡ before a =
        lib.copy_mem-outside first loader hash_bytes before a beside_first in
      let both : lib.copy_mem second payload hash_bytes m a ≡ before a =
        lib.copy_mem-outside second payload hash_bytes m a beside_second ∙ one in
      if_both Same (is_error (f.set_variable Variable.rd_base)) refl (
        if_both Same (is_error (f.set_variable Variable.rd_size)) refl (
          if_both Same (is_error (f.allocate Variable.loader_hash).0) refl (
            if_both Same (first == 0) refl (
              if_both Same (is_error (f.set_variable Variable.loader_hash)) one (
                if_both Same (is_error (f.allocate Variable.payload_hash).0) one (
                  if_both Same (second == 0) one
                    (if_both Same (is_error (f.set_variable Variable.payload_hash)) both both)))))))
