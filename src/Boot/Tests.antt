-- ===== src/Boot/Tests.antt =====
-- The loader's course with one payload: a wrong password, then the right one.
use cr_ow_s.Base.{ap, length, ℕ, refl, true, List, [], ◌∷◌, Option, some, none, arith, inl}
use cr_ow_s.Base.Status.{Status}
use cr_ow_s.Base.Memory.{plain_lib}
use cr_ow_s.Input.Session.{press, turns}
use cr_ow_s.Input.Exact.{seen, nothing_seen, see_key}
use cr_ow_s.Loader.Samples.{strings}
use cr_ow_s.Boot.Samples.{two_tries, content, handle, handle-Serves, mftah, empty, hints, volumes}
use cr_ow_s.Boot.Payload.{load_and_decrypt}
use cr_ow_s.Boot.Payload.Fates.{load_and_decrypt-Fate}
use cr_ow_s.Boot.Payload.Fates
use cr_ow_s.Boot.Password.{get_password, check_password, char8, max_pw_len}
use cr_ow_s.Boot.Password.Check
use cr_ow_s.Boot.Password.Check.{check_password-Fate}
use cr_ow_s.Boot.Password.Typed.{Meant, get_password-Meant}
use cr_ow_s.Boot.Password.Asked.{IsPassword, Asks, typed_password-Asks}
use cr_ow_s.Boot.Hints.{set_efi_vars_hints}
use cr_ow_s.Boot.Hints.Fates as HintFates
use cr_ow_s.Boot.Hints.Fates.{set_efi_vars_hints-Fate}
use cr_ow_s.Boot.Jump.{jump_to_ramdisk}
use cr_ow_s.Boot.Jump.Fates.{Jumped, jump_to_ramdisk-Jumped}
use cr_ow_s.Boot.Course.Phases.{Runs}
use cr_ow_s.Boot.Main.{Visit}

load_and_decrypt-Fate_example :
    Fates.Fate mftah content 640 Status.success 0x100000
      (b'p' ∷ [])
      empty
      (load_and_decrypt 3 mftah handle 0 Status.success 0x100000 (b'p' ∷ []) empty)
load_and_decrypt-Fate_example =
    load_and_decrypt-Fate mftah content 640 Status.success 0x100000 (b'p' ∷ []) empty handle 3
      handle-Serves (omega arith) (omega arith) (omega arith)

check_password-Fate_example :
    Check.Fate mftah content 640 0x5000 Status.success
      (char8 (b'p' ∷ 0 ∷ []) 2)
      empty
      (check_password mftah handle 0 0x5000 Status.success (b'p' ∷ 0 ∷ []) 2 empty)
check_password-Fate_example =
    check_password-Fate mftah content 640 0x5000 Status.success (b'p' ∷ 0 ∷ []) 2 empty handle
      handle-Serves

-- `q`, `a`, backspace and Enter: the text is `q`, and the buffer still holds `qa`.
abbrev keys : List (Option ℕ)
keys = some b'q' ∷ none ∷ some b'a' ∷ some 8 ∷ []

get_password-Meant_example :
    Meant true (seen max_pw_len nothing_seen keys) (get_password strings true []) (
      get_password strings true
        (record { reset = Status.success; rounds = turns keys (press 0x0d ∷ []) } ∷ []))
get_password-Meant_example =
    get_password-Meant strings true keys 0x0d [] [] (refl, (refl, (refl, tt))) refl

-- The text `q` with `a` erased behind it is a password.
keys-IsPassword : IsPassword true (record { text = b'q' ∷ []; cell = b'a' })
keys-IsPassword = record {
  given = λ e. absurd (ground (arith, ap length e));
  no_quit = λ e. absurd (ground (arith, ap length e));
  no_return = λ several e. absurd (ground (arith, ap length e));
}

typed_password-Asks_example :
    Asks mftah content 640 0x5000 Status.success empty handle handle-Serves (b'q' ∷ []) (
      get_password strings true
        (record { reset = Status.success; rounds = turns keys (press 0x0d ∷ []) } ∷ []))
unfolding see_key
typed_password-Asks_example =
    typed_password-Asks mftah content 640 0x5000 Status.success empty handle handle-Serves strings
      true keys 0x0d [] [] (refl, (refl, (refl, tt))) refl keys-IsPassword

set_efi_vars_hints-Fate_example :
    HintFates.Fate hints 0x100080 512 0x4000 0x5000 empty
      (set_efi_vars_hints plain_lib hints 0x100080 512 0x4000 0x5000 empty)
set_efi_vars_hints-Fate_example =
    set_efi_vars_hints-Fate plain_lib hints 0x100080 512 0x4000 0x5000 empty (inl (omega arith))
      (inl (omega arith))

jump_to_ramdisk-Jumped_example :
    Jumped Status.success Status.success Status.success volumes
      (jump_to_ramdisk Status.success Status.success Status.success volumes)
jump_to_ramdisk-Jumped_example =
    jump_to_ramdisk-Jumped Status.success Status.success Status.success volumes

abbrev visits : List Visit
visits = two_tries ∷ []
