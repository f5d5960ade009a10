-- ===== src/Base/Status.antt =====
-- EFI_STATUS. The codes that the program names are constructors; any other error code and any
-- other code without the error bit are kept by their number.
use Prim.Native.Nat.{ℕ}
use mathlib.Core.Bool.{Bool, true, false}
use mathlib.Core.List.{List, [], ◌∷◌}
use mathlib.Core.Option.{Option, none, some}
use cr_ow_s.Base.Tests.{if◌then◌else◌}

pub data Status : Type 0 where
  success not_found invalid_parameter bad_buffer_size out_of_resources : Status
  buffer_too_small media_changed write_protected not_ready device_error : Status
  unsupported aborted already_started end_of_file : Status
  other_error : ℕ → Status
  warning : ℕ → Status

-- EFI_ERROR(): the error bit of the code.
abbrev pub is_error : Status → Bool
is_error success = false
is_error (warning _) = false
is_error _ = true

abbrev pub is_success : Status → Bool
is_success success = true
is_success _ = false

-- The first of several statuses that is an error.
abbrev pub first_error : List Status → Option Status
first_error [] = none
first_error (s ∷ ss) = if is_error s then some s else first_error ss
