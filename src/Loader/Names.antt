-- ===== src/Loader/Names.antt =====
-- A payload is selected by its whole name only: the comparison that is meant for a prefix counts
-- bytes where StrnCmp counts characters. The loop over the files in SelectPayload,
-- src/boot/mftah_uefi/loader.c.
mod Tests
use cr_ow_s.Base.{ℕ, subst, true, List, [], ◌∷◌, Option, none, some, if◌then◌else◌, ◌==◌}
use cr_ow_s.Base.Status.{Status, is_error}
use cr_ow_s.Loader.{
  StringLib, File, named, nameless, Typed, Discovery, select_payload, placed, Selection, selected,
  panicked, shut_down, asking, ask, valid_choice, valid_or, max_filename_length,
}

-- The first handle whose name is the selection, compared in upper case.
unfoldable pub first_named : StringLib → List ℕ → List File → Option ℕ
first_named lib upper [] = none
first_named lib upper (nameless handle ∷ fs) = first_named lib upper fs
first_named lib upper (named handle file_name ∷ fs) =
    let rest = first_named lib upper fs in
    if lib.strn_equal upper (lib.str_upr file_name) max_filename_length then some handle else rest

abbrev first_of : List ℕ → ℕ
first_of [] = 0
first_of (x ∷ xs) = x

abbrev rest_of : List ℕ → List ℕ
rest_of [] = []
rest_of (x ∷ xs) = xs
