-- ===== src/Loader/Names/Tests.antt =====
-- A prefix of one name that is another name.
use cr_ow_s.Base.{List, [], ◌∷◌}
use cr_ow_s.Loader.{File, named}

abbrev files : List File
files = named 10 (b'R' ∷ b'O' ∷ b'O' ∷ []) ∷ (named 12 (b'R' ∷ b'O' ∷ []) ∷ [])
