-- ===== src/Loader/Discover/Tests.antt =====
-- DiscoverPayloads on a directory with one payload, behind a buffer that is too small for it.
use cr_ow_s.Base.{ℕ, true, List, [], ◌∷◌}
use cr_ow_s.Base.Status.{Status}
use cr_ow_s.Loader.Discover.{Answer, Opening}

abbrev opening : Opening
opening = record {
  loaded_image = Status.success;
  filesystem = Status.success;
  volume = Status.success;
  handles_pool = true;
  info_pool = true;
}

abbrev answer : Status → ℕ → List ℕ → ℕ → Answer
answer status size name handle = record {
  status = status;
  size = size;
  name = name;
  opened = Status.success;
  handle = handle;
}

abbrev directory : List Answer
directory =
    answer Status.success 92 (b'E' ∷ (b'F' ∷ (b'I' ∷ []))) 3
    ∷ (answer Status.buffer_too_small 8000 [] 0
        ∷ (answer Status.success 8000
              (b'a' ∷ (b'.' ∷ (b'c' ∷ (b'r' ∷ (b'o' ∷ (b'w' ∷ (b's' ∷ []))))))) 4
            ∷ (answer Status.success 0 [] 0 ∷ [])))
