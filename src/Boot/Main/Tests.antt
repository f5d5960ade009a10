-- ===== src/Boot/Main/Tests.antt =====
-- The loader with one payload: a wrong password, then the right one.
use cr_ow_s.Base.{ap, length, get_or, ℕ, ◌≡◌, refl, true, false, List, [], ◌∷◌, some, map, arith}
use cr_ow_s.Base.Status.{Status}
use cr_ow_s.Input.Exact.{see_key}
use cr_ow_s.Util.Worker.{MftahStatus}
use cr_ow_s.Loader.{select_payload}
use cr_ow_s.Loader.Discover.{Answer, discover_payloads, list_files, is_payload, discovery_of}
use cr_ow_s.Ramdisk.Register.{entry_point}
use cr_ow_s.Boot.Files.{file_size}
use cr_ow_s.Boot.Password.Answers.{IsReadable}
use cr_ow_s.Boot.Payload.{load_and_decrypt}
use cr_ow_s.Boot.Course.{Step, End, stops, after_load, environment_initialize, acpi_load_driver}
use cr_ow_s.Boot.Main.{efi_main, visit, after_selection, attempt}
use cr_ow_s.Boot.Main.Tries.{Tries, after_steps, attempt-Tries}
use cr_ow_s.Boot.Main.Origin.{Scene, visit_of, FromDirectory, AllChosen, efi_main-AllChosen}
use cr_ow_s.Boot.Samples.{empty, mftah, handle, world, startup, with_key}

file-IsReadable : IsReadable mftah (world.file 10)
unfolding file_size
file-IsReadable = record { long = refl; aligned = refl; is_read = refl; whole = refl }

wrong : Tries world 10 false (with_key b'o') (b'o' ∷ []) MftahStatus.invalid_password
unfolding see_key
wrong = record {
  keys = some b'o' ∷ [];
  enter = 0x0d;
  rest = [];
  more = [];
  prompted = refl;
  no_enter = (refl, tt);
  is_end = refl;
  is_password = record {
    given = λ e. absurd (ground (arith, ap length e));
    no_quit = λ e. absurd (ground (arith, ap (λ (l : List ℕ). get_or l 0 0) e));
    no_return = λ several e. absurd (ground (arith, several));
  };
  typed = refl;
  rewinds = refl;
  parsed = refl;
  answered = refl;
}

right : Tries world 10 false (with_key b'p') (b'p' ∷ []) MftahStatus.success
unfolding see_key
right = record {
  keys = some b'p' ∷ [];
  enter = 0x0d;
  rest = [];
  more = [];
  prompted = refl;
  no_enter = (refl, tt);
  is_end = refl;
  is_password = record {
    given = λ e. absurd (ground (arith, ap length e));
    no_quit = λ e. absurd (ground (arith, ap (λ (l : List ℕ). get_or l 0 0) e));
    no_return = λ several e. absurd (ground (arith, several));
  };
  typed = refl;
  rewinds = refl;
  parsed = refl;
  answered = refl;
}

attempt-Tries_example :
    attempt world 10 false (stops End.asking) 0 (with_key b'o' ∷ (with_key b'p' ∷ []))
    ≡ after_steps (Step.denied 10 ∷ (Step.confirmed 10 (b'p' ∷ []) ∷ [])) (
        after_load world
          (load_and_decrypt 2 mftah handle 0 Status.success 0x100000 (b'p' ∷ []) empty))
attempt-Tries_example =
    attempt-Tries world 10 false (stops End.asking) file-IsReadable (with_key b'o' ∷ []) []
      (with_key b'p') (b'p' ∷ []) ((b'o' ∷ [], wrong), tt) right

abbrev entry : ℕ → List ℕ → ℕ → Answer
entry size name handle = record {
  status = Status.success;
  size = size;
  name = name;
  opened = Status.success;
  handle = handle;
}

-- A directory of another file and a payload.
abbrev scene : Scene
scene = record {
  opening = record {
    loaded_image = Status.success;
    filesystem = Status.success;
    volume = Status.success;
    handles_pool = true;
    info_pool = true;
  };
  answers =
      entry 92 (b'E' ∷ (b'F' ∷ (b'I' ∷ []))) 9
      ∷ (entry 8000 (b'a' ∷ (b'.' ∷ (b'c' ∷ (b'r' ∷ (b'o' ∷ (b'w' ∷ (b's' ∷ []))))))) 10
          ∷ (entry 0 [] 0 ∷ []));
  info = λ h. some (b'a' ∷ []);
  typed = [];
  position = Status.success;
  attempts = [];
}

selects_the_payload :
    (efi_main world startup (map (visit_of world.strings) (scene ∷ []))).steps
    ≡ Step.selected 10 ∷ []
unfolding efi_main visit after_selection attempt select_payload discover_payloads list_files
    is_payload discovery_of environment_initialize acpi_load_driver entry_point
selects_the_payload = refl

efi_main-AllChosen_example :
    AllChosen
      (FromDirectory world.strings (scene ∷ []))
      (efi_main world startup (map (visit_of world.strings) (scene ∷ []))).steps
unfolding discover_payloads list_files is_payload
efi_main-AllChosen_example = efi_main-AllChosen world startup (scene ∷ []) (omega arith, tt)
