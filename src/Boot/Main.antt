-- ===== src/Boot/Main.antt =====
-- efi_main, src/boot/mftah_uefi/main.c: the selection and the password loop.
pub mod Runs
pub mod Tries
pub mod Origin
mod Tests
use cr_ow_s.Base.{ℕ, Bool, true, false, not, List, [], ◌∷◌, if◌then◌else◌}
use cr_ow_s.Base.Status.{Status, is_error}
use cr_ow_s.Base.Memory.{Memory}
use cr_ow_s.Loader.{File, Discovery, select_payload}
use cr_ow_s.Loader
use cr_ow_s.Boot.Password.{Prompt, Entry, Verdict, get_password, check_password}
use cr_ow_s.Boot.Payload.{load_and_decrypt}
use cr_ow_s.Boot.Course.{
  World, Startup, Step, Course, End, halted, faulted, left, stops, ◌then◌, after_load,
  environment_initialize,
}

-- One turn of the password loop: the prompts, what SetPosition answers to CheckPassword and the
-- address of its buffer, what AllocatePool answers to LoadAndDecrypt, and memory at both calls.
pub record Attempt : Type 0 where
  pub prompts : List Prompt
  pub rewound : Status
  pub check_buffer : ℕ
  pub check_memory : Memory
  pub alloc : Status
  pub load_buffer : ℕ
  pub load_memory : Memory

-- One visit to the selection: what SelectPayload meets, and the attempts behind it.
pub record Visit : Type 0 where
  pub discovery : Discovery
  pub files : List File
  pub typed : List Loader.Typed
  pub position : Status
  pub attempts : List Attempt

-- What becomes of CheckPassword's verdict; `again` is the next attempt, from a position.
pub after_check : World → ℕ → Attempt → (ℕ → Course) → ℕ → Verdict → Course
after_check w handle a again pos (Verdict.right actual) =
    Step.confirmed handle actual
    then after_load w (
        load_and_decrypt w.fuel w.mftah (w.file handle) pos a.alloc a.load_buffer actual
          a.load_memory)
after_check w handle a again pos Verdict.wrong = Step.denied handle then again pos
after_check w handle a again pos (Verdict.failed s) = stops halted

pub after_entry : World → ℕ → Course → ℕ → Attempt → (ℕ → Course) → Entry → Course
after_entry w handle menu pos a again (Entry.entered password length) =
    let c =
      check_password w.mftah (w.file handle) pos a.check_buffer a.rewound password length
        a.check_memory in
    after_check w handle a again c.position c.verdict
after_entry w handle menu pos a again Entry.go_back = Step.went_back then menu
after_entry w handle menu pos a again Entry.shut_down = stops End.shut_down
after_entry w handle menu pos a again Entry.halted = stops halted
after_entry w handle menu pos a again Entry.asking = stops End.asking

-- The password loop for a payload that was selected, from a position of its file; `menu` is what
-- follows a return to the selection.
pub attempt : World → ℕ → Bool → Course → ℕ → List Attempt → Course
attempt w handle multi menu pos [] = stops End.asking
attempt w handle multi menu pos (a ∷ later) =
    let again = λ (pos' : ℕ). attempt w handle multi menu pos' later in
    after_entry w handle menu pos a again (get_password w.strings multi a.prompts)

-- A file is opened anew by each DiscoverPayloads, so it starts at position 0.
pub after_selection : World → Visit → Course → Loader.Selection → Course
after_selection w v menu (Loader.selected handle multi name) =
    Step.selected handle then attempt w handle multi menu 0 v.attempts
after_selection w v menu Loader.panicked = stops halted
after_selection w v menu Loader.shut_down = stops End.shut_down
after_selection w v menu Loader.faulted = stops faulted
after_selection w v menu Loader.asking = stops End.asking

-- The selection menu.
pub visit : World → List Visit → Course
visit w [] = stops End.asking
visit w (v ∷ vs) =
    let menu = visit w vs in
    after_selection w v menu (select_payload w.strings v.discovery v.files v.typed v.position)

-- efi_main, up to the wait for a key at its end.
pub efi_main : World → Startup → List Visit → Course
efi_main w s visits =
    if is_error s.watchdog
    then stops left
    else if not (environment_initialize w.mftah s)
    then stops halted
    else visit w visits
