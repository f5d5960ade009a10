-- ===== src/Boot/Main/Origin.antt =====
-- efi_main with the DiscoverPayloads that its SelectPayload calls.
use cr_ow_s.Base.{
  ℕ, refl, ◌≤◌, ◌≡◌, ap, sym, arith, length, Bool, not, List, [], ◌∷◌, Option, if_both, map,
}
use mathlib.Core.List.{Memᴰ}
use cr_ow_s.Base.Status.{Status, is_error}
use cr_ow_s.Loader
use cr_ow_s.Loader.{StringLib, select_payload}
use cr_ow_s.Loader.Discover.{Answer, Opening, discover_payloads, discovery_of}
use cr_ow_s.Boot.Password.Answers.{Answered, confirmed, denied, check_password-Answered}
use cr_ow_s.Loader.Choose.{handles_of, files_of, choose_payload}
use cr_ow_s.Loader.Choose.Among.{Among, among}
use cr_ow_s.Loader.Choose.Origin.{IsOpened, choose_payload-Among, listed-IsOpened}
use cr_ow_s.Boot.Password.{Entry, Verdict, char8}
use cr_ow_s.Boot.Payload.Plain.{load_and_decrypt-Plain}
use cr_ow_s.Boot.Course.{World, Startup, Step, Course, environment_initialize}
use cr_ow_s.Boot.Course.Phases.{
  Phase, menu, prompt, Runs, ends, selects, returns, denies, confirms, decrypts, publishes, mounts,
  chainloads, after_load-Runs,
}
use cr_ow_s.Boot.Main.{
  Attempt, Visit, after_check, after_entry, attempt, after_selection, visit, efi_main,
}

-- A visit to the selection with the directory that DiscoverPayloads reads and what LibFileInfo says
-- of its handles.
pub record Scene : Type 0 where
  pub opening : Opening
  pub answers : List Answer
  pub info : ℕ → Option (List ℕ)
  pub typed : List Loader.Typed
  pub position : Status
  pub attempts : List Attempt

abbrev pub visit_of : StringLib → Scene → Visit
visit_of strings c =
    let found = discover_payloads strings c.opening c.answers in
    record {
      discovery = discovery_of found;
      files = files_of c.info found;
      typed = c.typed;
      position = c.position;
      attempts = c.attempts;
    }

-- Each file that is selected on the way has the property.
abbrev pub Chosen : (ℕ → Type 0) → Step → Type 0
Chosen P (Step.selected h) = P h
Chosen P _ = Unit {0}

abbrev pub AllChosen : (ℕ → Type 0) → List Step → Type 0
AllChosen P [] = Unit {0}
AllChosen P (s ∷ steps) = Chosen P s × AllChosen P steps

-- The files that DiscoverPayloads has opened at a visit.
abbrev pub found_at : StringLib → Scene → List ℕ
found_at strings c = handles_of (discover_payloads strings c.opening c.answers)

abbrev pub AtMostOne : StringLib → List Scene → Type 0
AtMostOne strings [] = Unit {0}
AtMostOne strings (c ∷ scenes) = (length (found_at strings c) ≤ 1) × AtMostOne strings scenes

-- The file is the only payload that the directory of one of the visits lists.
abbrev pub FromDirectory : StringLib → List Scene → ℕ → Type 0
FromDirectory strings scenes h =
    (c : Scene) × Memᴰ c scenes × (found_at strings c ≡ h ∷ []) × IsOpened strings c.answers h

only-one : (hs : List ℕ) (h : ℕ) → length hs ≤ 1 → Memᴰ h hs → hs ≡ h ∷ []
only-one [] h few m = elim m [ ]
only-one (k ∷ []) h few (Memᴰ.head e) = ap (λ x. x ∷ []) (sym e)
only-one (k ∷ []) h few (Memᴰ.tail m) = elim m [ ]
only-one (k ∷ l ∷ hs) h few m = absurd (omega (arith, few))

-- Behind a confirmed password there is no way back to the menu.
abbrev IsLate : Phase → Type 0
IsLate menu = ⊥
IsLate (prompt h) = ⊥
IsLate _ = Unit {0}

module _ (P : ℕ → Type 0) (w : World) where
  late-AllChosen : {p : Phase} {steps : List Step} → Runs w p steps → IsLate p → AllChosen P steps
  late-AllChosen (ends p) late = tt
  late-AllChosen (selects h steps r) late = absurd late
  late-AllChosen (returns h steps r) late = absurd late
  late-AllChosen (denies h pw steps e r) late = absurd late
  late-AllChosen (confirms h pw steps e r) late = absurd late
  late-AllChosen (decrypts h pw image steps e r) late = (tt, (tt, late-AllChosen r tt))
  late-AllChosen (publishes image steps r) late = (tt, late-AllChosen r tt)
  late-AllChosen (mounts image steps e r) late = (tt, late-AllChosen r tt)
  late-AllChosen (chainloads image h steps r) late = (tt, late-AllChosen r tt)

  abbrev Good : Course → Type 0
  Good c = AllChosen P c.steps

  after_check-AllChosen :
      (h : ℕ) (a : Attempt) (again : ℕ → Course) (actual : List ℕ) (pos : ℕ) (v : Verdict)
      → Good (again 0)
      → Answered w.mftah (w.file h) actual v pos
      → Good (after_check w h a again pos v)
  unfolding after_check
  after_check-AllChosen h a again actual _ _ more (confirmed e) = (
    tt,
    late-AllChosen
        (after_load-Runs w h actual _ (
          load_and_decrypt-Plain w.fuel w.mftah (w.file h) a.load_buffer actual a.load_memory
            a.alloc))
        tt,
  )
  after_check-AllChosen h a again actual _ _ more (denied e) = (tt, more)
  after_check-AllChosen h a again actual pos (Verdict.failed s) more n = tt

  after_entry-AllChosen :
      (h : ℕ) (back : Course) (a : Attempt) (again : ℕ → Course) (e : Entry)
      → Good back
      → Good (again 0)
      → Good (after_entry w h back 0 a again e)
  unfolding after_entry
  after_entry-AllChosen h back a again (Entry.entered password length) b more =
      after_check-AllChosen h a again (char8 password length) _ _ more (
        check_password-Answered w.mftah a.check_buffer (w.file h) a.rewound password length
          a.check_memory)
  after_entry-AllChosen h back a again Entry.go_back b more = (tt, b)
  after_entry-AllChosen h back a again Entry.shut_down b more = tt
  after_entry-AllChosen h back a again Entry.halted b more = tt
  after_entry-AllChosen h back a again Entry.asking b more = tt

  attempt-AllChosen :
      (h : ℕ) (multi : Bool) (back : Course) (tries : List Attempt)
      → Good back
      → Good (attempt w h multi back 0 tries)
  unfolding attempt
  attempt-AllChosen h multi back [] b = tt
  attempt-AllChosen h multi back (a ∷ later) b =
      after_entry-AllChosen h back a _ _ b (attempt-AllChosen h multi back later b)

  after_selection-AllChosen :
      (hs : List ℕ) (v : Visit) (back : Course) (s : Loader.Selection)
      → Good back
      → ((h : ℕ) → Memᴰ h hs → P h)
      → Among hs s
      → Good (after_selection w v back s)
  unfolding after_selection
  after_selection-AllChosen hs v back (Loader.selected h multi name) b known (among m) =
      (known h m, attempt-AllChosen h multi back v.attempts b)
  after_selection-AllChosen hs v back Loader.panicked b known a = tt
  after_selection-AllChosen hs v back Loader.shut_down b known a = tt
  after_selection-AllChosen hs v back Loader.faulted b known a = tt
  after_selection-AllChosen hs v back Loader.asking b known a = tt

module _ (w : World) where
  visit-AllChosen :
      (scenes all : List Scene)
      → ((c : Scene) → Memᴰ c scenes → Memᴰ c all)
      → AtMostOne w.strings scenes
      → AllChosen (FromDirectory w.strings all) (visit w (map (visit_of w.strings) scenes)).steps
  unfolding visit choose_payload
  visit-AllChosen [] all inside few = tt
  visit-AllChosen (c ∷ scenes) all inside few =
      after_selection-AllChosen (FromDirectory w.strings all) w _ (visit_of w.strings c) _ _
        (visit-AllChosen scenes all (λ d m. inside d (Memᴰ.tail m)) few.1)
        (λ h m. (
          c,
          inside c (Memᴰ.head refl),
          only-one (found_at w.strings c) h few.0 m,
          listed-IsOpened w.strings c.opening c.answers h m,
        ))
        (choose_payload-Among w.strings c.opening c.answers c.info c.typed c.position)

  -- If no visit finds more than one payload, and whatever else the firmware, the user and MFTAH
  -- answer: each file that efi_main selects is the only one that DiscoverPayloads has found at a
  -- visit; the directory lists it, it was read and opened without an error, and its name is longer
  -- than `.CROWS` and ends in it, in upper or lower case.
  pub efi_main-AllChosen :
      (s : Startup) (scenes : List Scene)
      → AtMostOne w.strings scenes
      → AllChosen
          (FromDirectory w.strings scenes)
          (efi_main w s (map (visit_of w.strings) scenes)).steps
  unfolding efi_main
  efi_main-AllChosen s scenes few =
      let Fine = λ (c : Course). AllChosen (FromDirectory w.strings scenes) c.steps in
      if_both Fine (is_error s.watchdog) tt (
        if_both Fine (not (environment_initialize w.mftah s)) tt
          (visit-AllChosen scenes scenes (λ c m. m) few))
