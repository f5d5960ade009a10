-- ===== src/Boot/Main/Tries.antt =====
-- The password loop of efi_main with a user who ends up at the right password.
use cr_ow_s.Base.{
  ℕ, ◌≡◌, refl, ap, ◌∙◌, Bool, true, false, List, [], ◌∷◌, ◌++◌, Option, length, replicate,
}
use cr_ow_s.Base.Status.{Status, is_error}
use cr_ow_s.Input.{Round, is_enter}
use cr_ow_s.Input.Session.{press, turns, NoEnter}
use cr_ow_s.Input.Exact.{seen, nothing_seen}
use cr_ow_s.Util.Worker.{MftahStatus}
use cr_ow_s.Boot.Password.{Prompt, max_pw_len, verdict_of, get_password}
use cr_ow_s.Boot.Password.Check.{initial_length}
use cr_ow_s.Boot.Password.Answers.{front, IsReadable, check_password-verdict}
use cr_ow_s.Boot.Password.Asked.{IsPassword, get_password-Enters}
use cr_ow_s.Boot.Payload.{load_and_decrypt}
use cr_ow_s.Boot.Course.{World, Step, Course, after_load}
use cr_ow_s.Boot.Main.{Attempt, after_check, after_entry, attempt}

-- An attempt in which the user types this text, and MFTAH has this answer to it for the front of
-- the file. The prompt, SetPosition and the parse of the header bring no error.
pub record Tries (w : World) (h : ℕ) (multi : Bool) (a : Attempt) (text : List ℕ)
    (answer : MftahStatus) : Type 0 where
  pub keys : List (Option ℕ)
  pub enter : ℕ
  pub rest : List Round
  pub more : List Prompt
  pub prompted :
      a.prompts ≡ record { reset = Status.success; rounds = turns keys (press enter ∷ rest) } ∷ more
  pub no_enter : NoEnter keys
  pub is_end : is_enter enter ≡ true
  pub is_password : IsPassword multi (seen max_pw_len nothing_seen keys)
  pub typed : (seen max_pw_len nothing_seen keys).text ≡ text
  pub rewinds : is_error a.rewound ≡ false
  pub parsed :
      w.mftah.is_failure (
        w.mftah.create_payload
          (front w.mftah (w.file h) a.check_buffer a.check_memory)
          a.check_buffer
          (initial_length w.mftah))
      ≡ false
  pub answered :
      w.mftah.check_password
        (front w.mftah (w.file h) a.check_buffer a.check_memory)
        a.check_buffer
        (initial_length w.mftah)
        text
      ≡ answer

abbrev pub AllWrong : World → ℕ → Bool → List Attempt → Type 0
AllWrong w h multi [] = Unit {0}
AllWrong w h multi (a ∷ tries) =
    ((text : List ℕ) × Tries w h multi a text MftahStatus.invalid_password)
    × AllWrong w h multi tries

-- The course with these steps in front.
abbrev pub after_steps : List Step → Course → Course
after_steps steps c = record { steps = steps ++ c.steps; end = c.end }

module _ (w : World) (h : ℕ) (multi : Bool) (menu : Course)
    (readable : IsReadable w.mftah (w.file h)) where
  -- One attempt, from the prompt to what follows the verdict.
  after_entry-Tries :
      (a : Attempt) (text : List ℕ) (answer : MftahStatus) (again : ℕ → Course)
      → Tries w h multi a text answer
      → after_entry w h menu 0 a again (get_password w.strings multi a.prompts)
        ≡ after_check w h a again 0 (verdict_of answer text)
  unfolding after_entry
  after_entry-Tries a text answer again t =
      let (buffer, bytes, e, same) =
        get_password-Enters w.strings multi t.keys t.enter t.rest t.more t.no_enter t.is_end
          t.is_password in
      let actual = same ∙ t.typed in
      let checked =
        check_password-verdict w.mftah a.check_buffer (w.file h) a.rewound buffer bytes
          a.check_memory answer readable t.rewinds t.parsed (rw actual t.answered) in
      rw (t.prompted, e, checked, actual) refl

  -- If the file is long enough, of whole blocks, and its front can be read, and behind any number
  -- of passwords that MFTAH calls invalid for this front the user types one that it confirms, where
  -- the keyboard, SetPosition and the parse of the header bring no errors, and none of the texts is
  -- empty or leaves just the letter of a command in the buffer: then the password loop denies each
  -- of the wrong ones, confirms the right one, and goes on as LoadAndDecrypt does with just this
  -- password from the start of the file. So a wrong password never locks a user out.
  pub attempt-Tries :
      (tries later : List Attempt) (a : Attempt) (text : List ℕ)
      → AllWrong w h multi tries
      → Tries w h multi a text MftahStatus.success
      → attempt w h multi menu 0 (tries ++ (a ∷ later))
        ≡ after_steps (replicate (length tries) (Step.denied h) ++ (Step.confirmed h text ∷ [])) (
            after_load w (
              load_and_decrypt w.fuel w.mftah
                (w.file h)
                0
                a.alloc
                a.load_buffer
                text
                a.load_memory))
  unfolding attempt after_check
  attempt-Tries [] later a text wrong right = after_entry-Tries a text MftahStatus.success _ right
  attempt-Tries (t ∷ tries) later a text ((pw, first), wrong) right =
      after_entry-Tries t pw MftahStatus.invalid_password _ first
      ∙ ap (after_steps (Step.denied h ∷ [])) (attempt-Tries tries later a text wrong right)
