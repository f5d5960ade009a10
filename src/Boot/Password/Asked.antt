-- ===== src/Boot/Password/Asked.antt =====
-- From the keyboard to MFTAH: GetPassword and CheckPassword one after the other.
use cr_ow_s.Base.{ℕ, ◌≡◌, ◌≢◌, refl, subst, Bool, true, List, [], ◌∷◌, Option}
use cr_ow_s.Base.Status.{Status}
use cr_ow_s.Base.Memory.{Memory}
use cr_ow_s.Input.{Round, is_enter}
use cr_ow_s.Input.Session.{press, turns, NoEnter}
use cr_ow_s.Input.Exact.{Seen, seen, nothing_seen}
use cr_ow_s.Loader.{StringLib}
use cr_ow_s.Boot.Files.{Handle, Serves, Mftah}
use cr_ow_s.Boot.Password.{Prompt, Entry, entered, max_pw_len, char8, get_password, check_password}
use cr_ow_s.Boot.Password.Check
use cr_ow_s.Boot.Password.Check.{check_password-Fate}
use cr_ow_s.Boot.Password.Typed.{shown, Meant, empty, quits, returns, enters, get_password-Meant}

-- A session that enters a password: its text is not empty, and the string in the buffer is not just
-- the letter of a command.
pub record IsPassword (multi : Bool) (s : Seen) : Type 0 where
  pub given : s.text ≢ []
  pub no_quit : shown s ≢ b'q' ∷ []
  pub no_return : multi ≡ true → shown s ≢ b'b' ∷ []

-- What GetPassword returns for it.
abbrev pub Enters : List ℕ → Entry → Type 0
Enters text e =
    (buffer : List ℕ) × (bytes : ℕ) × (e ≡ entered buffer bytes) × (char8 buffer bytes ≡ text)

Meant-Enters :
    (multi : Bool) (s : Seen) (next e : Entry)
    → IsPassword multi s
    → Meant multi s next e
    → Enters s.text e
Meant-Enters multi s next _ p (empty none_typed) = absurd (p.given none_typed)
Meant-Enters multi s next _ p (quits some_text letter) = absurd (p.no_quit letter)
Meant-Enters multi s next _ p (returns some_text several letter) =
    absurd (p.no_return several letter)
Meant-Enters multi s next _ p (enters buffer bytes some_text no_quit no_return same) =
    (buffer, bytes, refl, same)

pub get_password-Enters :
    (lib : StringLib) (multi : Bool) (ks : List (Option ℕ)) (enter : ℕ) (rest : List Round)
    (ps : List Prompt)
    → NoEnter ks
    → is_enter enter ≡ true
    → IsPassword multi (seen max_pw_len nothing_seen ks)
    → Enters (seen max_pw_len nothing_seen ks).text (
        get_password lib multi
          (record { reset = Status.success; rounds = turns ks (press enter ∷ rest) } ∷ ps))
get_password-Enters lib multi ks enter rest ps no_enter is_end p =
    Meant-Enters multi (seen max_pw_len nothing_seen ks) (get_password lib multi ps) _ p
      (get_password-Meant lib multi ks enter rest ps no_enter is_end)

module _ (mftah : Mftah) (content : ℕ → ℕ) (size at : ℕ) (rewound : Status) (before : Memory)
    (h : Handle) (served : Serves h content size) where
  -- What the two functions make of the text `text`.
  abbrev pub Asks : List ℕ → Entry → Type 0
  Asks text e =
      (buffer : List ℕ) × (bytes : ℕ) × (e ≡ entered buffer bytes)
      × Check.Fate mftah content size at rewound text before
          (check_password mftah h 0 at rewound buffer bytes before)

  -- For a keyboard that answers without errors and a file that is served, and keys before the first
  -- Enter that leave a text which is not empty and, in the buffer, a string that is not just `q` or,
  -- among several payloads, just `b`: GetPassword returns, and what CheckPassword then asks MFTAH,
  -- with the front of the file in its buffer, is about exactly this text. It is accepted, and
  -- handed on to the load, where MFTAH confirms it; refused where MFTAH calls it invalid; and any
  -- other end is an error.
  pub typed_password-Asks :
      (lib : StringLib) (multi : Bool) (ks : List (Option ℕ)) (enter : ℕ) (rest : List Round)
      (ps : List Prompt)
      → NoEnter ks
      → is_enter enter ≡ true
      → IsPassword multi (seen max_pw_len nothing_seen ks)
      → Asks (seen max_pw_len nothing_seen ks).text (
          get_password lib multi
            (record { reset = Status.success; rounds = turns ks (press enter ∷ rest) } ∷ ps))
  typed_password-Asks lib multi ks enter rest ps no_enter is_end p =
      let (buffer, bytes, e, same) =
        get_password-Enters lib multi ks enter rest ps no_enter is_end p in
      (
        buffer,
        bytes,
        e,
        subst
            (λ (t : List ℕ).
              Check.Fate mftah content size at rewound t before
                (check_password mftah h 0 at rewound buffer bytes before))
            same (check_password-Fate mftah content size at rewound buffer bytes before h served),
      )
