-- ===== src/Loader.antt =====
-- SelectPayload, src/boot/mftah_uefi/loader.c: the choice of a payload by its name. A string is the
-- list of its characters before NUL, and a handle is an address.
pub mod Names
pub mod Discover
pub mod Choose
pub mod Samples
use cr_ow_s.Base.{
  ℕ, zero, suc, ◌+◌, ◌*◌, ◌≡◌, ◌↔◌, Bool, true, false, not, ◌&&◌, List, [], ◌∷◌, Option, none, some,
  ◌==◌, if◌then◌else◌, length, take,
}
use cr_ow_s.Base.Status.{Status, is_error}

-- Three routines of gnu-efi, whose documentation says: StrnCmp(s, t, n) is 0 if the strings agree in
-- their first `n` characters, StrCmp if they agree, and StrUpr changes characters in place.
pub record StringLib : Type 0 where
  pub strn_equal : List ℕ → List ℕ → ℕ → Bool
  pub str_equal : List ℕ → List ℕ → Bool
  pub str_upr : List ℕ → List ℕ
  pub strn_equal_lem : (s t : List ℕ) (n : ℕ) → (strn_equal s t n ≡ true) ↔ (take n s ≡ take n t)
  pub str_equal_lem : (s t : List ℕ) → (str_equal s t ≡ true) ↔ (s ≡ t)
  pub length-str_upr : (s : List ℕ) → length (str_upr s) ≡ length s

-- MFTAH_MAX_FILENAME_LENGTH
abbrev pub max_filename_length : ℕ
max_filename_length = 64

-- A handle that DiscoverPayloads found, with the name that LibFileInfo gives, or without one where
-- it returns NULL.
pub data File : Type 0 where
  named : ℕ → List ℕ → File
  nameless : ℕ → File

-- *PayloadFileHandle if the selection is valid, PartialFileMatch, PartialMatchesCount and
-- gOperatingPayload.Name.
pub record Choice : Type 0 where
  pub exact : Option ℕ
  pub partial : Option ℕ
  pub partials : ℕ
  pub name : Option (List ℕ)

-- The loop over the handles, for a selection in upper case and its length in bytes.
pub match_files : StringLib → List ℕ → ℕ → List File → Choice → Choice
match_files lib selected len [] c = c
match_files lib selected len (nameless handle ∷ fs) c = match_files lib selected len fs c
match_files lib selected len (named handle file_name ∷ fs) c =
    let upper = lib.str_upr file_name in
    let once : Choice = record {
      exact = c.exact;
      partial = some handle;
      partials = c.partials + 1;
      name = if c.partials == 0 then some upper else c.name;
    } in
    let skip = match_files lib selected len fs c in
    let go_on = match_files lib selected len fs once in
    if not (lib.strn_equal selected upper max_filename_length)
    then (if lib.strn_equal selected upper len
        then (if c.partials + 1 == 2 then record once { name = none } else go_on)
        else skip)
    else record c { exact = some handle }

-- A single partial match is taken.
pub valid_choice : Choice → Option ℕ
valid_choice c =
    if c.partials == 1 then elim c.partial [ none ↦ c.exact | some h ↦ some h ] else c.exact

-- What a prompt returns: the status, the string in the buffer and the stored length.
pub record Typed : Type 0 where
  pub status : Status
  pub text : List ℕ
  pub length : ℕ

-- The handle, whether it is one of several, and the name that is kept for it. `faulted` reads the
-- name through NULL, and `asking` is a prompt that is still open.
pub data Selection : Type 0 where
  selected : ℕ → Bool → Option (List ℕ) → Selection
  panicked shut_down faulted asking : Selection

abbrev pub no_choice : Option (List ℕ) → Choice
no_choice name = record { exact = none; partial = none; partials = 0; name = name }

abbrev pub valid_or : Selection → Option (List ℕ) → Option ℕ → Selection
valid_or again name none = again
valid_or again name (some h) = selected h true name

-- The loop over the prompts, with the name that is kept so far. SelectedPayloadName, an array of 65
-- bytes, is taken to hold the 65 characters that a prompt writes to it.
pub ask : StringLib → List File → List Typed → Option (List ℕ) → Selection
ask lib files [] name = asking
ask lib files (t ∷ ts) name =
    let c = match_files lib (lib.str_upr t.text) t.length files (no_choice name) in
    let unread = ask lib files ts name in
    let again = ask lib files ts c.name in
    if is_error t.status
    then panicked
    else if t.length == 0
    then unread
    else if lib.strn_equal t.text (b'q' ∷ []) 4
    then shut_down
    else valid_or again c.name (valid_choice c)

-- What DiscoverPayloads returned: the handles' number, as a status, or an error.
pub data Discovery : Type 0 where
  no_payload single_payload multi_payload no_listing : Discovery

abbrev pub placed : Status → Selection → Selection
placed position (selected h multi name) =
    if is_error position then panicked else selected h multi name
placed position s = s

-- SelectPayload, with the status of GetPosition.
unfoldable pub select_payload : StringLib → Discovery → List File → List Typed → Status → Selection
select_payload lib Discovery.no_payload files prompts position = panicked
select_payload lib Discovery.multi_payload files prompts position =
    placed position (ask lib files prompts none)
select_payload lib Discovery.single_payload [] prompts position = panicked
select_payload lib Discovery.single_payload (nameless handle ∷ fs) prompts position = faulted
select_payload lib Discovery.single_payload (named handle file_name ∷ fs) prompts position =
    placed position (selected handle false (some file_name))
select_payload lib Discovery.no_listing files prompts position = panicked
