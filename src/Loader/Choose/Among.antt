-- ===== src/Loader/Choose/Among.antt =====
-- What SelectPayload selects is one of the handles that it is given.
use cr_ow_s.Base.{
  ℕ, ◌+◌, Bool, not, List, [], ◌∷◌, Option, none, some, if_both, ◌==◌, if◌then◌else◌,
}
use mathlib.Core.List.{Memᴰ}
use cr_ow_s.Base.Status.{Status, is_error}
use cr_ow_s.Loader.{
  StringLib, File, named, nameless, Choice, Typed, Selection, selected, panicked, shut_down,
  faulted, asking, Discovery, match_files, valid_choice, no_choice, valid_or, ask, placed,
  select_payload, max_filename_length,
}

abbrev pub handle_of : File → ℕ
handle_of (named handle file_name) = handle
handle_of (nameless handle) = handle

-- The handles of all these files are in the list.
abbrev pub AllIn : List ℕ → List File → Type 0
AllIn hs [] = Unit {0}
AllIn hs (f ∷ fs) = Memᴰ (handle_of f) hs × AllIn hs fs

-- No handle, or one of the list.
pub data Held (hs : List ℕ) : Option ℕ → Type 0 where
  nothing : Held hs none
  held : {h : ℕ} → Memᴰ h hs → Held hs (some h)

abbrev HeldBoth : List ℕ → Choice → Type 0
HeldBoth hs c = Held hs c.exact × Held hs c.partial

pub data Among (hs : List ℕ) : Selection → Type 0 where
  among :
      {h : ℕ} {multi : Bool} {name : Option (List ℕ)} → Memᴰ h hs → Among hs (selected h multi name)
  panics : Among hs panicked
  shuts_down : Among hs shut_down
  faults : Among hs faulted
  asks : Among hs asking

module _ (lib : StringLib) (hs : List ℕ) where
  match_files-Held :
      (upper : List ℕ) (len : ℕ) (fs : List File) (c : Choice)
      → AllIn hs fs
      → HeldBoth hs c
      → HeldBoth hs (match_files lib upper len fs c)
  unfolding match_files
  match_files-Held upper len [] c inside both = both
  match_files-Held upper len (nameless handle ∷ fs) c inside both =
      match_files-Held upper len fs c inside.1 both
  match_files-Held upper len (named handle file_name ∷ fs) c inside both =
      let Good = HeldBoth hs in
      let once : Choice = record {
        exact = c.exact;
        partial = some handle;
        partials = c.partials + 1;
        name = if c.partials == 0 then some (lib.str_upr file_name) else c.name;
      } in
      if_both Good (not (lib.strn_equal upper (lib.str_upr file_name) max_filename_length))
        (if_both Good (lib.strn_equal upper (lib.str_upr file_name) len)
          (if_both Good (c.partials + 1 == 2) (both.0, held inside.0)
            (match_files-Held upper len fs once inside.1 (both.0, held inside.0)))
          (match_files-Held upper len fs c inside.1 both))
        (held inside.0, both.1)

  valid_choice-Held : (c : Choice) → HeldBoth hs c → Held hs (valid_choice c)
  unfolding valid_choice
  valid_choice-Held c both = if_both (Held hs) (c.partials == 1) (first c.partial both.1) both.0
    where
      first : (p : Option ℕ) → Held hs p → Held hs (elim p [ none ↦ c.exact | some h ↦ some h ])
      first none p = both.0
      first (some _) (held m) = held m

  valid_or-Among :
      (again : Selection) (name : Option (List ℕ)) (o : Option ℕ)
      → Among hs again
      → Held hs o
      → Among hs (valid_or again name o)
  valid_or-Among again name none later nothing = later
  valid_or-Among again name (some _) later (held m) = among m

  ask-Among :
      (fs : List File) (ts : List Typed) (name : Option (List ℕ))
      → AllIn hs fs
      → Among hs (ask lib fs ts name)
  unfolding ask
  ask-Among fs [] name inside = asks
  ask-Among fs (t ∷ ts) name inside =
      let Good = Among hs in
      let c = match_files lib (lib.str_upr t.text) t.length fs (no_choice name) in
      if_both Good (is_error t.status) panics (
        if_both Good (t.length == 0) (ask-Among fs ts name inside) (
          if_both Good (lib.strn_equal t.text (b'q' ∷ []) 4) shuts_down (
            valid_or-Among _ _ _ (ask-Among fs ts c.name inside) (
              valid_choice-Held c (
                match_files-Held (lib.str_upr t.text) t.length fs (no_choice name) inside
                  (nothing, nothing))))))

  placed-Among : (position : Status) (s : Selection) → Among hs s → Among hs (placed position s)
  placed-Among position (selected _ _ _) (among m) =
      if_both (Among hs) (is_error position) panics (among m)
  placed-Among position panicked a = panics
  placed-Among position shut_down a = shuts_down
  placed-Among position faulted a = faults
  placed-Among position asking a = asks

  pub select_payload-Among :
      (d : Discovery) (fs : List File) (ts : List Typed) (position : Status)
      → AllIn hs fs
      → Among hs (select_payload lib d fs ts position)
  unfolding select_payload
  select_payload-Among Discovery.no_payload fs ts position inside = panics
  select_payload-Among Discovery.multi_payload fs ts position inside =
      placed-Among position _ (ask-Among fs ts none inside)
  select_payload-Among Discovery.single_payload [] ts position inside = panics
  select_payload-Among Discovery.single_payload (nameless handle ∷ fs) ts position inside = faults
  select_payload-Among Discovery.single_payload (named handle file_name ∷ fs) ts position inside =
      placed-Among position _ (among inside.0)
  select_payload-Among Discovery.no_listing fs ts position inside = panics
