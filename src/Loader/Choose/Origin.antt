-- ===== src/Loader/Choose/Origin.antt =====
-- Where the selected payload comes from.
use cr_ow_s.Base.{
  ℕ, ◌-◌, ◌<◌, ◌≡◌, refl, sym, subst, true, false, List, [], ◌∷◌, ◌++◌, Option, none, some, arith,
  if_elim, map, length,
}
use mathlib.Core.List.Memᴰ
use mathlib.Core.List.{Memᴰ}
use cr_ow_s.Base.Status.{Status, is_error}
use cr_ow_s.Loader.{StringLib, named, nameless, Typed}
use cr_ow_s.Loader.Discover.{
  Answer, extension, drop, is_payload, Listing, Opening, discover_payloads,
}
use cr_ow_s.Loader.Discover.Found.{
  is_passed, Passed, is_found, payloads, Fate, full, ended, stopped, unread, Discovered, unopened,
  searched, discover_payloads-Discovered,
}
use cr_ow_s.Loader.Choose.{handles_of, file_of, choose_payload}
use cr_ow_s.Loader.Choose.Among.{AllIn, handle_of, Among, select_payload-Among}

-- The handle is one that Open has given for a file that the directory lists, and the file's name is
-- longer than the extension and ends in it, in upper or lower case.
pub record IsOpened (lib : StringLib) (answers : List Answer) (h : ℕ) : Type 0 where
  pub answer : Answer
  pub listed : Memᴰ answer answers
  pub same : answer.handle ≡ h
  pub longer : length extension < length answer.name
  pub ending : lib.str_upr (drop (length answer.name - length extension) answer.name) ≡ extension
  pub opened : is_error answer.opened ≡ false
  pub read : is_error answer.status ≡ false

module _ (lib : StringLib) where
  IsOpened-append :
      (before after : List Answer) (h : ℕ)
      → IsOpened lib before h
      → IsOpened lib (before ++ after) h
  IsOpened-append before after h o = record {
    answer = o.answer;
    listed = Memᴰ.append_left after o.listed;
    same = o.same;
    longer = o.longer;
    ending = o.ending;
    opened = o.opened;
    read = o.read;
  }

  IsOpened-tail :
      (a : Answer) (answers : List Answer) (h : ℕ)
      → IsOpened lib answers h
      → IsOpened lib (a ∷ answers) h
  IsOpened-tail a answers h o = record {
    answer = o.answer;
    listed = Memᴰ.tail o.listed;
    same = o.same;
    longer = o.longer;
    ending = o.ending;
    opened = o.opened;
    read = o.read;
  }

  IsOpened-head :
      (a : Answer) (answers : List Answer)
      → is_found lib a ≡ true
      → is_passed lib a ≡ true
      → IsOpened lib (a ∷ answers) a.handle
  unfolding is_payload
  IsOpened-head a answers found passed = record {
    answer = a;
    listed = Memᴰ.head refl;
    same = refl;
    longer = ground (arith, found);
    ending = sym ((lib.str_equal_lem _ _).0 (ground (arith, found)));
    opened = ground (arith, found, passed);
    read = ground (arith, found, passed);
  }

  payloads-IsOpened :
      (answers : List Answer) (h : ℕ)
      → Passed lib answers
      → Memᴰ h (payloads lib answers)
      → IsOpened lib answers h
  unfolding payloads
  payloads-IsOpened [] h passed m = elim m [ ]
  payloads-IsOpened (a ∷ answers) h passed m =
      (if_elim (λ (hs : List ℕ). Memᴰ h hs → IsOpened lib (a ∷ answers) h) (is_found lib a)
          (λ found n.
            here found n
              (λ n'. IsOpened-tail a answers h (payloads-IsOpened answers h passed.1 n')))
          (λ e n. IsOpened-tail a answers h (payloads-IsOpened answers h passed.1 n)))
        m
    where
      here :
          is_found lib a ≡ true
          → Memᴰ h (a.handle ∷ payloads lib answers)
          → (Memᴰ h (payloads lib answers) → IsOpened lib (a ∷ answers) h)
          → IsOpened lib (a ∷ answers) h
      here found (Memᴰ.head e) later =
          subst (IsOpened lib (a ∷ answers)) (sym e) (IsOpened-head a answers found passed.0)
      here found (Memᴰ.tail n) later = later n

  -- What is stored at any end of the loop.
  done-IsOpened :
      (answers done rest : List Answer) (hs : List ℕ) (h : ℕ)
      → answers ≡ done ++ rest
      → Passed lib done
      → hs ≡ payloads lib done
      → Memᴰ h hs
      → IsOpened lib answers h
  done-IsOpened answers done rest hs h e passed same m =
      subst (λ l. IsOpened lib l h) (sym e)
        (IsOpened-append done rest h (payloads-IsOpened done h passed (subst (Memᴰ h) same m)))

  Fate-IsOpened :
      (answers : List Answer) (l : Listing) (h : ℕ)
      → Fate lib [] answers l
      → Memᴰ h (handles_of l)
      → IsOpened lib answers h
  Fate-IsOpened answers _ h (full done rest hs e p same n) m =
      done-IsOpened answers done rest hs h e p same m
  Fate-IsOpened answers _ h (ended done rest a hs e p same n z s) m =
      done-IsOpened answers done (a ∷ rest) hs h e p same m
  Fate-IsOpened answers _ h (stopped done rest a s hs e p same n w bad) m =
      done-IsOpened answers done (a ∷ rest) hs h e p same m
  Fate-IsOpened answers _ h (unread hs p same n) m =
      payloads-IsOpened answers h p (subst (Memᴰ h) same m)

  Discovered-IsOpened :
      (o : Opening) (answers : List Answer) (l : Listing) (h : ℕ)
      → Discovered lib o answers l
      → Memᴰ h (handles_of l)
      → IsOpened lib answers h
  Discovered-IsOpened o answers _ h (unopened s bad) m = elim m [ ]
  Discovered-IsOpened o answers _ h (searched l fine f) m = Fate-IsOpened answers l h f m

handle_of-file_of : (info : ℕ → Option (List ℕ)) (h : ℕ) → handle_of (file_of info h) ≡ h
handle_of-file_of info h = go (info h)
  where
    go :
        (o : Option (List ℕ))
        → handle_of (elim o [ none ↦ nameless h | some name ↦ named h name ]) ≡ h
    go none = refl
    go (some name) = refl

AllIn-map :
    (info : ℕ → Option (List ℕ)) (all hs : List ℕ)
    → ((h : ℕ) → Memᴰ h hs → Memᴰ h all)
    → AllIn all (map (file_of info) hs)
AllIn-map info all [] inside = tt
AllIn-map info all (h ∷ hs) inside = (
  rw (handle_of-file_of info h) (inside h (Memᴰ.head refl)),
  AllIn-map info all hs (λ k m. inside k (Memᴰ.tail m)),
)

-- A selection is one of the handles that the directory's listing holds.
pub choose_payload-Among :
    (lib : StringLib) (o : Opening) (answers : List Answer) (info : ℕ → Option (List ℕ))
    (prompts : List Typed) (position : Status)
    → Among
        (handles_of (discover_payloads lib o answers))
        (choose_payload lib o answers info prompts position)
unfolding choose_payload
choose_payload-Among lib o answers info prompts position =
    let hs = handles_of (discover_payloads lib o answers) in
    select_payload-Among lib hs _ _ prompts position (AllIn-map info hs hs (λ h m. m))

pub listed-IsOpened :
    (lib : StringLib) (o : Opening) (answers : List Answer) (h : ℕ)
    → Memᴰ h (handles_of (discover_payloads lib o answers))
    → IsOpened lib answers h
listed-IsOpened lib o answers h m =
    Discovered-IsOpened lib o answers _ h (discover_payloads-Discovered lib o answers) m
