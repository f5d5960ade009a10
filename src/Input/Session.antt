-- ===== src/Input/Session.antt =====
-- A whole session at the keyboard: keys, turns with no key, and Enter.
use cr_ow_s.Base.{
  ℕ, zero, suc, ◌+◌, ◌*◌, ◌≤◌, ◌<◌, ◌≡◌, refl, ◌∙◌, true, false, List, [], ◌∷◌, Option, none, some,
  arith, length, set, take, get_or, length-set, length-replicate,
}
use cr_ow_s.Base.Words.{u8}
use cr_ow_s.Base.Status.{Status}
use cr_ow_s.Input.{Round, Line, Reply, returned, is_enter, edit, read_loop, read_input}
use cr_ow_s.Input.Editing.{type_key, Represents, edit-Represents, take-set_before}

-- The turn in which a key is read, and one in which none is ready.
abbrev pub press : ℕ → Round
press c = record {
  wait = Status.success;
  read = Status.success;
  unicode_char = c;
  reset = Status.success;
}

abbrev pub idle : Round
idle = record {
  wait = Status.success;
  read = Status.not_ready;
  unicode_char = 0;
  reset = Status.success;
}

-- The turns of a session; `none` is an idle one.
abbrev pub turns : List (Option ℕ) → List Round → List Round
turns [] rest = rest
turns (none ∷ ks) rest = idle ∷ turns ks rest
turns (some c ∷ ks) rest = press c ∷ turns ks rest

abbrev pub NoEnter : List (Option ℕ) → Type 0
NoEnter [] = Unit {0}
NoEnter (none ∷ ks) = NoEnter ks
NoEnter (some c ∷ ks) = (is_enter c ≡ false) × NoEnter ks

-- The text that the keys mean.
abbrev pub typed : ℕ → List ℕ → List (Option ℕ) → List ℕ
typed max text [] = text
typed max text (none ∷ ks) = typed max text ks
typed max text (some c ∷ ks) = typed max (type_key max text c) ks

-- The routine returns with no error, the text stands at the front of the buffer of `max + 1`
-- characters, whose last one is NUL, and the length is that of the text in bytes, as a UINT8.
pub record Delivers (max : ℕ) (text : List ℕ) (reply : Reply) : Type 0 where
  pub buffer : List ℕ
  pub returns : reply ≡ returned Status.success buffer (some (u8 (length text * 2)))
  pub cells : length buffer ≡ max + 1
  pub fits : length text ≤ max
  pub front : take (length text) buffer ≡ text
  pub ended : get_or buffer max 1 ≡ 0

get_or-set_self : (xs : List ℕ) (i v d : ℕ) → i < length xs → get_or (set xs i v) i d ≡ v
get_or-set_self [] i v d h = absurd (omega arith)
get_or-set_self (x ∷ xs) zero v d h = refl
get_or-set_self (x ∷ xs) (suc i) v d h = get_or-set_self xs i v d (omega arith)

module _ (max : ℕ) (small : max < 256) (enter : ℕ) (is_end : is_enter enter ≡ true)
    (rest : List Round) where
  finish-Delivers :
      (l : Line) (text : List ℕ)
      → Represents max l text
      → Delivers max text (read_loop max l (press enter ∷ rest))
  unfolding read_loop
  finish-Delivers l text r = rw is_end (record {
    buffer = set l.buffer max 0;
    returns = rw r.counted;
    cells = length-set l.buffer max 0 ∙ r.cells;
    fits = omega (arith, r.counted, r.cursor);
    front =
        take-set_before (length text) max l.buffer 0 (omega (arith, r.counted, r.cursor))
        ∙ (rw (← r.counted) r.prefix);
    ended = get_or-set_self l.buffer max 0 1 (omega (arith, r.cells));
  })

  loop-Delivers :
      (ks : List (Option ℕ)) (l : Line) (text : List ℕ)
      → NoEnter ks
      → Represents max l text
      → Delivers max (typed max text ks) (read_loop max l (turns ks (press enter ∷ rest)))
  unfolding read_loop
  loop-Delivers [] l text h r = finish-Delivers l text r
  loop-Delivers (none ∷ ks) l text h r = loop-Delivers ks l text h r
  loop-Delivers (some c ∷ ks) l text h r = rw (h.0) (
      loop-Delivers ks (edit max l c) (type_key max text c) h.1
        (edit-Represents max l text c small r))

  -- For a keyboard that answers without errors, with turns in which no key is ready among the keys,
  -- and a `max` that is a UINT8: at the first Enter the routine returns the text that the keys mean,
  -- each printable key adding a character while there is room and each backspace taking one away.
  pub read_input-Delivers :
      (before : List ℕ) (ks : List (Option ℕ))
      → NoEnter ks
      → Delivers max
          (typed max [] ks)
          (read_input max before Status.success (turns ks (press enter ∷ rest)))
  unfolding read_input
  read_input-Delivers before ks h = loop-Delivers ks _ [] h (record {
    cells = omega (arith, length-replicate {A = ℕ} (suc max) 0);
    cursor = omega arith;
    counted = refl;
    prefix = refl;
  })
