-- ===== src/Input/Bounds.antt =====
-- The buffer of ReadChar16KeyboardInput, whatever the firmware answers.
use cr_ow_s.Base.{
  ℕ, zero, suc, ◌*◌, ◌%◌, ◌^◌, ◌≤◌, ◌<◌, ◌≡◌, ◌⊎◌, inl, inr, refl, ◌∙◌, true, false, ◌&&◌, List, [],
  ◌∷◌, none, some, arith, if_elim, if_both, ltb, ◌==◌, length, set, get_or, replicate, length-set,
  length-replicate, if◌then◌else◌,
}
use cr_ow_s.Base.Words.{u8}
use cr_ow_s.Base.Status.{Status, is_error}
use cr_ow_s.Input.{
  Round, Line, backspace, is_printable, is_enter, edit, Reply, returned, panicked, waiting,
  is_not_ready, is_fatal, read_loop, read_input,
}

-- A cell is NUL or a printable character of ASCII.
abbrev pub Cell : ℕ → Type 0
Cell c = (c ≡ 0) ⊎ ((0x20 ≤ c) × (c ≤ 0x7e))

abbrev pub AllCells : List ℕ → Type 0
AllCells [] = Unit {0}
AllCells (c ∷ cs) = Cell c × AllCells cs

-- The buffer of `max` characters and a NUL.
pub record Text (max : ℕ) (buffer : List ℕ) : Type 0 where
  pub size : length buffer ≡ suc max
  pub cells : AllCells buffer

-- `InputLength` is an index of the buffer, so each access of the loop is inside it.
pub record IsLine (max : ℕ) (l : Line) : Type 0 where
  pub text : Text max l.buffer
  pub inside : l.length ≤ max

pub data Bounded (max : ℕ) (before : List ℕ) : Reply → Type 0 where
  untouched : (s : Status) → is_error s ≡ true → Bounded max before (returned s before none)
  failed :
      (s : Status) (buffer : List ℕ)
      → is_error s ≡ true
      → Text max buffer
      → Bounded max before (returned s buffer none)
  delivered :
      (s : Status) (buffer : List ℕ) (typed n : ℕ)
      → is_error s ≡ false
      → Text max buffer
      → get_or buffer max 1 ≡ 0
      → typed ≤ max
      → n ≡ (typed * 2) % 2 ^ 8
      → Bounded max before (returned s buffer (some n))
  halts : Bounded max before panicked
  waits : (l : Line) → IsLine max l → Bounded max before (waiting l)

AllCells-set : (cs : List ℕ) (i c : ℕ) → AllCells cs → Cell c → AllCells (set cs i c)
AllCells-set [] i c all good = tt
AllCells-set (x ∷ cs) zero c all good = (good, all.1)
AllCells-set (x ∷ cs) (suc i) c all good = (all.0, AllCells-set cs i c all.1 good)

AllCells-replicate : (n : ℕ) → AllCells (replicate n 0)
AllCells-replicate zero = tt
AllCells-replicate (suc n) = (inl refl, AllCells-replicate n)

get_or-set_self : (cs : List ℕ) (i c d : ℕ) → i < length cs → get_or (set cs i c) i d ≡ c
get_or-set_self [] i c d h = absurd (omega (arith, h))
get_or-set_self (x ∷ cs) zero c d h = refl
get_or-set_self (x ∷ cs) (suc i) c d h = get_or-set_self cs i c d (omega (arith, h))

Text-set :
    (max : ℕ) (buffer : List ℕ) (i c : ℕ) → Text max buffer → Cell c → Text max (set buffer i c)
Text-set max buffer i c t good = record {
  size = length-set buffer i c ∙ t.size;
  cells = AllCells-set buffer i c t.cells good;
}

edit-IsLine : (max : ℕ) (l : Line) (c : ℕ) → max < 2 ^ 8 → IsLine max l → IsLine max (edit max l c)
unfolding edit
edit-IsLine max l c small line =
    if_elim (IsLine max) (c == backspace)
      (λ e. record {
        text = Text-set max l.buffer l.length 0 line.text (inl refl);
        inside = ground (arith, line.inside);
      })
      (λ e.
        if_elim (IsLine max) (is_printable c && ltb l.length max)
          (λ k. record {
            text = Text-set max l.buffer l.length c line.text (inr (ground (arith, k)));
            inside = ground (arith, k);
          })
          (λ k. line))

module _ (max : ℕ) (before : List ℕ) (small : max < 2 ^ 8) where
  enter-Bounded :
      (l : Line) (s : Status)
      → is_error s ≡ false
      → IsLine max l
      → Bounded max before (returned s (set l.buffer max 0) (some (u8 (l.length * 2))))
  enter-Bounded l s fine line =
      delivered s _ l.length _ fine (Text-set max l.buffer max 0 line.text (inl refl))
        (get_or-set_self l.buffer max 0 1 (omega (arith, line.text.size))) line.inside refl

  read_loop-Bounded :
      (rounds : List Round) (l : Line) → IsLine max l → Bounded max before (read_loop max l rounds)
  unfolding read_loop
  read_loop-Bounded [] l line = waits l line
  read_loop-Bounded (r ∷ rounds) l line =
      let Good = Bounded max before in
      let next =
        read_loop-Bounded rounds (if is_not_ready r.read then l else edit max l r.unicode_char) (
          if_both (IsLine max) (is_not_ready r.read) line
            (edit-IsLine max l r.unicode_char small line)) in
      if_elim Good (is_error r.wait) (λ e. failed _ _ e line.text)
        (λ _. if_both Good (is_not_ready r.read) next (
          if_both Good (is_fatal r.read) halts (
            if_elim Good (is_error r.read) (λ e. failed _ _ e line.text)
              (λ _.
                if_elim Good (is_error r.reset) (λ e. failed _ _ e line.text)
                  (λ fine.
                    if_both Good (is_enter r.unicode_char) (enter-Bounded l r.reset fine line)
                      next)))))

  -- Whatever the firmware answers, for a `max` that is a UINT8: ReadChar16KeyboardInput leaves the
  -- buffer alone if the first Reset fails. Otherwise the buffer keeps its `max` + 1 cells, each of
  -- which is NUL or printable ASCII; after any turns from which the loop has not returned, the cursor
  -- stands inside it; and what is returned at Enter has NUL in the last cell, and for its length
  -- twice a cursor inside it, as a UINT8.
  pub read_input-Bounded :
      (reset : Status) (rounds : List Round)
      → Bounded max before (read_input max before reset rounds)
  unfolding read_input
  read_input-Bounded reset rounds =
      if_elim (Bounded max before) (is_error reset) (λ e. untouched _ e)
        (λ _. read_loop-Bounded rounds _ (record {
          text = record {
            size = length-replicate (suc max) 0;
            cells = AllCells-replicate (suc max);
          };
          inside = omega arith;
        }))
