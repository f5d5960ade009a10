-- ===== src/Input/Exact.antt =====
-- Just what ReadChar16KeyboardInput leaves in the buffer: the text, and behind it the character that
-- was erased last, if nothing was typed over it.
use cr_ow_s.Base.{
  ℕ, suc, ◌+◌, ◌-◌, ◌*◌, ◌≤◌, ◌<◌, ◌≡◌, ◌≢◌, ◌⊎◌, inl, inr, refl, sym, ap, subst, ◌∙◌, true, false,
  ◌&&◌, List, [], ◌∷◌, ◌++◌, Option, none, some, arith, ltb, ◌==◌, if◌then◌else◌, length, set,
  replicate, length-append, append_assoc, Bool-cases,
}
use cr_ow_s.Base.Words.{u8}
use cr_ow_s.Base.Status.{Status}
use cr_ow_s.Input.{
  Round, Line, Reply, returned, backspace, is_printable, is_enter, edit, read_loop, read_input,
}
use cr_ow_s.Input.Editing.{drop_last, type_key}
use cr_ow_s.Input.Cells.{
  last_or, NonZero, set-append, set-append_behind, drop_last-last, length-drop_last,
  NonZero-drop_last, NonZero-append, replicate-shift,
}
use cr_ow_s.Input.Session.{press, turns, typed, NoEnter}

-- The text, and the cell behind it.
pub record Seen : Type 0 where
  pub text : List ℕ
  pub cell : ℕ

-- Backspace moves the last character into the cell, and a character that is added clears it.
unfoldable pub see_key : ℕ → Seen → ℕ → Seen
see_key max s c =
    if c == backspace
    then record { text = drop_last s.text; cell = last_or s.text 0 }
    else if is_printable c && ltb (length s.text) max
    then record { text = s.text ++ (c ∷ []); cell = 0 }
    else s

abbrev pub seen : ℕ → Seen → List (Option ℕ) → Seen
seen max s [] = s
seen max s (none ∷ ks) = seen max s ks
seen max s (some c ∷ ks) = seen max (see_key max s c) ks

-- A buffer of `max` + 1 cells with this in front.
abbrev pub filled : ℕ → Seen → List ℕ
filled max s = s.text ++ (s.cell ∷ replicate (max - length s.text) 0)

-- The line is this, and its cursor stands behind the text.
pub record Is (max : ℕ) (l : Line) (s : Seen) : Type 0 where
  pub buffer : l.buffer ≡ filled max s
  pub cursor : l.length ≡ length s.text
  pub fits : length s.text ≤ max
  pub room : (s.cell ≡ 0) ⊎ (length s.text < max)
  pub letters : NonZero s.text

module _ (max : ℕ) (small : max < 256) where
  -- Backspace: the cell is cleared, and the last character becomes the cell.
  erase-Is :
      (l : Line) (text : List ℕ) (cell : ℕ)
      → Is max l (record { text = text; cell = cell })
      → Is max
          (record {
            buffer = set l.buffer l.length 0;
            length = if ltb 0 l.length then l.length - 1 else l.length;
          })
          (record { text = drop_last text; cell = last_or text 0 })
  erase-Is l [] cell r = record {
    buffer = rw (r.buffer, r.cursor) refl;
    cursor = ground (arith, r.cursor);
    fits = omega arith;
    room = inl refl;
    letters = tt;
  }
  erase-Is l (c ∷ cs) cell r =
      let shorter = length-drop_last c cs in
      record {
        buffer =
            ap (λ (b : List ℕ). set b l.length 0) r.buffer
            ∙ ap (λ (i : ℕ). set (filled max (record { text = c ∷ cs; cell = cell })) i 0) r.cursor
            ∙ set-append (c ∷ cs) cell 0 (replicate (max - length (c ∷ cs)) 0)
            ∙ ap (λ (z : List ℕ). (c ∷ cs) ++ z)
                (replicate-shift max (length (drop_last (c ∷ cs))) (length (c ∷ cs)) shorter r.fits)
            ∙ drop_last-last c cs (replicate (max - length (drop_last (c ∷ cs))) 0);
        cursor = ground (arith, r.cursor, shorter);
        fits = omega (arith, r.fits, shorter);
        room = inr (omega (arith, r.fits, shorter));
        letters = NonZero-drop_last (c ∷ cs) r.letters;
      }

  add-Is :
      (l : Line) (text : List ℕ) (cell c : ℕ)
      → Is max l (record { text = text; cell = cell })
      → c ≢ 0
      → length text < max
      → Is max
          (record { buffer = set l.buffer l.length c; length = u8 (l.length + 1) })
          (record { text = text ++ (c ∷ []); cell = 0 })
  add-Is l text cell c r letter inside =
      let longer = length-append {0} text (c ∷ []) in
      record {
        buffer =
            ap (λ (b : List ℕ). set b l.length c) r.buffer
            ∙ ap (λ (i : ℕ). set (filled max (record { text = text; cell = cell })) i c) r.cursor
            ∙ set-append text cell c (replicate (max - length text) 0)
            ∙ ap (λ (z : List ℕ). text ++ (c ∷ z))
                (sym (
                  replicate-shift max (length text) (length (text ++ (c ∷ [])))
                    (omega (arith, longer)) (omega (arith, longer, inside))))
            ∙ sym (append_assoc text (c ∷ []) _);
        cursor = omega (arith, longer, r.cursor, inside);
        fits = omega (arith, longer, inside);
        room = inl refl;
        letters = NonZero-append text c r.letters letter;
      }

  edit-Is : (l : Line) (s : Seen) (c : ℕ) → Is max l s → Is max (edit max l c) (see_key max s c)
  unfolding edit see_key
  edit-Is l s c r = elim (Bool-cases (c == backspace)) [
    | inl e ↦ rw e (erase-Is l s.text s.cell r)
    | inr e ↦ elim (Bool-cases (is_printable c && ltb (length s.text) max)) [
      | inl k ↦
          let same : (is_printable c && ltb l.length max) ≡ true =
            subst (λ n. (is_printable c && ltb n max) ≡ true) (sym r.cursor) k in
          rw (e, k, same) (add-Is l s.text s.cell c r (ground (arith, k)) (ground (arith, k)))
      | inr k ↦
          let same : (is_printable c && ltb l.length max) ≡ false =
            subst (λ n. (is_printable c && ltb n max) ≡ false) (sym r.cursor) k in
          rw (e, k, same) r
    ]
  ]

-- The reply to a session that has shown this: the buffer, and the length of the text in bytes.
abbrev pub reply_of : ℕ → Seen → Reply
reply_of max s = returned Status.success (filled max s) (some (u8 (length s.text * 2)))

module _ (max : ℕ) (small : max < 256) (enter : ℕ) (is_end : is_enter enter ≡ true)
    (rest : List Round) where
  ended :
      (s : Seen)
      → (s.cell ≡ 0) ⊎ (length s.text < max)
      → length s.text ≤ max
      → set (filled max s) max 0 ≡ filled max s
  ended s room fits = elim (Bool-cases (length s.text == max)) [
    | inl e ↦
        let full : length s.text ≡ max = ground (arith, e) in
        let no_cell : s.cell ≡ 0 = ground (arith, room, full) in
        ap (λ (i : ℕ). set (filled max s) i 0) (sym full)
        ∙ set-append s.text s.cell 0 _
        ∙ ap (λ (c : ℕ). s.text ++ (c ∷ replicate (max - length s.text) 0)) (sym no_cell)
    | inr e ↦ set-append_behind s.text s.cell max _ (ground (arith, e, fits))
  ]

  loop-exact :
      (ks : List (Option ℕ)) (l : Line) (s : Seen)
      → NoEnter ks
      → Is max l s
      → read_loop max l (turns ks (press enter ∷ rest)) ≡ reply_of max (seen max s ks)
  unfolding read_loop
  loop-exact [] l s h r = rw (is_end, r.buffer, ended s r.room r.fits, r.cursor) refl
  loop-exact (none ∷ ks) l s h r = loop-exact ks l s h r
  loop-exact (some c ∷ ks) l s h r =
      rw (h.0) (loop-exact ks (edit max l c) (see_key max s c) h.1 (edit-Is max small l s c r))

abbrev pub nothing_seen : Seen
nothing_seen = record { text = []; cell = 0 }

module _ (max : ℕ) (small : max < 256) where
  begin-Is : Is max (record { buffer = replicate (suc max) 0; length = 0 }) nothing_seen
  begin-Is = record {
    buffer = let same : max ≡ max - 0 = omega arith in ap (λ (n : ℕ). 0 ∷ replicate n 0) same;
    cursor = refl;
    fits = omega arith;
    room = inl refl;
    letters = tt;
  }

  seen-Is :
      (ks : List (Option ℕ)) (l : Line) (s : Seen)
      → Is max l s
      → (l' : Line) × Is max l' (seen max s ks)
  seen-Is [] l s r = (l, r)
  seen-Is (none ∷ ks) l s r = seen-Is ks l s r
  seen-Is (some c ∷ ks) l s r =
      seen-Is ks (edit max l c) (see_key max s c) (edit-Is max small l s c r)

  -- What a session shows: a text that fits and holds no NUL, and an erased character only where there
  -- is room for it.
  pub seen_bounds :
      (ks : List (Option ℕ))
      → (length (seen max nothing_seen ks).text ≤ max) × NonZero (seen max nothing_seen ks).text
  seen_bounds ks = let r = (seen-Is ks _ nothing_seen begin-Is).1 in (r.fits, r.letters)

  -- For a keyboard that answers without errors, with turns in which no key is ready among the keys,
  -- and a `max` that is a UINT8: at the first Enter ReadChar16KeyboardInput succeeds, and the buffer
  -- holds the text, behind it the character that backspace took away last if nothing was typed
  -- since, and NUL in every other cell; the stored length is that of the text in bytes, modulo 256,
  -- since it is a UINT8.
  pub read_input-exact :
      (before : List ℕ) (ks : List (Option ℕ)) (enter : ℕ) (rest : List Round)
      → NoEnter ks
      → is_enter enter ≡ true
      → read_input max before Status.success (turns ks (press enter ∷ rest))
        ≡ reply_of max (seen max nothing_seen ks)
  unfolding read_input
  read_input-exact before ks enter rest h is_end =
      loop-exact max small enter is_end rest ks _ nothing_seen h begin-Is

see_key-type_key : (max : ℕ) (s : Seen) (c : ℕ) → (see_key max s c).text ≡ type_key max s.text c
unfolding see_key type_key
see_key-type_key max s c = ground arith

-- The text that is seen is the text that the keys mean.
pub seen-typed :
    (max : ℕ) (s : Seen) (ks : List (Option ℕ)) → (seen max s ks).text ≡ typed max s.text ks
seen-typed max s [] = refl
seen-typed max s (none ∷ ks) = seen-typed max s ks
seen-typed max s (some c ∷ ks) =
    seen-typed max (see_key max s c) ks ∙ ap (λ t. typed max t ks) (see_key-type_key max s c)
