-- ===== src/Boot/Password/Typed.antt =====
-- From the keys to the password: what GetPassword and CheckPassword make of a session.
use cr_ow_s.Base.{
  ℕ, ◌+◌, ◌*◌, ◌/◌, ◌%◌, ◌^◌, ◌<◌, ◌≡◌, ◌≢◌, refl, sym, ap, ap₂, subst, zero, suc, ◌-◌, Bool, true,
  false, ◌&&◌, List, [], ◌∷◌, ◌++◌, Option, none, some, map, arith, length, take, replicate,
  if_elim, ◌==◌, if◌then◌else◌, ltb,
}
use cr_ow_s.Base.Words.{u8}
use cr_ow_s.Base.Status.{Status}
use cr_ow_s.Input.{Round, is_printable, is_enter, backspace}
use cr_ow_s.Input.Editing.{type_key, drop_last}
use cr_ow_s.Input.Session.{press, turns, typed, NoEnter}
use cr_ow_s.Input.Cells.{NonZero}
use cr_ow_s.Input.Exact.{
  Seen, seen, nothing_seen, filled, seen-typed, seen_bounds, read_input-exact,
}
use cr_ow_s.Loader.{StringLib}
use cr_ow_s.Boot.Password.{
  Prompt, Entry, entered, go_back, shut_down, text_of, judge, get_password, char8, max_pw_len,
}

-- Every character is one byte.
abbrev pub Bytes : List ℕ → Type 0
Bytes [] = Unit {0}
Bytes (c ∷ cs) = (c < 256) × Bytes cs

Bytes-append : (cs : List ℕ) (c : ℕ) → Bytes cs → c < 256 → Bytes (cs ++ (c ∷ []))
Bytes-append [] c all small = (small, tt)
Bytes-append (x ∷ cs) c all small = (all.0, Bytes-append cs c all.1 small)

Bytes-drop_last : (cs : List ℕ) → Bytes cs → Bytes (drop_last cs)
Bytes-drop_last [] all = tt
Bytes-drop_last (x ∷ []) all = tt
Bytes-drop_last (x ∷ y ∷ cs) all = (all.0, Bytes-drop_last (y ∷ cs) all.1)

type_key-Bytes : (max : ℕ) (text : List ℕ) (c : ℕ) → Bytes text → Bytes (type_key max text c)
unfolding type_key
type_key-Bytes max text c all =
    if_elim Bytes (c == backspace) (λ e. Bytes-drop_last text all)
      (λ e.
        if_elim Bytes (is_printable c && ltb (length text) max)
          (λ k. Bytes-append text c all (ground (arith, k))) (λ k. all))

typed-Bytes :
    (max : ℕ) (text : List ℕ) (ks : List (Option ℕ)) → Bytes text → Bytes (typed max text ks)
typed-Bytes max text [] all = all
typed-Bytes max text (none ∷ ks) all = typed-Bytes max text ks all
typed-Bytes max text (some c ∷ ks) all =
    typed-Bytes max (type_key max text c) ks (type_key-Bytes max text c all)

map-Bytes : (cs : List ℕ) → Bytes cs → map (λ c. c % 2 ^ 8) cs ≡ cs
map-Bytes [] all = refl
map-Bytes (c ∷ cs) all =
    let small : c % 2 ^ 8 ≡ c = omega (arith, all.0) in
    ap₂ (λ (x : ℕ) (xs : List ℕ). x ∷ xs) small (map-Bytes cs all.1)

-- The string that a session leaves in the buffer: the text, and the erased character behind it.
abbrev pub shown : Seen → List ℕ
shown s = if s.cell == 0 then s.text else s.text ++ (s.cell ∷ [])

-- What one session leads to: the next prompt, for an empty text; the shut-down or the menu, for the
-- string that is their letter and no more; or a password, from which CheckPassword makes the text.
pub data Meant (multi : Bool) (s : Seen) (next : Entry) : Entry → Type 0 where
  empty : s.text ≡ [] → Meant multi s next next
  quits : s.text ≢ [] → shown s ≡ b'q' ∷ [] → Meant multi s next shut_down
  returns : s.text ≢ [] → multi ≡ true → shown s ≡ b'b' ∷ [] → Meant multi s next go_back
  enters :
      (buffer : List ℕ) (bytes : ℕ)
      → s.text ≢ []
      → shown s ≢ b'q' ∷ []
      → (multi ≡ true → shown s ≢ b'b' ∷ [])
      → char8 buffer bytes ≡ s.text
      → Meant multi s next (entered buffer bytes)

text_of-zeros : (n : ℕ) → text_of (replicate n 0) ≡ []
text_of-zeros zero = refl
text_of-zeros (suc n) = refl

-- What the C functions on strings see in the buffer.
text_of-filled :
    (text : List ℕ) (cell n : ℕ)
    → NonZero text
    → text_of (text ++ (cell ∷ replicate n 0)) ≡ shown (record { text = text; cell = cell })
text_of-filled [] cell n letters =
    if_elim (λ z. z ≡ shown (record { text = []; cell = cell })) (cell == 0) (λ e. rw e refl)
      (λ e. rw (e, text_of-zeros n) refl)
text_of-filled (c ∷ cs) cell n letters =
    let other : (c == 0) ≡ false = ground (arith, letters.0) in
    rw (other, text_of-filled cs cell n letters.1)
      (if_elim (λ z. c ∷ z ≡ shown (record { text = c ∷ cs; cell = cell })) (cell == 0)
        (λ e. rw e refl) (λ e. rw e refl))

-- Four characters are enough to tell a string of one letter.
take-letter : (xs : List ℕ) (letter : ℕ) → take 4 xs ≡ letter ∷ [] → xs ≡ letter ∷ []
take-letter [] letter h = h
take-letter (a ∷ []) letter h = h
take-letter (a ∷ b ∷ xs) letter h = absurd (ground (arith, ap length h))

is_letter :
    (lib : StringLib) (xs : List ℕ) (letter : ℕ)
    → lib.strn_equal xs (letter ∷ []) 4 ≡ true
    → xs ≡ letter ∷ []
is_letter lib xs letter same =
    take-letter xs letter ((lib.strn_equal_lem xs (letter ∷ []) 4).0 same)

not_letter :
    (lib : StringLib) (xs : List ℕ) (letter : ℕ)
    → lib.strn_equal xs (letter ∷ []) 4 ≡ false
    → xs ≢ letter ∷ []
not_letter lib xs letter other h =
    let same = (lib.strn_equal_lem xs (letter ∷ []) 4).1 (ap (take 4) h) in
    absurd (ground (arith, same, other))

length-zero : (text : List ℕ) → length text ≡ 0 → text ≡ []
length-zero [] h = refl
length-zero (c ∷ cs) h = absurd (omega (arith, h))

and_both : (a b : Bool) → (a && b) ≡ true → (a ≡ true) × (b ≡ true)
and_both true b h = (refl, h)
and_both false b h = absurd (ground (arith, h))

and_other : (a b : Bool) → (a && b) ≡ false → a ≡ true → b ≡ false
and_other true b h t = h
and_other false b h t = absurd (ground (arith, t))

module _ (lib : StringLib) (multi : Bool) (s : Seen) (buffer : List ℕ) (bytes : ℕ) (next : Entry)
    (all : Bytes s.text) (counted : bytes ≡ length s.text * 2)
    (front : take (length s.text) buffer ≡ s.text) (string : text_of buffer ≡ shown s) where
  text-nonempty : (bytes == 0) ≡ false → s.text ≢ []
  text-nonempty e h = ground (arith, counted, e, ap length h)

  text-char8 : char8 buffer bytes ≡ s.text
  unfolding char8
  text-char8 =
      let half : bytes / 2 ≡ length s.text = omega (arith, counted) in
      rw (half, front) (map-Bytes s.text all)

  judge-Meant : Meant multi s next (judge lib multi buffer bytes next)
  unfolding judge
  judge-Meant =
      let Good = Meant multi s next in
      rw string (
        if_elim Good (bytes == 0) (λ e. empty (length-zero s.text (ground (arith, e, counted))))
          (λ e.
            if_elim Good (lib.strn_equal (shown s) (b'q' ∷ []) 4)
              (λ k. quits (text-nonempty e) (is_letter lib (shown s) b'q' k))
              (λ k.
                if_elim Good (multi && lib.strn_equal (shown s) (b'b' ∷ []) 4)
                  (λ j.
                    let both = and_both multi _ j in
                    returns (text-nonempty e) both.0 (is_letter lib (shown s) b'b' both.1))
                  (λ j.
                    enters buffer bytes (text-nonempty e) (not_letter lib (shown s) b'q' k)
                      (λ several. not_letter lib (shown s) b'b' (and_other multi _ j several))
                      text-char8))))

take-front : (text rest : List ℕ) → take (length text) (text ++ rest) ≡ text
take-front [] rest = refl
take-front (c ∷ cs) rest = ap (λ (l : List ℕ). c ∷ l) (take-front cs rest)

-- For a keyboard that answers without errors, with turns in which no key is ready among the keys,
-- up to the first Enter: GetPassword asks again if the keys leave an empty text. Otherwise it looks
-- at the string in the buffer, which is the text and the character that backspace took away last,
-- if nothing was typed since: it shuts down if this is just `q`, goes back among several payloads
-- if it is just `b`, and in all other cases returns a buffer and a length from which CheckPassword
-- makes exactly the text.
pub get_password-Meant :
    (lib : StringLib) (multi : Bool) (ks : List (Option ℕ)) (enter : ℕ) (rest : List Round)
    (ps : List Prompt)
    → NoEnter ks
    → is_enter enter ≡ true
    → Meant multi (seen max_pw_len nothing_seen ks) (get_password lib multi ps) (
        get_password lib multi
          (record { reset = Status.success; rounds = turns ks (press enter ∷ rest) } ∷ ps))
unfolding get_password
get_password-Meant lib multi ks enter rest ps no_enter is_end =
    let s = seen max_pw_len nothing_seen ks in
    let d =
      read_input-exact max_pw_len (omega arith) (replicate (max_pw_len + 1) 0) ks enter rest
        no_enter is_end in
    let b = seen_bounds max_pw_len (omega arith) ks in
    let bytes : Bytes s.text =
      subst Bytes (sym (seen-typed max_pw_len nothing_seen ks)) (typed-Bytes max_pw_len [] ks tt) in
    rw d (
      judge-Meant lib multi s (filled max_pw_len s) (u8 (length s.text * 2))
        (get_password lib multi ps) bytes (omega (arith, b.0)) (take-front s.text _)
        (text_of-filled s.text s.cell (max_pw_len - length s.text) b.1))
