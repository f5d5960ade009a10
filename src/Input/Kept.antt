-- ===== src/Input/Kept.antt =====
-- What Confirm of src/boot/mftah_uefi/input.c answers to the keys of a session.
use cr_ow_s.Base.{
  ℕ, ◌≡◌, ◌≢◌, refl, ap, ◌∙◌, Bool, true, ◌||◌, List, [], ◌∷◌, ◌++◌, Option, none, some, arith,
  Bool-cases, inl, inr, ltb, ◌==◌, if◌then◌else◌, get_or, length, if_both, if_elim,
}
use cr_ow_s.Base.Status.{Status}
use cr_ow_s.Input.{Round, backspace, is_printable, is_enter, judge, judge_reply, answered, confirm}
use cr_ow_s.Input.Editing.{drop_last}
use cr_ow_s.Input.Session.{press, turns, NoEnter}
use cr_ow_s.Input.Cells.{last_or}
use cr_ow_s.Input.Exact.{Seen, see_key, seen, nothing_seen, filled, read_input-exact}

-- The one cell that Confirm looks at: blank, a character on the screen, or one that was erased.
pub data Kept : Type 0 where
  blank : Kept
  shown erased : ℕ → Kept

abbrev back : Kept → Kept
back blank = blank
back (shown c) = erased c
back (erased c) = blank

abbrev added : Kept → ℕ → Kept
added blank c = shown c
added (shown d) c = shown d
added (erased d) c = shown c

-- The first backspace only marks the character, the second one blanks the cell.
abbrev pub keep_key : Kept → ℕ → Kept
keep_key k c = if c == backspace then back k else if is_printable c then added k c else k

abbrev pub kept : Kept → List (Option ℕ) → Kept
kept k [] = k
kept k (none ∷ ks) = kept k ks
kept k (some c ∷ ks) = kept (keep_key k c) ks

abbrev pub is_yes : ℕ → Bool
is_yes c = (c == b'Y') || (c == b'y')

-- Yes, or the default for a blank cell.
abbrev pub meaning : Bool → Kept → Status
meaning default_yes blank = if default_yes then Status.success else Status.aborted
meaning default_yes (shown c) = if is_yes c then Status.success else Status.aborted
meaning default_yes (erased c) = if is_yes c then Status.success else Status.aborted

abbrev screen : Kept → Seen
screen blank = nothing_seen
screen (shown c) = record { text = c ∷ []; cell = 0 }
screen (erased c) = record { text = []; cell = c }

abbrev Letter : Kept → Type 0
Letter blank = Unit {0}
Letter (shown c) = c ≢ 0
Letter (erased c) = c ≢ 0

screen-back :
    (k : Kept)
    → ◌≡◌ {A = Seen}
        (record { text = drop_last (screen k).text; cell = last_or (screen k).text 0 })
        (screen (back k))
screen-back blank = refl
screen-back (shown c) = refl
screen-back (erased c) = refl

screen-added :
    (k : Kept) (c : ℕ)
    → (if ltb (length (screen k).text) 1
        then record { text = (screen k).text ++ (c ∷ []); cell = 0 }
        else screen k)
      ≡ screen (added k c)
screen-added blank c = refl
screen-added (shown d) c = refl
screen-added (erased d) c = refl

screen-keep_key : (k : Kept) (c : ℕ) → see_key 1 (screen k) c ≡ screen (keep_key k c)
unfolding see_key
screen-keep_key k c = elim (Bool-cases (c == backspace)) [
  | inl e ↦ rw e (screen-back k)
  | inr e ↦ elim (Bool-cases (is_printable c)) [
    | inl p ↦ rw (e, p) (screen-added k c)
    | inr p ↦ rw (e, p) refl
  ]
]

Letter-back : (k : Kept) → Letter k → Letter (back k)
Letter-back blank l = tt
Letter-back (shown c) l = l
Letter-back (erased c) l = tt

Letter-added : (k : Kept) (c : ℕ) → Letter k → c ≢ 0 → Letter (added k c)
Letter-added blank c l h = h
Letter-added (shown d) c l h = l
Letter-added (erased d) c l h = h

Letter-keep_key : (k : Kept) (c : ℕ) → Letter k → Letter (keep_key k c)
Letter-keep_key k c l =
    if_both Letter (c == backspace) (Letter-back k l)
      (if_elim Letter (is_printable c) (λ e. Letter-added k c l (ground (arith, e))) (λ e. l))

seen-kept : (ks : List (Option ℕ)) (k : Kept) → seen 1 (screen k) ks ≡ screen (kept k ks)
seen-kept [] k = refl
seen-kept (none ∷ ks) k = seen-kept ks k
seen-kept (some c ∷ ks) k =
    ap (λ s. seen 1 s ks) (screen-keep_key k c) ∙ seen-kept ks (keep_key k c)

Letter-kept : (ks : List (Option ℕ)) (k : Kept) → Letter k → Letter (kept k ks)
Letter-kept [] k l = l
Letter-kept (none ∷ ks) k l = Letter-kept ks k l
Letter-kept (some c ∷ ks) k l = Letter-kept ks (keep_key k c) (Letter-keep_key k c l)

judge-meaning :
    (default_yes : Bool) (k : Kept)
    → Letter k
    → judge default_yes (get_or (filled 1 (screen k)) 0 0) ≡ meaning default_yes k
unfolding judge
judge-meaning default_yes blank l = refl
judge-meaning default_yes (shown c) l = ground arith
judge-meaning default_yes (erased c) l = ground arith

-- For a keyboard that answers without errors, with turns in which no key is ready among the keys:
-- Confirm answers at the first Enter what its one cell then holds: yes for a `Y` or `y`, the default
-- for a blank cell, and no for any other character. The first printable character takes the cell,
-- one backspace marks it as erased, which changes no answer, and the next printable character takes
-- its place; only a further backspace blanks the cell. So a `y` that is typed and erased
-- still confirms.
pub confirm-kept :
    (default_yes : Bool) (ks : List (Option ℕ)) (enter : ℕ) (rest : List Round)
    → NoEnter ks
    → is_enter enter ≡ true
    → confirm default_yes Status.success (turns ks (press enter ∷ rest))
      ≡ answered (meaning default_yes (kept blank ks))
unfolding confirm
confirm-kept default_yes ks enter rest h is_end =
    ap (judge_reply default_yes)
      (read_input-exact 1 (omega arith) (0 ∷ 0 ∷ []) ks enter rest h is_end)
    ∙ ap (λ s. answered (judge default_yes (get_or (filled 1 s) 0 0))) (seen-kept ks blank)
    ∙ ap answered (judge-meaning default_yes (kept blank ks) (Letter-kept ks blank tt))
