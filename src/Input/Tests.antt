-- ===== src/Input/Tests.antt =====
-- Keyboard sessions at concrete keys.
use cr_ow_s.Base.{ℕ, ◌≡◌, refl, true, false, List, [], ◌∷◌, Option, none, some, arith}
use cr_ow_s.Base.Status.{Status}
use cr_ow_s.Input.{
  returned, backspace, edit, read_loop, read_input, judge, confirm, answered, asking,
}
use cr_ow_s.Input.Editing.{type_key}
use cr_ow_s.Input.Session.{press, turns, typed}
use cr_ow_s.Input.Exact.{see_key, read_input-exact}
use cr_ow_s.Input.Kept.{confirm-kept}
use cr_ow_s.Input.Bounds.{Bounded, read_input-Bounded}

-- `a`, nothing, `b`, backspace, `c`, and `d` for which there is no room.
abbrev keys : List (Option ℕ)
keys = some b'a' ∷ none ∷ some b'b' ∷ some backspace ∷ some b'c' ∷ some b'd' ∷ []

typed-keys : typed 2 [] keys ≡ b'a' ∷ b'c' ∷ []
unfolding type_key
typed-keys = refl

read_input-keys :
    read_input 2 [] Status.success (turns keys (press 0x0d ∷ []))
    ≡ returned Status.success (b'a' ∷ b'c' ∷ 0 ∷ []) (some 4)
unfolding read_input read_loop edit
read_input-keys = refl

confirm_open : confirm true Status.success (press b'n' ∷ []) ≡ asking
unfolding confirm read_input read_loop edit
confirm_open = refl

-- A keyboard that cannot be reset takes the default.
confirm_unreadable : confirm true Status.device_error [] ≡ answered Status.success
unfolding confirm read_input judge
confirm_unreadable = refl

-- `q`, erased, and `y` in its place, erased too.
confirm-kept_example :
    confirm false Status.success (
      turns (some b'q' ∷ some backspace ∷ none ∷ some b'y' ∷ some backspace ∷ []) (press 0x0d ∷ []))
    ≡ answered Status.success
confirm-kept_example =
    confirm-kept false (some b'q' ∷ some backspace ∷ none ∷ some b'y' ∷ some backspace ∷ []) 0x0d []
      (refl, (refl, (refl, (refl, tt)))) refl

read_input-Bounded_example :
    Bounded 2 [] (read_input 2 [] Status.success (turns keys (press 0x0d ∷ [])))
read_input-Bounded_example =
    read_input-Bounded 2 [] (omega arith) Status.success (turns keys (press 0x0d ∷ []))

read_input-exact_example :
    read_input 2 [] Status.success (turns keys (press 0x0d ∷ []))
    ≡ returned Status.success (b'a' ∷ b'c' ∷ 0 ∷ []) (some 4)
unfolding see_key
read_input-exact_example =
    read_input-exact 2 (omega arith) [] keys 0x0d [] (refl, (refl, (refl, (refl, (refl, tt))))) refl
