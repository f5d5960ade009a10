-- ===== src/Util/Spin/Ends.antt =====
-- How UefiSpin ends.
use cr_ow_s.Base.{ℕ, ◌%◌, ◌^◌, ◌≤◌, ◌<◌, ◌≡◌, ◌≢◌, Bool, true, false, List, [], ◌∷◌, ◌++◌}
use cr_ow_s.Threading.Exclusive.{System, Reachable}
use cr_ow_s.Util.Spin.{Look, Spun, returned, spinning, panicked}
use cr_ow_s.Util.Spin.Rounds.{AllFinished, reported}

-- The places that were reported stay below the total in each round.
abbrev pub AllShort : ℕ → List (List Look) → Type 0
AllShort total [] = Unit {0}
AllShort total (ls ∷ rounds) = (reported ls % 2 ^ 64 < total) × AllShort total rounds

-- The ends of UefiSpin for `total` bytes. Only with threading and for some bytes it waits, and then
-- it comes back after the first round in which every thread with a work order was finished, or their
-- places came up to the total.
pub data Fate (enabled : Bool) (total : ℕ) (rounds : List (List Look)) : Spun → Type 0 where
  idle : (t : System) → enabled ≡ false → Fate enabled total rounds (returned t)
  empty : enabled ≡ true → total ≡ 0 → Fate enabled total rounds panicked
  finished :
      (before later : List (List Look)) (ls : List Look) (t : System)
      → enabled ≡ true
      → total ≢ 0
      → rounds ≡ before ++ (ls ∷ later)
      → AllShort total before
      → AllFinished t 0 ls
      → Fate enabled total rounds (returned t)
  arrived :
      (before later : List (List Look)) (ls : List Look) (t : System)
      → enabled ≡ true
      → total ≢ 0
      → rounds ≡ before ++ (ls ∷ later)
      → AllShort total before
      → total ≤ reported ls % 2 ^ 64
      → Fate enabled total rounds (returned t)
  waits :
      (t : System)
      → enabled ≡ true
      → total ≢ 0
      → AllShort total rounds
      → Fate enabled total rounds (spinning t)

-- The system at the end.
pub data Safe : Spun → Type 0 where
  after : (t : System) → Reachable t → Safe (returned t)
  during : (t : System) → Reachable t → Safe (spinning t)
  halted : Safe panicked
