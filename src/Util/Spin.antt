-- ===== src/Util/Spin.antt =====
-- UefiSpin, src/boot/mftah_uefi/util.c: the wait for the decryption threads, over the system of
-- Threading.Exclusive, which the other processors change in the meantime.
pub mod Steps
pub mod Rounds
pub mod Ends
mod Tests
use cr_ow_s.Base.{ℕ, ◌+◌, Bool, true, false, not, ◌&&◌, List, [], ◌∷◌, ltb, ◌==◌, if◌then◌else◌}
use cr_ow_s.Base.Words.{add64}
use cr_ow_s.Threading.{Survey, Turn}
use cr_ow_s.Threading.Exclusive.{System, start_at}
use cr_ow_s.Threading.Others.{end_all}

-- What the loop meets at one thread: the procedures that have come to their end since the last look,
-- whether the thread has a context with a work order, its CurrentPlace, and the firmware's answers if
-- it is to be started.
pub record Look : Type 0 where
  pub ended : List (ℕ × Survey)
  pub present : Bool
  pub place : ℕ
  pub turn : Turn

-- A waiting thread is tried.
pub try_start : System → ℕ → Turn → System
try_start s k u =
    if not (s.threads k).started && not (s.threads k).finished then start_at s k u else s

-- One thread: the system, Completed and Progress.
pub look_at : System → ℕ → Bool → ℕ → Look → System × (Bool × ℕ)
look_at s k completed progress l =
    let seen = end_all s l.ended in
    let tried = try_start seen k l.turn in
    if not l.present
    then (seen, (completed, progress))
    else (tried, (completed && (tried.threads k).finished, add64 progress l.place))

-- The threads from number `k` on.
pub look_around : System → ℕ → Bool → ℕ → List Look → System × (Bool × ℕ)
look_around s k completed progress [] = (s, (completed, progress))
look_around s k completed progress (l ∷ ls) =
    let r = look_at s k completed progress l in look_around r.0 (k + 1) r.1.0 r.1.1 ls

-- The return, or a loop that still turns, with the system; or the PANIC.
pub data Spun : Type 0 where
  returned spinning : System → Spun
  panicked : Spun

-- The loop; each round has a look at each of the MFTAH_MAX_THREAD_COUNT threads.
pub spin : ℕ → System → List (List Look) → Spun
spin total s [] = spinning s
spin total s (round ∷ rounds) =
    let r = look_around s 0 true 0 round in
    let again = spin total r.0 rounds in
    if not r.1.0 && ltb r.1.1 total then again else returned r.0

-- UefiSpin, with the answer of IsThreadingEnabled and *QueuedBytes.
pub uefi_spin : Bool → ℕ → System → List (List Look) → Spun
uefi_spin enabled total s rounds =
    if not enabled then returned s else if total == 0 then panicked else spin total s rounds
