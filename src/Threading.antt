-- ===== src/Threading.antt =====
-- Threads on the application processors, src/boot/mftah_uefi/threading.c. The firmware's answers are
-- arguments. The mutex is a plain flag, and the calls below are steps that do not overlap.
pub mod Marks
pub mod Exclusive
pub mod Reach
pub mod Race
pub mod Others
pub mod Join
pub mod Mutex
pub mod Life
pub mod Initialize
mod Tests
use cr_ow_s.Base.{
  ℕ, zero, suc, ◌+◌, ◌-◌, Bool, true, false, not, ◌&&◌, ◌||◌, List, [], ◌∷◌, Option, none, some,
  leb, ◌==◌, if◌then◌else◌, length, map,
}
use cr_ow_s.Base.Words.{sub64}
use cr_ow_s.Base.Status.{Status, is_error}

-- MFTAH_SYSTEM_MP
pub record Mp : Type 0 where
  pub processor_number : ℕ
  pub is_bsp : Bool
  pub is_enabled : Bool
  pub is_healthy : Bool
  pub is_working : Bool

-- MFTAH_THREAD, without its completion event.
pub record Thread : Type 0 where
  pub method : ℕ
  pub context : ℕ
  pub started : Bool
  pub finished : Bool
  pub assigned_processor_number : ℕ

-- CreateThread: the status and the thread, or the PANIC without a completion event.
pub data Creation : Type 0 where
  created : Status → Thread → Creation
  panicked : Creation

-- CreateThread of a thread that is not NULL, from the status of CreateEvent. The address 0 is NULL.
unfoldable pub create_thread : ℕ → ℕ → Thread → Status → Creation
create_thread method context t event =
    if (method == 0) || (context == 0)
    then created Status.invalid_parameter t
    else if is_error event
    then panicked
    else created Status.success record {
      method = method;
      context = context;
      started = false;
      finished = false;
      assigned_processor_number = t.assigned_processor_number;
    }

-- The three bits of EFI_PROCESSOR_INFORMATION.StatusFlag.
pub record Info : Type 0 where
  pub as_bsp : Bool
  pub enabled : Bool
  pub health_status : Bool

-- What RefreshMPs is told: whether the new list is allocated, and GetProcessorInfo by number.
pub record Survey : Type 0 where
  pub allocated : Bool
  pub status : ℕ → Status
  pub info : ℕ → Info

abbrev pub put_first : Mp → Option (List Mp) → Option (List Mp)
put_first mp none = none
put_first mp (some mps) = some (mp ∷ mps)

-- The loop of RefreshMPs from processor `i` on; `none` is the return with EFI_ABORTED.
unfoldable pub refresh_from : Survey → ℕ → List Mp → Option (List Mp)
refresh_from v i [] = some []
refresh_from v i (mp ∷ mps) =
    let rest = refresh_from v (suc i) mps in
    if is_error (v.status i)
    then none
    else put_first
        (record {
          processor_number = i;
          is_bsp = (v.info i).as_bsp;
          is_enabled = (v.info i).enabled;
          is_healthy = (v.info i).health_status;
          is_working = mp.is_working;
        })
        rest

unfoldable pub kept_or : List Mp → Option (List Mp) → Status × List Mp
kept_or mps none = (Status.aborted, mps)
kept_or mps (some fresh) = (Status.success, fresh)

-- RefreshMPs
unfoldable pub refresh : Survey → List Mp → Status × List Mp
refresh v mps =
    if not v.allocated then (Status.out_of_resources, mps) else kept_or mps (refresh_from v 0 mps)

-- mSystemMultiprocessingContext.MpList[i].IsWorking = b
pub set_working : List Mp → ℕ → Bool → List Mp
set_working [] i b = []
set_working (mp ∷ mps) zero b = record mp { is_working = b } ∷ mps
set_working (mp ∷ mps) (suc i) b = mp ∷ set_working mps i b

-- How the inner loop of StartThread ends: on a processor, with an error of StartupThisAP, or
-- without a processor.
pub data Attempt : Type 0 where
  assigned : ℕ → Attempt
  refused : Status → Attempt
  busy : Attempt

-- The inner loop from processor `i` on; `startup` answers for StartupThisAP.
pub attempt_from : (ℕ → Status) → ℕ → List Mp → Attempt
attempt_from startup i [] = busy
attempt_from startup i (mp ∷ mps) =
    let rest = attempt_from startup (suc i) mps in
    if mp.is_bsp || mp.is_working
    then rest
    else if is_error (startup i)
    then refused (startup i)
    else assigned i

-- One turn of StartThread's outer loop.
pub record Turn : Type 0 where
  pub survey : Survey
  pub startup : ℕ → Status

-- The status, the thread and the processors after StartThread; `waiting` is a loop that the turns
-- have not ended.
pub data Start : Type 0 where
  returned : Status → Thread → List Mp → Start
  waiting : List Mp → Start

-- The statements behind StartupThisAP.
pub mark_started : ℕ → Thread × List Mp → Thread × List Mp
mark_started i (t, mps) =
    (record t { started = true; assigned_processor_number = i }, set_working mps i true)

pub after_attempt : Thread → List Mp → Start → Attempt → Start
after_attempt t mps again (assigned i) =
    let (t', mps') = mark_started i (t, mps) in returned Status.success t' mps'
after_attempt t mps again (refused s) = returned s t mps
after_attempt t mps again busy = again

-- The outer loop.
pub start_loop : Thread → Bool → List Mp → List Turn → Start
start_loop t wait mps [] = waiting mps
start_loop t wait mps (u ∷ us) =
    let fresh = (refresh u.survey mps).1 in
    let rest = start_loop t wait fresh us in
    after_attempt t fresh (if wait then rest else returned Status.out_of_resources t fresh)
      (attempt_from u.startup 0 fresh)

-- StartThread
pub start_thread : Thread → Bool → List Mp → List Turn → Start
start_thread t wait mps turns =
    if t.started
    then returned Status.already_started t mps
    else if t.finished
    then returned Status.invalid_parameter t mps
    else start_loop t wait mps turns

-- FinishThread, of a thread that is not NULL.
unfoldable pub finish_thread : Survey → Thread → List Mp → Thread × List Mp
finish_thread v t mps = if t.finished then (t, mps) else (
  record t { finished = true },
  (refresh v (set_working mps t.assigned_processor_number false)).1,
)

-- IsThreadingEnabled and GetThreadLimit, of the MP protocol (0 for NULL) and the processors.
pub is_threading_enabled : ℕ → List Mp → Bool
is_threading_enabled protocol mps = not (protocol == 0) || leb 1 (length mps)

pub get_thread_limit : ℕ → List Mp → ℕ
get_thread_limit protocol mps =
    if is_threading_enabled protocol mps then sub64 (length mps) 1 else 0
