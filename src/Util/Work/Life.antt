-- ===== src/Util/Work/Life.antt =====
-- The whole life of a decryption thread: it is spawned, started, and its procedure comes to its end.
use cr_ow_s.Base.{ℕ, ◌<◌, ◌≡◌, ◌≢◌, Bool, true, false, not, ◌&&◌}
use cr_ow_s.Base.Status.{Status, is_error}
use cr_ow_s.Threading.{Thread}
use cr_ow_s.Threading.Exclusive.{System}
use cr_ow_s.Threading.Life.{Through}
use cr_ow_s.Util.Worker.{WorkOrder, MftahStatus, Hook}
use cr_ow_s.Util.Work.{Worked, done, panicked}

-- How `work` ends for a thread of the system `s`: by a PANIC if the decryption has failed; else the
-- thread has run from its start to its end.
pub data Lived (s : System) (k : ℕ) (failed : Bool) : Worked → Type 0 where
  stops : failed ≡ true → Lived s k failed panicked
  lives : (t : System) → failed ≡ false → Through s k t → Lived s k failed (done t)

module _ (max : ℕ) (crypt : WorkOrder → Hook → MftahStatus) (method context : ℕ) (event : Status)
    (order : WorkOrder) (s : System) (in_range : order.thread_index < max)
    (some_bytes : order.length ≢ 0) (given : method ≢ 0) (has_context : context ≢ 0)
    (created : is_error event ≡ false)
    (idle : ((s.threads order.thread_index).started && not (s.threads order.thread_index).finished)
      ≡ false) where
  new_thread : Thread
  new_thread = record (s.threads order.thread_index) {
    method = method;
    context = context;
    started = false;
    finished = false;
  }
