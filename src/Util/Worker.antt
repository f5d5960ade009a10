-- ===== src/Util/Worker.antt =====
-- SpawnDecryptionWorker, src/boot/mftah_uefi/util.c: a work order becomes a thread that waits.
use cr_ow_s.Base.{
  ℕ, ◌≡◌, refl, Bool, false, not, ◌&&◌, ◌||◌, leb, ◌==◌, if◌then◌else◌, if_both, if_elim,
}
use cr_ow_s.Base.Status.{Status, is_error}
use cr_ow_s.Threading.{Thread, Creation, created, panicked, create_thread}

-- mftah_work_order_t, as far as the function reads it, and the statuses that it names.
pub record WorkOrder : Type 0 where
  pub location : ℕ
  pub length : ℕ
  pub thread_index : ℕ
  pub suppress_progress : Bool

pub data MftahStatus : Type 0 where
  success invalid_parameter thread_busy invalid_password : MftahStatus
  other : ℕ → MftahStatus

-- The progress hook: none, PrintProgress, or SaveThreadProgress.
pub data Hook : Type 0 where
  no_hook print_progress save_thread_progress : Hook

-- The status with the thread at the order's index, or a PANIC.
pub data Spawn : Type 0 where
  returned : MftahStatus → Thread → Spawn
  stopped : Spawn

-- What CreateThread's result means for the function.
abbrev pub queued : Creation → Spawn
queued (created s t) = if is_error s then stopped else returned MftahStatus.success t
queued panicked = stopped

abbrev pub hook_of : Bool → WorkOrder → Hook
hook_of threading order =
    if order.suppress_progress
    then Hook.no_hook
    else if threading
    then Hook.save_thread_progress
    else Hook.print_progress

-- SpawnDecryptionWorker, with the limit of MFTAH, whether the pointers are given, what
-- IsThreadingEnabled says, MFTAH's decryption, the address of `work` and of the new context, and
-- the status of CreateEvent. The pools that it allocates are taken to be given. `t` is the thread at the order's index.
unfoldable pub spawn_decryption_worker :
    ℕ → Bool → Bool → (WorkOrder → Hook → MftahStatus) → ℕ → ℕ → Status → WorkOrder → Thread → Spawn
spawn_decryption_worker max given threading crypt work context event order t =
    if not given
    then returned MftahStatus.invalid_parameter t
    else if leb max order.thread_index
    then stopped
    else if order.length == 0
    then returned MftahStatus.success t
    else if not threading
    then returned (crypt order (hook_of threading order)) t
    else if t.started && not t.finished
    then returned MftahStatus.thread_busy t
    else queued (create_thread work context t event)

-- What becomes of the thread at the order's index.
pub data Fate (work context : ℕ) (t : Thread) : Spawn → Type 0 where
  kept : (s : MftahStatus) → Fate work context t (returned s t)
  waits :
      (new : Thread)
      → (t.started && not t.finished) ≡ false
      → new.method ≡ work
      → new.context ≡ context
      → new.started ≡ false
      → new.finished ≡ false
      → Fate work context t (returned MftahStatus.success new)
  panics : Fate work context t stopped

module _ (max work context : ℕ) (given threading : Bool) (crypt : WorkOrder → Hook → MftahStatus)
    (event : Status) (order : WorkOrder) (t : Thread) where
  queued-Fate :
      (t.started && not t.finished) ≡ false
      → Fate work context t (queued (create_thread work context t event))
  unfolding create_thread
  queued-Fate idle =
      if_both (λ r. Fate work context t (queued r)) ((work == 0) || (context == 0)) panics
        (if_both (λ r. Fate work context t (queued r)) (is_error event) panics
          (waits _ idle refl refl refl refl))

  -- A work order either leaves the thread of its index as it was, or makes it wait with the new
  -- procedure and context, neither started nor finished, or ends in a PANIC. A thread that was
  -- started and has not finished is never replaced.
  pub spawn_decryption_worker-Fate :
      Fate work context t
        (spawn_decryption_worker max given threading crypt work context event order t)
  unfolding spawn_decryption_worker
  spawn_decryption_worker-Fate =
      let Good = Fate work context t in
      if_both Good (not given) (kept MftahStatus.invalid_parameter) (
        if_both Good (leb max order.thread_index) panics (
          if_both Good (order.length == 0) (kept MftahStatus.success) (
            if_both Good (not threading) (kept (crypt order (hook_of threading order))) (
              if_elim Good (t.started && not t.finished) (λ e. kept MftahStatus.thread_busy)
                (λ e. queued-Fate e)))))
