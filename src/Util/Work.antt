-- ===== src/Util/Work.antt =====
-- The decryption threads of src/boot/mftah_uefi/util.c: the context that SpawnDecryptionWorker makes
-- for a thread, and the procedure `work` that the thread runs.
pub mod Life
mod Tests
use cr_ow_s.Base.{ℕ, Bool, true, List, take, if◌then◌else◌}
use cr_ow_s.Base.Status.{Status}
use cr_ow_s.Threading.{Survey}
use cr_ow_s.Threading.Exclusive.{System, put, finish_at}
use cr_ow_s.Util.Worker.{
  WorkOrder, MftahStatus, Hook, hook_of, Spawn, returned, stopped, spawn_decryption_worker,
}

abbrev pub aes_block_bytes : ℕ
aes_block_bytes = 16

abbrev pub sha256_bytes : ℕ
sha256_bytes = 32

-- DECRYPT_THREAD_CTX, with the number of its thread, and the hook of its progress record.
pub record ThreadContext : Type 0 where
  pub thread_index : ℕ
  pub current_place : ℕ
  pub work_order : WorkOrder
  pub hook : Hook
  pub sha256_key : List ℕ
  pub initialization_vector : List ℕ

-- The context of a new thread: copies of the order, the key and the vector.
unfoldable pub new_context : WorkOrder → List ℕ → List ℕ → ThreadContext
new_context order key iv = record {
  thread_index = order.thread_index;
  current_place = 0;
  work_order = order;
  hook = hook_of true order;
  sha256_key = take sha256_bytes key;
  initialization_vector = take aes_block_bytes iv;
}

-- What SpawnDecryptionWorker leaves of the system; a PANIC leaves nothing to go on with.
abbrev pub store_spawn : System → ℕ → Spawn → System
store_spawn s k (returned status t) = record { mps = s.mps; threads = put s.threads k t }
store_spawn s k stopped = s

-- SpawnDecryptionWorker with threads, of pointers that are given.
unfoldable pub spawn_at :
    ℕ → (WorkOrder → Hook → MftahStatus) → ℕ → ℕ → Status → WorkOrder → System → System
spawn_at max crypt work context event order s = store_spawn s order.thread_index (
    spawn_decryption_worker max true true crypt work context event order
      (s.threads order.thread_index))

-- The system when `work` has returned, or its PANIC.
pub data Worked : Type 0 where
  done : System → Worked
  panicked : Worked

-- `work`, with MFTAH's decryption and MFTAH_ERROR.
unfoldable pub work :
    (WorkOrder → List ℕ → List ℕ → Hook → MftahStatus)
    → (MftahStatus → Bool)
    → Survey
    → ThreadContext
    → System
    → Worked
work crypt is_failure v c s =
    if is_failure (crypt c.work_order c.sha256_key c.initialization_vector c.hook)
    then panicked
    else done (finish_at s c.thread_index v)
