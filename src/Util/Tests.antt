-- ===== src/Util/Tests.antt =====
-- A work order for a running thread, and a move between overlapping buffers.
use cr_ow_s.Base.{◌+◌, ◌≡◌, refl, true, false, Bool}
use cr_ow_s.Base.Status.{Status}
use cr_ow_s.Threading.{Thread}
use cr_ow_s.Util.Wrappers.{mem_move}
use cr_ow_s.Util.Wrappers.Moves.{Moved, mem_move-Moved}
use cr_ow_s.Util.Worker.{WorkOrder, MftahStatus, Hook, returned, spawn_decryption_worker}

abbrev order : WorkOrder
order = record { location = 4096; length = 512; thread_index = 3; suppress_progress = false }

abbrev thread_of : Bool → Thread
thread_of started = record {
  method = 0;
  context = 0;
  started = started;
  finished = false;
  assigned_processor_number = 0;
}

abbrev decrypt : WorkOrder → Hook → MftahStatus
decrypt o h = MftahStatus.success

spawn_decryption_worker_busy :
    spawn_decryption_worker 16 true true decrypt 7 8 Status.success order (thread_of true)
    ≡ returned MftahStatus.thread_busy (thread_of true)
unfolding spawn_decryption_worker
spawn_decryption_worker_busy = refl

mem_move-Moved_example :
    ((mem_move 0x1002 0x1000 5 (λ a. a)).0 ≡ 0x1002 + 5)
    × Moved 0x1002 0x1000 5 (λ a. a) (mem_move 0x1002 0x1000 5 (λ a. a)).1
mem_move-Moved_example = mem_move-Moved 0x1002 0x1000 5 (λ a. a)
