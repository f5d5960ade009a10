-- ===== src/Threading/Tests.antt =====
-- Two application processors and two threads.
use cr_ow_s.Base.{ℕ, ◌≡◌, refl, true, false, Bool, List, [], ◌∷◌, arith, ◌==◌}
use cr_ow_s.Base.Status.{Status}
use cr_ow_s.Threading.{
  Mp, Thread, Survey, Turn, attempt_from, mark_started, finish_thread, returned, start_thread,
  start_loop, after_attempt, refresh, refresh_from, kept_or, set_working,
}
use cr_ow_s.Threading.Exclusive.{System, initial, next, starts, start_at, Exclusive}
use cr_ow_s.Threading.Exclusive.{Reachable}
use cr_ow_s.Threading.Others.{}
use cr_ow_s.Threading.Join.{Ends, shown, join_thread, destroy_thread, system_of, join_destroy-Ends}
use cr_ow_s.Threading.Mutex.Lost.{Lost, refresh-Lost}
use cr_ow_s.Threading.Race.{Leaked, mark_started-Leaked}
use cr_ow_s.Threading.Initialize.{Platform, initialize_threading}
use cr_ow_s.Threading.Initialize.Numbered.{Numbered, initialize_threading-Numbered}

-- Processor 0 is the boot processor.
abbrev survey : Survey
survey = record {
  allocated = true;
  status = λ i. Status.success;
  info = λ i. record { as_bsp = i == 0; enabled = true; health_status = true };
}

abbrev processor : ℕ → Bool → Mp
processor i b = record {
  processor_number = i;
  is_bsp = i == 0;
  is_enabled = true;
  is_healthy = true;
  is_working = b;
}

abbrev processors : List Mp
processors = processor 0 false ∷ processor 1 true ∷ processor 2 false ∷ []

abbrev waiting_thread : Thread
waiting_thread = record {
  method = 1;
  context = 1;
  started = false;
  finished = false;
  assigned_processor_number = 0;
}

abbrev turn : Turn
turn = record { survey = survey; startup = λ i. Status.success }

abbrev system : System
system = record { mps = processors; threads = λ k. waiting_thread }

start_thread_idle :
    start_thread waiting_thread false processors (turn ∷ [])
    ≡ returned Status.success
        (record waiting_thread { started = true; assigned_processor_number = 2 })
        (processor 0 false ∷ processor 1 true ∷ processor 2 true ∷ [])
unfolding start_thread start_loop after_attempt refresh refresh_from kept_or attempt_from
    mark_started set_working
start_thread_idle = refl

mark_started-Leaked_example :
    let late = mark_started 2 (finish_thread survey waiting_thread processors) in
    Leaked 2 late.0 late.1
mark_started-Leaked_example = mark_started-Leaked survey waiting_thread processors 2 (omega arith)

abbrev platform : Platform
platform = record {
  locate = Status.success;
  count = Status.success;
  number_of_processors = 3;
  who_am_i = Status.success;
  bsp_processor_number = 0;
  survey = survey;
}

initialize_threading-Numbered_example : Numbered platform (initialize_threading platform)
initialize_threading-Numbered_example = initialize_threading-Numbered platform

-- The thread runs at the first look, and has come to its end at the second.
abbrev rounds : List (List (ℕ × Survey))
rounds = [] ∷ (((0, survey) ∷ []) ∷ [])

abbrev running_system : System
running_system = start_at system 0 turn

join_destroy-Ends_example :
    Ends 0 [] survey (shown running_system rounds) (join_thread 0 rounds survey running_system)
    × Ends 0
        (0 ∷ [])
        survey
        (shown running_system rounds)
        (destroy_thread 0 rounds survey running_system)
    × Reachable (system_of (join_thread 0 rounds survey running_system))
    × Reachable (system_of (destroy_thread 0 rounds survey running_system))
join_destroy-Ends_example =
    join_destroy-Ends 0 rounds survey running_system
      (next system _ (initial system (λ k. refl)) (starts system 0 turn))

refresh-Lost_example : Lost survey 2 true processors
refresh-Lost_example = refresh-Lost survey 2 true processors
