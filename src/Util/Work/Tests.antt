-- ===== src/Util/Work/Tests.antt =====
-- A thread that is spawned, started on the only application processor, and ends.
use cr_ow_s.Base.{ℕ, Bool, true, false, List, [], ◌∷◌, replicate, ◌==◌}
use cr_ow_s.Base.Status.{Status}
use cr_ow_s.Threading.{Mp, Survey, Turn}
use cr_ow_s.Threading.Exclusive.{System}
use cr_ow_s.Util.Worker.{WorkOrder, MftahStatus, Hook}

abbrev survey : Survey
survey = record {
  allocated = true;
  status = λ i. Status.success;
  info = λ i. record { as_bsp = i == 0; enabled = true; health_status = true };
}

abbrev turn : Turn
turn = record { survey = survey; startup = λ i. Status.success }

abbrev processor : ℕ → Mp
processor i = record {
  processor_number = i;
  is_bsp = i == 0;
  is_enabled = true;
  is_healthy = true;
  is_working = false;
}

abbrev system : System
system = record {
  mps = processor 0 ∷ processor 1 ∷ [];
  threads = λ k. record {
    method = 0;
    context = 0;
    started = false;
    finished = false;
    assigned_processor_number = 0;
  };
}

abbrev order : WorkOrder
order = record { location = 4096; length = 512; thread_index = 3; suppress_progress = false }

abbrev crypt : WorkOrder → Hook → MftahStatus
crypt o h = MftahStatus.success

abbrev run : WorkOrder → List ℕ → List ℕ → Hook → MftahStatus
run o key iv h = MftahStatus.success

abbrev is_failure : MftahStatus → Bool
is_failure MftahStatus.success = false
is_failure _ = true

abbrev key : List ℕ
key = replicate 32 0x5a

abbrev iv : List ℕ
iv = replicate 16 0xa5
