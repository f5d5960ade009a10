-- ===== src/Util/Spin/Tests.antt =====
-- A wait for one thread, which is started in the first round and has come to its end in the second.
use cr_ow_s.Base.{ℕ, true, false, List, [], ◌∷◌}
use cr_ow_s.Base.Status.{Status}
use cr_ow_s.Threading.{Survey}
use cr_ow_s.Threading.Exclusive.{System}
use cr_ow_s.Util.Spin.{Look}

abbrev survey : Survey
survey = record {
  allocated = true;
  status = λ i. Status.success;
  info = λ i. record { as_bsp = false; enabled = true; health_status = true };
}

abbrev system : System
system = record {
  mps =
      record {
        processor_number = 0;
        is_bsp = false;
        is_enabled = true;
        is_healthy = true;
        is_working = false;
      }
      ∷ [];
  threads = λ k. record {
    method = 1;
    context = 1;
    started = false;
    finished = false;
    assigned_processor_number = 0;
  };
}

abbrev look : List (ℕ × Survey) → ℕ → Look
look ended place = record {
  ended = ended;
  present = true;
  place = place;
  turn = record { survey = survey; startup = λ i. Status.success };
}

abbrev rounds : List (List Look)
rounds = (look [] 100 ∷ []) ∷ ((look ((0, survey) ∷ []) 512 ∷ []) ∷ [])
