-- ===== src/Boot/Main/Runs.antt =====
-- efi_main runs on the state machine.
use cr_ow_s.Loader
use cr_ow_s.Loader.{select_payload}
use cr_ow_s.Boot.Course.{World, Course}
use cr_ow_s.Boot.Course.Phases.{Phase, Runs}

module _ (w : World) where
  abbrev Follows : Phase → Course → Type 0
  Follows p c = Runs w p c.steps
