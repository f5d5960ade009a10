-- ===== src/Threading/Initialize.antt =====
-- InitializeThreading, src/boot/mftah_uefi/threading.c: the list of the processors. What
-- EnableDisableAP answers is only printed, so it is left out.
pub mod Numbered
use cr_ow_s.Base.{
  ℕ, zero, suc, ◌+◌, ◌-◌, ◌≤◌, ◌<◌, ◌≡◌, ◌≢◌, ◌⊎◌, inl, inr, refl, sym, ◌∙◌, Bool, true, false, not,
  List, [], ◌∷◌, arith, ltb, if◌then◌else◌, if_elim, if_both, length, set, get_or, replicate,
  length-set, length-replicate, ltb→lt,
}
use cr_ow_s.Base.Status.{Status, is_error}
use cr_ow_s.Threading.{Mp, Survey}

-- The statuses of LocateProtocol, GetNumberOfProcessors and WhoAmI, what the last two store, and
-- what is said of each processor.
pub record Platform : Type 0 where
  pub locate : Status
  pub count : Status
  pub number_of_processors : ℕ
  pub who_am_i : Status
  pub bsp_processor_number : ℕ
  pub survey : Survey

-- The list as AllocateZeroPool returns it, an entry for a processor, and an error other than the
-- one that skips a processor.
abbrev pub blank : Mp
blank = record {
  processor_number = 0;
  is_bsp = false;
  is_enabled = false;
  is_healthy = false;
  is_working = false;
}

abbrev pub described : Survey → ℕ → Mp
described v i = record {
  processor_number = i;
  is_bsp = (v.info i).as_bsp;
  is_enabled = (v.info i).enabled;
  is_healthy = (v.info i).health_status;
  is_working = false;
}

abbrev pub is_not_found : Status → Bool
is_not_found Status.not_found = true
is_not_found _ = false

-- The number of processors and their list, or the error that ended the loop.
pub data Listing : Type 0 where
  listed : ℕ → List Mp → Listing
  stopped : Status → Listing

-- The loop from processor `i` on. The number of processors only shrinks, so as many rounds as it
-- had at first reach the loop's end.
pub list_processors : ℕ → Survey → ℕ → ℕ → List Mp → Listing
list_processors zero v i n mps = listed n mps
list_processors (suc rounds) v i n mps =
    let skip = list_processors rounds v (suc i) (n - 1) mps in
    let take = list_processors rounds v (suc i) n (set mps i (described v i)) in
    if ltb i n
    then (if is_not_found (v.status i)
        then skip
        else if is_error (v.status i)
        then stopped (v.status i)
        else take)
    else listed n mps

-- The status, and whether the protocol is kept; or the context's fields.
pub data Setup : Type 0 where
  failed : Status → Bool → Setup
  ready : ℕ → ℕ → List Mp → Setup

abbrev pub conclude : ℕ → Listing → Setup
conclude bsp (listed n mps) = ready n bsp mps
conclude bsp (stopped s) = failed s true

-- InitializeThreading
pub initialize_threading : Platform → Setup
initialize_threading f =
    let n = f.number_of_processors in
    if is_error f.locate
    then failed f.locate false
    else if is_error f.count
    then failed f.count true
    else if is_error f.who_am_i
    then failed f.who_am_i true
    else if not f.survey.allocated
    then failed Status.out_of_resources true
    else conclude f.bsp_processor_number (list_processors n f.survey 0 n (replicate n blank))
