-- ===== src/Threading/Mutex.antt =====
-- What ThreadMutex is worth, src/boot/mftah_uefi/threading.c: RefreshMPs on one processor, and on another
-- the statements of StartThread or FinishThread that store a mark, in single steps. MUTEX_SYNC goes on
-- when it reads the flag as false, and MUTEX_LOCK sets it, in a step of its own.
pub mod Lost
use cr_ow_s.Base.{ℕ, ◌<◌, ◌≡◌, Bool, true, false, List, [], ◌∷◌, ◌++◌, length}
use cr_ow_s.Threading.{Mp, Survey, set_working}
use cr_ow_s.Threading.Marks.{working}

-- RefreshMPs stands before MUTEX_SYNC, between it and MUTEX_LOCK, in the loop with the entries that
-- ListOfSystemMPs has so far, behind the exchange of the lists, or behind MUTEX_UNLOCK.
pub data Refresher : Type 0 where
  outside passed : Refresher
  copying : List Mp → Refresher
  swapped left : Refresher

-- The same for the other processor, which stores one mark.
pub data Marker : Type 0 where
  outside passed locked marked left : Marker

-- ThreadMutex, MpList, and where the two processors stand.
pub record Shared : Type 0 where
  pub mutex : Bool
  pub mps : List Mp
  pub refresher : Refresher
  pub marker : Marker

-- The entry that the loop makes for processor `i`.
abbrev pub copied_entry : Survey → List Mp → ℕ → Mp
copied_entry v mps i = record {
  processor_number = i;
  is_bsp = (v.info i).as_bsp;
  is_enabled = (v.info i).enabled;
  is_healthy = (v.info i).health_status;
  is_working = working mps i;
}

-- One step of one of the two processors, where the firmware knows each processor, and the mark `b` is
-- stored for processor `p`.
pub data Move (v : Survey) (p : ℕ) (b : Bool) : Shared → Shared → Type 0 where
  refresh_syncs :
      (s : Shared)
      → s.refresher ≡ Refresher.outside
      → s.mutex ≡ false
      → Move v p b s (record s { refresher = Refresher.passed })
  refresh_locks :
      (s : Shared)
      → s.refresher ≡ Refresher.passed
      → Move v p b s (record s { mutex = true; refresher = Refresher.copying [] })
  refresh_copies :
      (s : Shared) (new : List Mp)
      → s.refresher ≡ Refresher.copying new
      → length new < length s.mps
      → Move v p b s (record s {
        refresher = Refresher.copying (new ++ (copied_entry v s.mps (length new) ∷ []));
      })
  refresh_swaps :
      (s : Shared) (new : List Mp)
      → s.refresher ≡ Refresher.copying new
      → length new ≡ length s.mps
      → Move v p b s (record s { mps = new; refresher = Refresher.swapped })
  refresh_unlocks :
      (s : Shared)
      → s.refresher ≡ Refresher.swapped
      → Move v p b s (record s { mutex = false; refresher = Refresher.left })
  mark_syncs :
      (s : Shared)
      → s.marker ≡ Marker.outside
      → s.mutex ≡ false
      → Move v p b s (record s { marker = Marker.passed })
  mark_locks :
      (s : Shared)
      → s.marker ≡ Marker.passed
      → Move v p b s (record s { mutex = true; marker = Marker.locked })
  mark_stores :
      (s : Shared)
      → s.marker ≡ Marker.locked
      → Move v p b s (record s { mps = set_working s.mps p b; marker = Marker.marked })
  mark_unlocks :
      (s : Shared)
      → s.marker ≡ Marker.marked
      → Move v p b s (record s { mutex = false; marker = Marker.left })

pub data Moves (v : Survey) (p : ℕ) (b : Bool) (s : Shared) : Shared → Type 0 where
  none_yet : Moves v p b s s
  more : (t u : Shared) → Moves v p b s t → Move v p b t u → Moves v p b s u
