-- ===== src/Ramdisk/Device/Sessions.antt =====
-- Whole sessions, on a registered disk.
use cr_ow_s.Base.{ℕ, ◌+◌, ◌≡◌, refl, ◌∙◌, ap, ap₂, false, true, Option, some, List, [], ◌∷◌}
use cr_ow_s.Base.Status.{Status}
use cr_ow_s.Base.Memory.{Memory, EfiLib}
use cr_ow_s.Ramdisk.{PrivateData}
use cr_ow_s.Ramdisk.BlockIo.Bounds.{IsRegistered}
use cr_ow_s.Ramdisk.Pools.{Event}
use cr_ow_s.Ramdisk.Register.{Firmware, register}
use cr_ow_s.Ramdisk.Register
use cr_ow_s.Ramdisk.Register.Checks.{register-Describes}
use cr_ow_s.Ramdisk.Device.{
  Request, reads, writes, Answer, serve, expected, call, session, IsAside, AllAside,
}
use cr_ow_s.Ramdisk.Device.Steps.{Shows, Agrees, read-Agrees, write-Agrees}

module _ (lib : EfiLib) {p : PrivateData} (ready : IsRegistered p)
    (writable : p.media.read_only ≡ false) where
  call-Agrees :
      (r : Request) (content : ℕ → ℕ) (m : Memory)
      → Shows p content m
      → IsAside p r
      → Agrees p (serve p.size r content) (call lib p r m)
  call-Agrees (reads lba n buffer) content m shown a =
      read-Agrees lib ready content m shown lba n buffer a
  call-Agrees (writes lba n buffer bytes) content m shown a =
      write-Agrees lib ready content m shown lba n buffer a bytes writable

  pub session-expected :
      (rs : List Request) (content : ℕ → ℕ) (m : Memory)
      → Shows p content m
      → AllAside p rs
      → session lib p rs m ≡ expected p.size rs content
  unfolding session expected
  session-expected [] content m shown all = refl
  session-expected (r ∷ rs) content m shown (first, all) =
      let step = call-Agrees r content m shown first in
      ap₂ (λ (a : Answer) (l : List Answer). a ∷ l) step.answer
        (session-expected rs (serve p.size r content).1 (call lib p r m).1 step.shows all)

-- A client that keeps its buffers beside the disk and asks for any blocks in any order, on a disk
-- that RamDiskRegister has left behind for an image: it sees exactly what the abstract device of
-- this size shows that starts with the image's bytes. So every read gives the bytes that were
-- written last, or those of the image, whatever the client has done in between, and a request is
-- refused exactly if it is not for whole blocks inside the disk.
pub register-session :
    (lib : EfiLib) (release_date : ℕ) (f : Firmware) (base size guid : ℕ) (s : Status)
    (p : PrivateData) (path : Option ℕ) (es : List Event) (rs : List Request) (m : Memory)
    → register lib release_date f base size (some guid) true ≡ Register.returned s (some p) path es
    → AllAside p rs
    → session lib p rs m ≡ expected size rs (λ i. m (base + i))
register-session lib release_date f base size guid s p path es rs m registered aside =
    let d = register-Describes lib release_date f base size guid true s p path es registered in
    session-expected lib d.ready d.writable rs (λ i. m (base + i)) m
      (λ i h. ap (λ (a : ℕ). m (a + i)) d.at_base) aside
    ∙ ap (λ (n : ℕ). expected n rs (λ i. m (base + i))) d.of_size
