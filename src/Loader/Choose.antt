-- ===== src/Loader/Choose.antt =====
-- SelectPayload with the DiscoverPayloads that it calls, src/boot/mftah_uefi/loader.c.
pub mod Among
pub mod Origin
use cr_ow_s.Base.{ℕ, List, Option, none, some, map}
use cr_ow_s.Base.Status.{Status}
use cr_ow_s.Loader.{StringLib, File, named, nameless, Typed, Selection, select_payload}
use cr_ow_s.Loader.Discover.{
  Answer, Listing, listed, failed, listing, Opening, discover_payloads, discovery_of,
}

-- The handles that DiscoverPayloads has stored.
abbrev pub handles_of : Listing → List ℕ
handles_of (listed hs) = hs
handles_of (failed s hs) = hs
handles_of (listing hs) = hs

-- A handle with what LibFileInfo says of it.
abbrev pub file_of : (ℕ → Option (List ℕ)) → ℕ → File
file_of info h = elim (info h) [ none ↦ nameless h | some name ↦ named h name ]

-- The files among which SelectPayload chooses.
abbrev pub files_of : (ℕ → Option (List ℕ)) → Listing → List File
files_of info found = map (file_of info) (handles_of found)

-- SelectPayload, with the answers for the directory, LibFileInfo, the prompts and the status of
-- GetPosition.
unfoldable pub choose_payload :
    StringLib → Opening → List Answer → (ℕ → Option (List ℕ)) → List Typed → Status → Selection
choose_payload lib o answers info prompts position =
    let found = discover_payloads lib o answers in
    select_payload lib (discovery_of found) (files_of info found) prompts position
