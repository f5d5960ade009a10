-- ===== src/Ramdisk/Pools.antt =====
-- What the driver does with pool memory and with the firmware's databases, in order.
use cr_ow_s.Base.{ℕ, Bool, true, false, Option, none, some, List, [], ◌∷◌, ◌++◌, if◌then◌else◌}
use cr_ow_s.Base.{◌≡◌, arith}

-- The pools that the driver allocates.
pub data Pool : Type 0 where
  private_data device_node device_path path_text memory_map nfit : Pool

pub data Event : Type 0 where
  allocated freed : Pool → Event
  -- InstallMultipleProtocolInterfaces of the block I/O protocols inside the private data, and
  -- ConnectController, where they did not fail
  installed connected : Event
  -- calls of InstallAcpiTable with an SSDT and an NFIT of these bytes
  ssdt_offered nfit_offered : List ℕ → Event

abbrev pub same : Pool → Pool → Bool
same Pool.private_data Pool.private_data = true
same Pool.device_node Pool.device_node = true
same Pool.device_path Pool.device_path = true
same Pool.path_text Pool.path_text = true
same Pool.memory_map Pool.memory_map = true
same Pool.nfit Pool.nfit = true
same _ _ = false

-- `none` is a pool freed that is not held, or allocated again while it is held.
abbrev pub step : Pool → Bool → Event → Option Bool
step p held (Event.allocated q) = if same q p then (if held then none else some true) else some held
step p held (Event.freed q) = if same q p then (if held then some false else none) else some held
step p held _ = some held

-- Whether pool `p` is held at the end, from whether it is at the start.
abbrev pub ledger : Pool → Bool → List Event → Option Bool
ledger p held [] = some held
ledger p held (e ∷ es) = elim (step p held e) [ none ↦ none | some h ↦ ledger p h es ]

pub ledger-append :
    (p : Pool) (held after : Bool) (es fs : List Event)
    → ledger p held es ≡ some after
    → ledger p held (es ++ fs) ≡ ledger p after fs
ledger-append p held after [] fs h = ground arith
ledger-append p held after (e ∷ es) fs h =
    (elim (step p held e)
        as (λ o.
          (elim o [ none ↦ none | some k ↦ ledger p k es ]) ≡ some after
          → (elim o [ none ↦ none | some k ↦ ledger p k (es ++ fs) ]) ≡ ledger p after fs) [
            | none ↦ λ q. cc
            | some k ↦ λ q. ledger-append p k after es fs q
          ])
      h
