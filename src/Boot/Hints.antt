-- ===== src/Boot/Hints.antt =====
-- SetEfiVarsHints, src/boot/mftah_uefi/main.c: the variables that tell the booted system where the
-- ramdisk is.
pub mod Fates
pub mod Untouched
use cr_ow_s.Base.{
  ℕ, ◌+◌, ◌-◌, ◌≤◌, ◌<◌, ◌≡◌, ◌⊎◌, inl, inr, refl, sym, ◌∙◌, ap, Bool, true, false, ◌||◌, List, [],
  ◌∷◌, ◌++◌, arith, if_elim, ◌==◌, if◌then◌else◌,
}
use cr_ow_s.Base.Status.{Status, is_error}
use cr_ow_s.Base.Memory.{Memory, EfiLib}

pub data Variable : Type 0 where
  rd_base rd_size loader_hash payload_hash : Variable

-- What SetVariable answers for a variable, and AllocatePool for the copy of a hash: its status and
-- the address that it stores.
pub record Firmware : Type 0 where
  pub set_variable : Variable → Status
  pub allocate : Variable → Status × ℕ

-- The status, the variables that were set with their values, and memory.
pub record Hints : Type 0 where
  pub status : Status
  pub stored : List (Variable × ℕ)
  pub memory : Memory

abbrev pub hash_bytes : ℕ
hash_bytes = 32

-- A variable that holds the address of a pool with a copy of a hash, behind those of `before`.
unfoldable pub store_hash :
    EfiLib
    → Firmware
    → Variable
    → ℕ
    → List (Variable × ℕ)
    → Memory
    → (List (Variable × ℕ) → Memory → Hints)
    → Hints
store_hash lib f v hash before m next =
    let (allocated, pool) = f.allocate v in
    let m' = lib.copy_mem pool hash hash_bytes m in
    if is_error allocated
    then record { status = allocated; stored = before; memory = m }
    else if pool == 0
    then record { status = Status.out_of_resources; stored = before; memory = m }
    else if is_error (f.set_variable v)
    then record { status = f.set_variable v; stored = before; memory = m' }
    else next (before ++ ((v, pool) ∷ [])) m'

-- SetEfiVarsHints of an image, its length and the addresses of the two hashes.
unfoldable pub set_efi_vars_hints : EfiLib → Firmware → ℕ → ℕ → ℕ → ℕ → Memory → Hints
set_efi_vars_hints lib f image length loader payload m =
    let base = (Variable.rd_base, image) ∷ [] in
    let both = (Variable.rd_base, image) ∷ ((Variable.rd_size, length) ∷ []) in
    if is_error (f.set_variable Variable.rd_base)
    then record { status = f.set_variable Variable.rd_base; stored = []; memory = m }
    else if is_error (f.set_variable Variable.rd_size)
    then record { status = f.set_variable Variable.rd_size; stored = base; memory = m }
    else store_hash lib f Variable.loader_hash loader both m (λ done m'.
      store_hash lib f Variable.payload_hash payload done m'
        (λ all m''. record { status = Status.success; stored = all; memory = m'' }))
