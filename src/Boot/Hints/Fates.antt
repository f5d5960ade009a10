-- ===== src/Boot/Hints/Fates.antt =====
-- What SetEfiVarsHints leaves behind.
use cr_ow_s.Base.{
  ℕ, ◌+◌, ◌-◌, ◌≤◌, ◌<◌, ◌≡◌, ◌⊎◌, refl, ◌∙◌, ap, true, false, List, [], ◌∷◌, ◌++◌, arith, if_elim,
  ◌==◌, if◌then◌else◌,
}
use cr_ow_s.Base.Status.{Status, is_error}
use cr_ow_s.Base.Memory.{Memory, EfiLib}
use cr_ow_s.Boot.Hints.{Variable, Firmware, Hints, hash_bytes, store_hash, set_efi_vars_hints}

-- The pools hold the hashes that stood in memory.
pub record Hashes (loader payload first second : ℕ) (before after : Memory) : Type 0 where
  pub loader_kept : (i : ℕ) → i < hash_bytes → after (first + i) ≡ before (loader + i)
  pub payload_kept : (i : ℕ) → i < hash_bytes → after (second + i) ≡ before (payload + i)

-- The calls in order, with the statuses that they answer, and the variable that is stored behind each
-- SetVariable. AllocatePool is tested twice: its status, and its pointer for NULL.
abbrev given : ℕ → Status
given pool = if pool == 0 then Status.out_of_resources else Status.success

abbrev pub stores_hash : Firmware → Variable → List (Status × List (Variable × ℕ))
stores_hash f v =
    ((f.allocate v).0, [])
    ∷ (given (f.allocate v).1, [])
    ∷ (f.set_variable v, (v, (f.allocate v).1) ∷ [])
    ∷ []

abbrev pub calls : Firmware → ℕ → ℕ → List (Status × List (Variable × ℕ))
calls f image length =
    (f.set_variable Variable.rd_base, (Variable.rd_base, image) ∷ [])
    ∷ (f.set_variable Variable.rd_size, (Variable.rd_size, length) ∷ [])
    ∷ (stores_hash f Variable.loader_hash ++ stores_hash f Variable.payload_hash)

-- The first error ends the calls, and what was stored before it stays.
abbrev pub carry_out : List (Status × List (Variable × ℕ)) → Status × List (Variable × ℕ)
carry_out [] = (Status.success, [])
carry_out ((s, stored) ∷ rest) =
    if is_error s then (s, []) else ((carry_out rest).0, stored ++ (carry_out rest).1)

-- The ends of SetEfiVarsHints: what the calls come to, and the hashes if they all succeed.
pub record Fate (f : Firmware) (image length loader payload : ℕ) (before : Memory) (r : Hints)
    : Type 0 where
  pub told : (r.status, r.stored) ≡ carry_out (calls f image length)
  pub hashes :
      is_error r.status ≡ false
      → Hashes loader payload
          (f.allocate Variable.loader_hash).1
          (f.allocate Variable.payload_hash).1
          before
          r.memory

copied :
    (lib : EfiLib) (to from i : ℕ) (m : Memory)
    → i < hash_bytes
    → lib.copy_mem to from hash_bytes m (to + i) ≡ m (from + i)
copied lib to from i m h =
    let same : to + i - to ≡ i = omega arith in
    lib.copy_mem-inside to from hash_bytes m (to + i) (omega arith) (omega arith)
    ∙ ap (λ j. m (from + j)) same

module _ (lib : EfiLib) (f : Firmware) (image length loader payload : ℕ) (before : Memory) where
  abbrev first : ℕ
  first = (f.allocate Variable.loader_hash).1

  abbrev second : ℕ
  second = (f.allocate Variable.payload_hash).1

  pools-Hashes :
      (first + hash_bytes ≤ second) ⊎ (second + hash_bytes ≤ first)
      → (first + hash_bytes ≤ payload) ⊎ (payload + hash_bytes ≤ first)
      → Hashes loader payload first second before
          (lib.copy_mem second payload hash_bytes (lib.copy_mem first loader hash_bytes before))
  pools-Hashes apart aside = record {
    loader_kept = λ i h.
        lib.copy_mem-outside second payload hash_bytes (lib.copy_mem first loader hash_bytes before)
          (first + i) (omega arith)
        ∙ copied lib first loader i before h;
    payload_kept = λ i h.
        copied lib second payload i (lib.copy_mem first loader hash_bytes before) h
        ∙ lib.copy_mem-outside first loader hash_bytes before (payload + i) (omega arith);
  }

  part :
      (s : Status) (stored : List (Variable × ℕ)) (m : Memory)
      → is_error s ≡ true
      → (s, stored) ≡ carry_out (calls f image length)
      → Fate f image length loader payload before
          (record { status = s; stored = stored; memory = m })
  part s stored m bad e = record { told = e; hashes = λ ok. absurd (ground (arith, bad, ok)) }

  -- If the pools for the two hashes do not overlap and the first does not overlap the second hash:
  -- SetEfiVarsHints makes its calls in order, SetVariable for the base and the length, and for each
  -- hash AllocatePool, whose pointer must not be NULL, and SetVariable of the pool. The first error
  -- ends it with this status, and just the variables before it are set, with the image, its length
  -- and the two pools as their values. Without an error it succeeds, with all four set and the two
  -- hashes in their pools.
  pub set_efi_vars_hints-Fate :
      (first + hash_bytes ≤ second) ⊎ (second + hash_bytes ≤ first)
      → (first + hash_bytes ≤ payload) ⊎ (payload + hash_bytes ≤ first)
      → Fate f image length loader payload before
          (set_efi_vars_hints lib f image length loader payload before)
  unfolding set_efi_vars_hints store_hash
  set_efi_vars_hints-Fate apart aside =
      let Good = Fate f image length loader payload before in
      if_elim Good (is_error (f.set_variable Variable.rd_base)) (λ a. part _ [] _ a (rw a refl))
        (λ a.
          if_elim Good (is_error (f.set_variable Variable.rd_size))
            (λ b. part _ _ _ b (rw (a, b) refl))
            (λ b.
              if_elim Good (is_error (f.allocate Variable.loader_hash).0)
                (λ c. part _ _ _ c (rw (a, b, c) refl))
                (λ c.
                  if_elim Good (first == 0) (λ d. part _ _ _ refl (rw (a, b, c, d) refl))
                    (λ d.
                      if_elim Good (is_error (f.set_variable Variable.loader_hash))
                        (λ e. part _ _ _ e (rw (a, b, c, d, e) refl))
                        (λ e.
                          if_elim Good (is_error (f.allocate Variable.payload_hash).0)
                            (λ g. part _ _ _ g (rw (a, b, c, d, e, g) refl))
                            (λ g.
                              if_elim Good (second == 0)
                                (λ h. part _ _ _ refl (rw (a, b, c, d, e, g, h) refl))
                                (λ h.
                                  if_elim Good (is_error (f.set_variable Variable.payload_hash))
                                    (λ i. part _ _ _ i (rw (a, b, c, d, e, g, h, i) refl))
                                    (λ i. record {
                                      told = rw (a, b, c, d, e, g, h, i) refl;
                                      hashes = λ ok. pools-Hashes apart aside;
                                    }))))))))
