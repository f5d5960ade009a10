-- ===== src/Boot/Password/Check.antt =====
-- How CheckPassword ends on a file that is served, from its start.
use cr_ow_s.Base.{
  ℕ, ◌+◌, ◌%◌, ◌<◌, ◌≡◌, ◌⊎◌, inl, inr, refl, ◌∙◌, ap, Bool, true, false, not, List, [], ◌∷◌, arith,
  if_elim, ltb, ltb→lt, ◌==◌,
}
use cr_ow_s.Base.Status.{Status, is_error}
use cr_ow_s.Base.Memory.{Memory}
use cr_ow_s.Util.Worker.{MftahStatus}
use cr_ow_s.Boot.Files.{Handle, Serves, Mftah, write_bytes}
use cr_ow_s.Boot.Payload.{aes_block_bytes}
use cr_ow_s.Boot.Payload.Reads.{Copied, write_bytes-inside, write_bytes-outside}
use cr_ow_s.Boot.Password.{Pool, Verdict, Checked, char8, verdict_of, check_header, check_password}

abbrev pub initial_length : Mftah → ℕ
initial_length mftah = mftah.header_bytes + aes_block_bytes

-- What MFTAH is asked: memory with the front of the file in the buffer, and the password.
pub record Asked (mftah : Mftah) (content : ℕ → ℕ) (buffer : ℕ) (actual : List ℕ) (before : Memory)
    (answer : MftahStatus) : Type 0 where
  pub memory : Memory
  pub copied : Copied content buffer 0 (initial_length mftah) before memory
  pub answered : mftah.check_password memory buffer (initial_length mftah) actual ≡ answer

abbrev pub is_other : MftahStatus → Bool
is_other MftahStatus.success = false
is_other MftahStatus.invalid_password = false
is_other _ = true

-- The ends of CheckPassword, for the password `actual`.
pub data Fate (mftah : Mftah) (content : ℕ → ℕ) (size buffer : ℕ) (rewound : Status)
    (actual : List ℕ) (before : Memory) : Checked → Type 0 where
  no_payload :
      (size < initial_length mftah) ⊎ ((size % aes_block_bytes == 0) ≡ false)
      → Fate mftah content size buffer rewound actual before
          (record { verdict = Verdict.failed Status.aborted; position = 0; left = [] })
  not_rewound :
      is_error rewound ≡ true
      → Fate mftah content size buffer rewound actual before (record {
        verdict = Verdict.failed rewound;
        position = initial_length mftah;
        left = Pool.first_buffer ∷ [];
      })
  not_created :
      (m : Memory)
      → Copied content buffer 0 (initial_length mftah) before m
      → mftah.is_failure (mftah.create_payload m buffer (initial_length mftah)) ≡ true
      → Fate mftah content size buffer rewound actual before (record {
        verdict = Verdict.failed Status.aborted;
        position = 0;
        left = Pool.first_buffer ∷ [];
      })
  confirmed :
      Asked mftah content buffer actual before MftahStatus.success
      → Fate mftah content size buffer rewound actual before
          (record { verdict = Verdict.right actual; position = 0; left = Pool.first_buffer ∷ [] })
  denied :
      Asked mftah content buffer actual before MftahStatus.invalid_password
      → Fate mftah content size buffer rewound actual before
          (record { verdict = Verdict.wrong; position = 0; left = Pool.first_buffer ∷ [] })
  not_checked :
      (answer : MftahStatus)
      → is_other answer ≡ true
      → Asked mftah content buffer actual before answer
      → Fate mftah content size buffer rewound actual before (record {
        verdict = Verdict.failed Status.aborted;
        position = 0;
        left = Pool.first_buffer ∷ [];
      })

module _ (mftah : Mftah) (content : ℕ → ℕ) (size buffer : ℕ) (rewound : Status) (password : List ℕ)
    (length : ℕ) (before : Memory) where
  abbrev Ends : Checked → Type 0
  Ends = Fate mftah content size buffer rewound (char8 password length) before

  abbrev at_start : Verdict → Checked
  at_start v = record { verdict = v; position = 0; left = Pool.first_buffer ∷ [] }

  answer-Fate :
      (answer : MftahStatus)
      → Asked mftah content buffer (char8 password length) before answer
      → Ends (at_start (verdict_of answer (char8 password length)))
  answer-Fate MftahStatus.success a = confirmed a
  answer-Fate MftahStatus.invalid_password a = denied a
  answer-Fate MftahStatus.invalid_parameter a = not_checked _ refl a
  answer-Fate MftahStatus.thread_busy a = not_checked _ refl a
  answer-Fate (MftahStatus.other n) a = not_checked _ refl a

  header-Fate :
      (m : Memory)
      → Copied content buffer 0 (initial_length mftah) before m
      → Ends (at_start (check_header mftah buffer (initial_length mftah) (char8 password length) m))
  unfolding check_header
  header-Fate m c =
      if_elim (λ v. Ends (at_start v))
        (mftah.is_failure (mftah.create_payload m buffer (initial_length mftah)))
        (λ e. not_created m c e)
        (λ e. answer-Fate _ (record { memory = m; copied = c; answered = refl }))

  header-Copied :
      (count : ℕ) (bytes : ℕ → ℕ) (n : ℕ)
      → count ≡ n
      → ((a : ℕ) → a < n → bytes a ≡ content (0 + a))
      → Copied content buffer 0 n before (write_bytes buffer count bytes before)
  header-Copied count bytes n whole brought = record {
    inside = λ a from below.
        let same : 0 + a ≡ a = omega arith in
        write_bytes-inside buffer count bytes before a (omega arith)
        ∙ brought a below
        ∙ ap content same;
    outside = λ a h. write_bytes-outside buffer count bytes before a (ground (arith, whole, h));
  }

  -- A file of `size` bytes that is served, from its start on: CheckPassword reads the front of the
  -- file, gives MFTAH just the low bytes of the typed characters, and says that the password is
  -- right exactly where MFTAH does, and wrong exactly where MFTAH says so. In both cases the file
  -- is left at its start, for the next attempt or for the load. From the two tests of the size on,
  -- the first buffer is left allocated, and no other pool is.
  pub check_password-Fate :
      (h : Handle)
      → Serves h content size
      → Fate mftah content size buffer rewound
          (char8 password length)
          before
          (check_password mftah h 0 buffer rewound password length before)
  unfolding check_password
  check_password-Fate h served =
      let n = initial_length mftah in
      let counted = served.counts 0 n (omega arith) in
      rw served.sized (
        if_elim Ends (ltb size (initial_length mftah))
          (λ e. no_payload (inl (ltb→lt size (initial_length mftah) e)))
          (λ e.
            if_elim Ends (not (size % aes_block_bytes == 0))
              (λ k. no_payload (inr (ground (arith, k))))
              (λ k.
                let whole : (h.read 0 n).count ≡ n = ground (arith, counted, e) in
                let moved : 0 + (h.read 0 n).count ≡ n = omega (arith, whole) in
                if_elim Ends (is_error (h.read 0 n).status)
                  (λ j. absurd (ground (arith, ap is_error (served.succeeds 0 n (omega arith)), j)))
                  (λ j.
                    if_elim Ends (not ((h.read 0 n).count == n))
                      (λ i. absurd (ground (arith, whole, i)))
                      (λ i.
                        if_elim Ends (is_error rewound) (λ g. rw moved (not_rewound g))
                          (λ g.
                            header-Fate
                              (write_bytes buffer (h.read 0 n).count (h.read 0 n).bytes before)
                              (header-Copied (h.read 0 n).count (h.read 0 n).bytes n whole
                                (λ a below.
                                  served.brings 0 n a (omega arith) (omega (arith, whole))))))))))
