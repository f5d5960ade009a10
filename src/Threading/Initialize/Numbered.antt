-- ===== src/Threading/Initialize/Numbered.antt =====
-- The list that InitializeThreading leaves.
use cr_ow_s.Base.{
  ℕ, zero, suc, ◌+◌, ◌-◌, ◌≤◌, ◌<◌, ◌≡◌, ◌≢◌, ◌⊎◌, inl, inr, refl, ◌∙◌, true, false, not, List, [],
  ◌∷◌, arith, ltb, if◌then◌else◌, if_elim, length, set, get_or, replicate, length-set,
  length-replicate, subst, sym, some, none, ◌&&◌, Bool-cases,
}
use cr_ow_s.Base.Status.{Status, is_error, first_error}
use cr_ow_s.Threading.{Mp, Survey}
use cr_ow_s.Threading.Initialize.{
  Platform, blank, described, is_not_found, list_processors, Listing, Setup, failed, ready,
  conclude, initialize_threading,
}

-- What the loop leaves at a place of the list: a processor that does not exist has a blank entry.
abbrev pub slot : Survey → ℕ → Mp
slot v i = if is_not_found (v.status i) then blank else described v i

-- How many of the processors below `n` GetProcessorInfo does not know.
abbrev pub unknown : Survey → ℕ → ℕ
unknown v zero = 0
unknown v (suc n) = if is_not_found (v.status n) then suc (unknown v n) else unknown v n

-- The loop has come to processor `i`: each one before it was below the count at its turn, and
-- GetProcessorInfo had no error for it but that it does not know it.
abbrev pub Comes : Survey → ℕ → ℕ → Type 0
Comes v bound i =
    (j : ℕ)
    → j < i
    → (j + unknown v j < bound)
      × ((is_error (v.status j) && not (is_not_found (v.status j))) ≡ false)

-- The entry of a processor that is known, or one that is zeroed.
pub record IsEntry (v : Survey) (i : ℕ) (mp : Mp) : Type 0 where
  pub number : mp.processor_number ≡ (if is_not_found (v.status i) then 0 else i)
  pub bsp : mp.is_bsp ≡ (not (is_not_found (v.status i)) && (v.info i).as_bsp)
  pub enabled : mp.is_enabled ≡ (not (is_not_found (v.status i)) && (v.info i).enabled)
  pub healthy : mp.is_healthy ≡ (not (is_not_found (v.status i)) && (v.info i).health_status)
  pub idle : mp.is_working ≡ false

slot-IsEntry : (v : Survey) (i : ℕ) → IsEntry v i (slot v i)
slot-IsEntry v i = elim (Bool-cases (is_not_found (v.status i))) [
  | inl e ↦ record {
    number = rw e refl;
    bsp = rw e refl;
    enabled = rw e refl;
    healthy = rw e refl;
    idle = rw e refl;
  }
  | inr e ↦ record {
    number = rw e refl;
    bsp = rw e refl;
    enabled = rw e refl;
    healthy = rw e refl;
    idle = rw e refl;
  }
]

-- How the loop ends.
pub data Lists (v : Survey) (bsp bound : ℕ) : Setup → Type 0 where
  unsurveyed :
      (i : ℕ)
      → Comes v bound i
      → i + unknown v i < bound
      → is_error (v.status i) ≡ true
      → is_not_found (v.status i) ≡ false
      → Lists v bsp bound (failed (v.status i) true)
  entries :
      (visited n : ℕ) (mps : List Mp)
      → Comes v bound visited
      → bound ≤ visited + unknown v visited
      → n + unknown v visited ≡ bound
      → length mps ≡ bound
      → ((i : ℕ) → i < n → IsEntry v i (get_or mps i blank))
      → Lists v bsp bound (ready n bsp mps)

-- How the set-up ends.
pub data Numbered (f : Platform) : Setup → Type 0 where
  unlocated : is_error f.locate ≡ true → Numbered f (failed f.locate false)
  uncounted :
      (s : Status)
      → is_error f.locate ≡ false
      → first_error (f.count ∷ f.who_am_i ∷ []) ≡ some s
      → Numbered f (failed s true)
  no_memory :
      is_error f.locate ≡ false
      → first_error (f.count ∷ f.who_am_i ∷ []) ≡ none
      → f.survey.allocated ≡ false
      → Numbered f (failed Status.out_of_resources true)
  looked :
      (s : Setup)
      → is_error f.locate ≡ false
      → first_error (f.count ∷ f.who_am_i ∷ []) ≡ none
      → f.survey.allocated ≡ true
      → Lists f.survey f.bsp_processor_number f.number_of_processors s
      → Numbered f s

get_or-set_self : (xs : List Mp) (i : ℕ) (v d : Mp) → i < length xs → get_or (set xs i v) i d ≡ v
get_or-set_self [] i v d h = absurd (omega arith)
get_or-set_self (x ∷ xs) zero v d h = refl
get_or-set_self (x ∷ xs) (suc i) v d h = get_or-set_self xs i v d (omega arith)

get_or-set_other :
    (xs : List Mp) (i j : ℕ) (v d : Mp) → i ≢ j → get_or (set xs i v) j d ≡ get_or xs j d
get_or-set_other [] i j v d h = refl
get_or-set_other (x ∷ xs) zero zero v d h = absurd (h refl)
get_or-set_other (x ∷ xs) zero (suc j) v d h = refl
get_or-set_other (x ∷ xs) (suc i) zero v d h = refl
get_or-set_other (x ∷ xs) (suc i) (suc j) v d h = get_or-set_other xs i j v d (omega (arith, h))

get_or-replicate : (n i : ℕ) (d : Mp) → get_or (replicate n d) i d ≡ d
get_or-replicate zero i d = refl
get_or-replicate (suc n) zero d = refl
get_or-replicate (suc n) (suc i) d = get_or-replicate n i d

last_or_before : (i j : ℕ) → j < suc i → (i ≡ j) ⊎ (j < i)
last_or_before i j h = ground arith

up_to : (P : ℕ → Type 0) (i : ℕ) → ((j : ℕ) → j < i → P j) → P i → (j : ℕ) → j < suc i → P j
up_to P i below here j h = elim (last_or_before i j h) [
  | inl e ↦ subst P e here
  | inr k ↦ below j k
]

module _ (v : Survey) (bsp bound : ℕ) where
  Comes-next :
      (i : ℕ)
      → Comes v bound i
      → i + unknown v i < bound
      → (is_error (v.status i) && not (is_not_found (v.status i))) ≡ false
      → Comes v bound (suc i)
  Comes-next i before room fine =
      up_to
        (λ j.
          (j + unknown v j < bound)
          × ((is_error (v.status j) && not (is_not_found (v.status j))) ≡ false))
        i before (room, fine)

  -- Behind the loop's position the entries are blank, before it they are done.
  list_processors-Lists :
      (rounds i n : ℕ) (mps : List Mp)
      → n + unknown v i ≡ bound
      → n ≤ i + rounds
      → Comes v bound i
      → length mps ≡ bound
      → ((j : ℕ) → j < i → get_or mps j blank ≡ slot v j)
      → ((j : ℕ) → i ≤ j → get_or mps j blank ≡ blank)
      → Lists v bsp bound (conclude bsp (list_processors rounds v i n mps))
  unfolding list_processors
  list_processors-Lists zero i n mps count few come long done rest =
      entries i n mps come (omega (arith, count, few)) count long
        (λ j h. subst (IsEntry v j) (sym (done j (omega (arith, h, few)))) (slot-IsEntry v j))
  list_processors-Lists (suc rounds) i n mps count few come long done rest =
      let Good = λ (r : Listing). Lists v bsp bound (conclude bsp r) in
      if_elim Good (ltb i n)
        (λ inside.
          let room : i + unknown v i < bound = ground (arith, inside, count) in
          if_elim Good (is_not_found (v.status i))
            (λ gone.
              let more : unknown v (suc i) ≡ suc (unknown v i) = rw gone refl in
              list_processors-Lists rounds (suc i) (n - 1) mps (ground (arith, more, count, inside))
                (omega (arith, few)) (Comes-next i come room (ground (arith, gone))) long
                (up_to (λ j. get_or mps j blank ≡ slot v j) i done
                  (rest i (omega arith) ∙ (rw gone refl)))
                (λ j h. rest j (omega (arith, h))))
            (λ there.
              let same : unknown v (suc i) ≡ unknown v i = rw there refl in
              if_elim Good (is_error (v.status i)) (λ e. unsurveyed i come room e there)
                (λ ok.
                  list_processors-Lists rounds (suc i) n (set mps i (described v i))
                    (omega (arith, same, count)) (omega (arith, few))
                    (Comes-next i come room (ground (arith, ok)))
                    (length-set mps i (described v i) ∙ long)
                    (up_to (λ j. get_or (set mps i (described v i)) j blank ≡ slot v j) i
                      (λ j h.
                        get_or-set_other mps i j (described v i) blank (omega (arith, h))
                        ∙ done j h)
                      (get_or-set_self mps i (described v i) blank
                          (ground (arith, inside, count, long))
                        ∙ (rw there refl)))
                    (λ j h.
                      get_or-set_other mps i j (described v i) blank (omega (arith, h))
                      ∙ rest j (omega (arith, h))))))
        (λ outside. entries i n mps come (ground (arith, count, outside)) count long (λ j h.
          subst (IsEntry v j) (sym (done j (ground (arith, outside, h)))) (slot-IsEntry v j)))

-- If there is no MP protocol, InitializeThreading fails and keeps none. Otherwise an error of
-- GetNumberOfProcessors, of WhoAmI, or of the pool ends it, in this order, and the protocol is
-- kept. Then it asks for the processors from 0 on, and each one that GetProcessorInfo does not know
-- lowers the count by one, up to the first processor that is not below the count; another error
-- before ends it. The list has an entry for each processor of the first count. Each one that is
-- below the final count describes the processor of its number, as not working, or is zeroed if
-- GetProcessorInfo does not know it.
pub initialize_threading-Numbered : (f : Platform) → Numbered f (initialize_threading f)
unfolding initialize_threading
initialize_threading-Numbered f =
    let n = f.number_of_processors in
    let Good = Numbered f in
    if_elim Good (is_error f.locate) unlocated (λ a.
      if_elim Good (is_error f.count) (λ e. uncounted f.count a (rw e refl))
        (λ b.
          if_elim Good (is_error f.who_am_i) (λ e. uncounted f.who_am_i a (rw (b, e) refl))
            (λ c.
              let fine : first_error (f.count ∷ f.who_am_i ∷ []) ≡ none = rw (b, c) refl in
              if_elim Good (not f.survey.allocated) (λ e. no_memory a fine (ground (arith, e)))
                (λ e. looked _ a fine (ground (arith, e)) (
                  list_processors-Lists f.survey f.bsp_processor_number n n 0 n (replicate n blank)
                    (omega arith) (omega arith) (λ j h. absurd (omega (arith, h)))
                    (length-replicate n blank) (λ j h. absurd (omega (arith, h)))
                    (λ j h. get_or-replicate n j blank))))))
