-- ===== src/Kernel/Str/Prints.antt =====
-- How snprintf ends.
use cr_ow_s.Base.{
  append_assoc, ℕ, ◌+◌, ◌<◌, ◌≡◌, false, ◌⊎◌, inl, inr, refl, ap, ◌∙◌, sym, not, List, [], ◌∷◌,
  ◌++◌, arith, if_elim, ltb, ◌==◌,
}
use cr_ow_s.Base.Memory.{Memory}
use cr_ow_s.Kernel.Str.{
  Arg, put, Conversion, convert, Printed, printed, unsupported, overrun, undefined, print_from,
  after_convert, snprintf,
}
use cr_ow_s.Kernel.Str.Tokens.{
  any_digit, Rejects, Mismatches, Makes, printing, rejecting, overrunning, going_wrong,
  convert-Makes,
}
use cr_ow_s.Kernel.Str.Written.{
  Expands, ends, literal, token, Wrote, assoc-Wrote, put-Wrote, full-Wrote, emit-Wrote,
}

-- snprintf has come to a piece `post` of the format, with the arguments `left`: it has expanded all
-- that stands before it, the whole expansion is in the buffer, and there is room behind it.
pub record Reaches (stale : List ℕ) (str limit : ℕ) (before : Memory) (full fmt : List ℕ)
    (args : List Arg) (post : List ℕ) (left : List Arg) (m : Memory) : Type 0 where
  pub done : List ℕ
  pub out : List ℕ
  pub at : ℕ
  pub splits : fmt ≡ done ++ post
  pub expands : Expands stale done args out left
  pub wrote : Wrote str limit before (full ++ out) at m
  pub room : at < limit

-- The ends of snprintf, behind the characters `full`.
pub data Fate (stale : List ℕ) (str limit : ℕ) (before : Memory) (full fmt : List ℕ)
    (args : List Arg) : Printed → Type 0 where
  finished :
      (done rest out : List ℕ) (left : List Arg) (at : ℕ) (m : Memory)
      → fmt ≡ done ++ rest
      → Expands stale done args out left
      → Wrote str limit before (full ++ out) at m
      → (rest ≡ []) ⊎ (at ≡ limit)
      → Fate stale str limit before full fmt args (printed at m)
  cut_off :
      (left : List Arg) (m : Memory)
      → Reaches stale str limit before full fmt args (b'%' ∷ []) left m
      → Fate stale str limit before full fmt args (unsupported m)
  rejected :
      (d : ℕ) (cs : List ℕ) (left : List Arg) (m : Memory)
      → Rejects d cs
      → Reaches stale str limit before full fmt args (b'%' ∷ d ∷ cs) left m
      → Fate stale str limit before full fmt args (unsupported m)
  overran :
      (cs : List ℕ) (left : List Arg) (m : Memory)
      → any_digit cs ≡ false
      → Reaches stale str limit before full fmt args (b'%' ∷ b'0' ∷ cs) left m
      → Fate stale str limit before full fmt args overrun
  went_wrong :
      (d : ℕ) (cs : List ℕ) (left : List Arg) (m : Memory)
      → Mismatches d left
      → Reaches stale str limit before full fmt args (b'%' ∷ d ∷ cs) left m
      → Fate stale str limit before full fmt args undefined

module _ (stale : List ℕ) (str limit : ℕ) (before : Memory) where
  abbrev Ends : List ℕ → List ℕ → List Arg → Printed → Type 0
  Ends = Fate stale str limit before

  abbrev Comes : List ℕ → List ℕ → List Arg → List ℕ → List Arg → Memory → Type 0
  Comes = Reaches stale str limit before

  module _ (full piece pre cs : List ℕ) (args rest : List Arg)
      (step : (done out : List ℕ) (left : List Arg)
        → Expands stale done rest out left
        → Expands stale (pre ++ done) args (piece ++ out) left) where
    further :
        (post : List ℕ) (left : List Arg) (m : Memory)
        → Comes (full ++ piece) cs rest post left m
        → Comes full (pre ++ cs) args post left m
    further post left m r = record {
      done = pre ++ r.done;
      out = piece ++ r.out;
      at = r.at;
      splits = ap (λ l. pre ++ l) r.splits ∙ sym (append_assoc pre r.done post);
      expands = step r.done r.out left r.expands;
      wrote = assoc-Wrote str limit before full piece r.out r.at m r.wrote;
      room = r.room;
    }

    -- What holds behind a piece of the format holds from the piece on.
    extend : (r : Printed) → Ends (full ++ piece) cs rest r → Ends full (pre ++ cs) args r
    extend _ (finished done after out left at m e x w stop) =
        finished (pre ++ done) after (piece ++ out) left at m
          (ap (λ l. pre ++ l) e ∙ sym (append_assoc pre done after)) (step done out left x)
          (assoc-Wrote str limit before full piece out at m w) stop
    extend _ (cut_off left m r) = cut_off left m (further _ left m r)
    extend _ (rejected d ds left m why r) = rejected d ds left m why (further _ left m r)
    extend _ (overran ds left m why r) = overran ds left m why (further _ left m r)
    extend _ (went_wrong d ds left m why r) = went_wrong d ds left m why (further _ left m r)

  module _ (full : List ℕ) (at : ℕ) (m : Memory) (w : Wrote str limit before full at m) where
    nothing-Wrote : Wrote str limit before (full ++ []) at m
    nothing-Wrote = full-Wrote str limit before full [] at m w (λ h. refl)

    stopped-Fate :
        (fmt : List ℕ) (args : List Arg)
        → (fmt ≡ []) ⊎ (at ≡ limit)
        → Ends full fmt args (printed at m)
    stopped-Fate fmt args stop = finished [] fmt [] args at m refl (ends args) nothing-Wrote stop

    here :
        (fmt post : List ℕ) (args : List Arg)
        → at < limit
        → fmt ≡ post
        → Comes full fmt args post args m
    here fmt post args room e = record {
      done = [];
      out = [];
      at = at;
      splits = e;
      expands = ends args;
      wrote = nothing-Wrote;
      room = room;
    }

    token-Fate :
        (c d : ℕ) (cs : List ℕ) (args : List Arg) (go_on : List ℕ → List Arg → Printed)
        (k : Conversion)
        → at < limit
        → c ≡ b'%'
        → Makes stale d cs args k
        → ((xs : List ℕ) (rest : List Arg) → Ends (full ++ xs) cs rest (go_on xs rest))
        → Ends full (c ∷ d ∷ cs) args (after_convert m go_on k)
    token-Fate c d cs args go_on _ room percent (printing xs rest means) more =
        extend full xs (c ∷ d ∷ []) cs args rest
          (λ done out left x. token c d done xs out args rest left percent means x) _ (more xs rest)
    token-Fate c d cs args go_on _ room percent (rejecting why) more =
        rejected d cs args m why (here _ _ args room (ap (λ x. x ∷ d ∷ cs) percent))
    token-Fate c d cs args go_on _ room percent (overrunning zero_token none_there) more =
        overran cs args m none_there
          (here _ _ args room (ap (λ x. x ∷ d ∷ cs) percent ∙ ap (λ y. b'%' ∷ y ∷ cs) zero_token))
    token-Fate c d cs args go_on _ room percent (going_wrong why) more =
        went_wrong d cs args m why (here _ _ args room (ap (λ x. x ∷ d ∷ cs) percent))

  print_from-Fate :
      (fmt : List ℕ) (args : List Arg) (full : List ℕ) (at : ℕ) (m : Memory)
      → Wrote str limit before full at m
      → Ends full fmt args (print_from stale str limit fmt args at m)
  unfolding print_from
  print_from-Fate [] args full at m w = stopped-Fate full at m w [] args (inl refl)
  print_from-Fate (c ∷ []) args full at m w =
      if_elim (Ends full (c ∷ []) args) (not (ltb at limit))
        (λ e. stopped-Fate full at m w (c ∷ []) args (inr (ground (arith, e, w.bounded))))
        (λ e.
          if_elim (Ends full (c ∷ []) args) (c == b'%')
            (λ k.
              let sign : c ≡ b'%' = ground (arith, k) in
              cut_off args m
                (here full at m w _ _ args (ground (arith, e)) (ap (λ x. x ∷ []) sign)))
            (λ k.
              finished (c ∷ []) [] (c ∷ []) args (at + 1) _ refl
                (literal c [] [] args args k (ends args))
                (put-Wrote str limit before full at c m w (ground (arith, e))) (inl refl)))
  print_from-Fate (c ∷ d ∷ cs) args full at m w =
      if_elim (Ends full (c ∷ d ∷ cs) args) (not (ltb at limit))
        (λ e. stopped-Fate full at m w (c ∷ d ∷ cs) args (inr (ground (arith, e, w.bounded))))
        (λ e.
          if_elim (Ends full (c ∷ d ∷ cs) args) (c == b'%')
            (λ k.
              token-Fate full at m w c d cs args _ (convert stale d cs args) (ground (arith, e))
                (ground (arith, k)) (convert-Makes stale d cs args)
                (λ xs rest.
                  print_from-Fate cs rest (full ++ xs) _ _
                    (emit-Wrote str limit before xs full at m w)))
            (λ k.
              extend full (c ∷ []) (c ∷ []) (d ∷ cs) args args
                (λ done out left x. literal c done out args left k x) _
                (print_from-Fate (d ∷ cs) args (full ++ (c ∷ [])) (at + 1) (put m (str + at) c)
                  (put-Wrote str limit before full at c m w (ground (arith, e))))))

  -- Whatever the format, the arguments and the limit: snprintf writes only to the first `limit`
  -- bytes of the buffer, and to none behind the count that it returns; so it does not end the
  -- string with NUL. When it returns a count, the whole format has been expanded, or a front of it
  -- that fills the limit, and that many characters of the expansion stand in the buffer: %u, %d,
  -- %x and %X give the numeral, without zeros in front, of the argument's low 32 bits, and behind a
  -- hexadecimal one other than 0 the stale string that stands in the last cell and after. It
  -- returns -1 just at a % that ends the format or stands before an unknown letter, or at a %0 with
  -- a digit other than 0 somewhere behind it, and reads past the format's end at a %0 without one;
  -- the behaviour is undefined where the next argument is not one for the token, or is negative for
  -- a %d. In each of these cases all that stands before the token has been expanded into the
  -- buffer, with room left behind it.
  pub snprintf-Fate :
      (fmt : List ℕ) (args : List Arg)
      → Fate stale str limit before [] fmt args (snprintf stale str limit fmt args before)
  unfolding snprintf
  snprintf-Fate fmt args = print_from-Fate fmt args [] 0 before (record {
    bounded = omega arith;
    short = omega arith;
    all = λ h. refl;
    inside = λ i h. absurd (omega (arith, h));
    outside = λ a h. refl;
  })
