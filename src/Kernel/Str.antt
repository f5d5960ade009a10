-- ===== src/Kernel/Str.antt =====
-- snprintf, src/kernel/core/str.c. A string is the list of its characters before NUL, and `stale` is
-- the string that stands in the last, uninitialised cell of hex_as_str and behind it.
pub mod Numerals
pub mod Tokens
pub mod Written
pub mod Prints
pub mod Exact
pub mod Clearing
mod Tests
use cr_ow_s.Base.{
  ℕ, zero, suc, ◌+◌, ◌-◌, ◌*◌, ◌/◌, ◌%◌, ◌^◌, Bool, true, false, not, ◌&&◌, ◌||◌, List, [], ◌∷◌,
  ◌++◌, ltb, leb, ◌==◌, if◌then◌else◌,
}
use cr_ow_s.Base.Memory.{Memory}

-- What va_arg finds: a number of 64 bits, a string, or NULL for one.
pub data Arg : Type 0 where
  number : ℕ → Arg
  text : List ℕ → Arg
  null : Arg

abbrev pub put : Memory → ℕ → ℕ → Memory
put m a v b = if b == a then v else m b

-- The loops that store digits, the last one first, in so many cells.
pub place : ℕ → ℕ → (ℕ → ℕ) → ℕ → List ℕ → List ℕ
place zero base spell x stored = stored
place (suc cells) base spell x stored =
    let rest = place cells base spell (x / base) (spell (x % base) ∷ stored) in
    if x == 0 then stored else rest

abbrev pub decimal_digit : ℕ → ℕ
decimal_digit rem = b'0' + rem

abbrev pub hex_digit : Bool → ℕ → ℕ
hex_digit upper rem = if ltb 9 rem then (if upper then b'A' else b'a') + (rem - 10) else b'0' + rem

pub decimal_text : ℕ → List ℕ
decimal_text x = if x == 0 then b'0' ∷ [] else place 10 10 decimal_digit x []

pub hex_text : List ℕ → Bool → ℕ → List ℕ
hex_text stale upper x = if x == 0 then b'0' ∷ [] else place 16 16 (hex_digit upper) x [] ++ stale

-- What a token leads to: characters to print and the arguments that are left; the return of -1; the
-- read of the format behind its end; or undefined behaviour: an argument of another type or none, or
-- the uninitialised index of a negative number.
pub data Conversion : Type 0 where
  prints : List ℕ → List Arg → Conversion
  rejects overruns goes_wrong : Conversion

-- The case of `0`, whose loop passes over all that is no digit.
pub leading_zeros : List ℕ → Conversion
leading_zeros [] = overruns
leading_zeros (c ∷ cs) =
    let rest = leading_zeros cs in
    if ltb c b'0' || ltb b'9' c then rest else if c == b'0' then rest else rejects

abbrev pub with_number : List Arg → (ℕ → List Arg → Conversion) → Conversion
with_number (Arg.number n ∷ args) print = print n args
with_number _ print = goes_wrong

abbrev pub with_text : List Arg → Conversion
with_text (Arg.text s ∷ args) = prints s args
with_text (Arg.null ∷ args) = prints [] args
with_text _ = goes_wrong

-- The switch at a character of the format, with those behind it.
unfoldable pub convert : List ℕ → ℕ → List ℕ → List Arg → Conversion
convert stale c cs args =
    if c == b'%'
    then prints (b'%' ∷ []) args
    else if c == b'0'
    then leading_zeros cs
    else if c == b's'
    then with_text args
    else if c == b'c'
    then with_number args (λ n rest. prints ((n % 2 ^ 8) ∷ []) rest)
    else if (c == b'x') || (c == b'X')
    then with_number args (λ n rest. prints (hex_text stale (c == b'X') (n % 2 ^ 32)) rest)
    else if c == b'u'
    then with_number args (λ n rest. prints (decimal_text (n % 2 ^ 32)) rest)
    else if c == b'd'
    then with_number args (λ n rest.
      if ltb (n % 2 ^ 32) (2 ^ 31) then prints (decimal_text (n % 2 ^ 32)) rest else goes_wrong)
    else rejects

-- The loop that prints a string.
pub emit : ℕ → ℕ → ℕ → List ℕ → Memory → ℕ × Memory
emit str limit at [] m = (at, m)
emit str limit at (x ∷ xs) m =
    let rest = emit str limit (at + 1) xs (put m (str + at) x) in
    if ltb at limit then rest else (at, m)

-- The count with memory, -1 with memory, or the two ends that C does not define.
pub data Printed : Type 0 where
  printed : ℕ → Memory → Printed
  unsupported : Memory → Printed
  overrun undefined : Printed

abbrev pub after_convert : Memory → (List ℕ → List Arg → Printed) → Conversion → Printed
after_convert m go_on (prints xs args) = go_on xs args
after_convert m go_on rejects = unsupported m
after_convert m go_on overruns = overrun
after_convert m go_on goes_wrong = undefined

-- The loop over the format, with cursor_into.
pub print_from : List ℕ → ℕ → ℕ → List ℕ → List Arg → ℕ → Memory → Printed
print_from stale str limit [] args at m = printed at m
print_from stale str limit (c ∷ []) args at m =
    if not (ltb at limit)
    then printed at m
    else if c == b'%'
    then unsupported m
    else printed (at + 1) (put m (str + at) c)
print_from stale str limit (c ∷ d ∷ cs) args at m =
    let next = print_from stale str limit (d ∷ cs) args (at + 1) (put m (str + at) c) in
    let go_on = λ (xs : List ℕ) (rest : List Arg).
      print_from stale str limit cs rest (emit str limit at xs m).0 (emit str limit at xs m).1 in
    if not (ltb at limit)
    then printed at m
    else if c == b'%'
    then after_convert m go_on (convert stale d cs args)
    else next

pub snprintf : List ℕ → ℕ → ℕ → List ℕ → List Arg → Memory → Printed
snprintf stale str limit fmt args m = print_from stale str limit fmt args 0 m
