-- ===== src/Cron/Fields.antt =====
-- packages/core/src/cron.ts, the fields of an expression and the time of day: `parseClock`,
-- `formatClock`, `stepValue`, `isInt`, with the splits of a text at a colon and at white space. A time of
-- day whose pieces are no plain numbers is left to the host's `Number`.
use rakazo.Common.{
  ℕ, ◌+◌, ◌%◌, ◌==◌, ltb, leb, Bool, false, ◌&&◌, ◌||◌, not, List, [], ◌∷◌, ◌++◌, Option, none,
  some, Text, lit, is_empty, is_space, all, take, drop, starts_with, length, show, number,
  if◌then◌else◌,
}

-- `s.split(c)` for one code unit
abbrev push : ℕ → List Text → List Text
push c [] = (c ∷ []) ∷ []
push c (w ∷ ws) = (c ∷ w) ∷ ws

unfoldable pub split_at : ℕ → Text → List Text
split_at d [] = [] ∷ []
split_at d (c ∷ s) = let rest = split_at d s in if c == d then [] ∷ rest else push c rest

abbrev starts_with_space : Text → Bool
starts_with_space [] = false
starts_with_space (c ∷ s) = is_space c

-- `s.split(/\s+/)`: the last white space of a run cuts.
unfoldable pub split_spaces : Text → List Text
unfolding is_space
split_spaces [] = [] ∷ []
split_spaces (c ∷ s) =
    let rest = split_spaces s in
    if is_space c then if starts_with_space s then rest else [] ∷ rest else push c rest

abbrev is_digit : ℕ → Bool
is_digit c = leb 48 c && leb c 57

-- `/^\d+$/`
unfoldable pub is_int : Text → Bool
is_int expr = not (is_empty expr) && all is_digit expr

abbrev positive : Option ℕ → Option ℕ
positive none = none
positive (some n) = if n == 0 then none else some n

abbrev no_other : Text → Option ℕ
no_other s = none

unfoldable pub step_value : Text → Option ℕ
unfolding is_int number starts_with
step_value expr =
    if starts_with expr (lit "*/") && is_int (drop 2 expr)
    then positive (number no_other (drop 2 expr))
    else none

-- `Number(expr)` of an expression that is an integer
unfoldable pub int_value : Text → Option ℕ
unfolding number
int_value expr = number no_other expr

-- `/pm/i` and `/am/i`: the two letters in a row, in either case
abbrev is_letter : ℕ → ℕ → Bool
is_letter small c = c == small || c + 32 == small

unfoldable pub has_letters : ℕ → ℕ → Text → Bool
has_letters a b [] = false
has_letters a b (c ∷ []) = false
has_letters a b (c ∷ d ∷ s) = is_letter a c && is_letter b d || has_letters a b (d ∷ s)

pub record Clock : Type 0 where
  pub hour : ℕ
  pub minute : ℕ

abbrev hour_of : Text → ℕ → ℕ
hour_of time hour =
    let shifted = if has_letters 112 109 time && ltb hour 12 then hour + 12 else hour in
    if has_letters 97 109 time && shifted == 12 then 0 else shifted

abbrev clock_of : Text → Option ℕ → Option ℕ → Option Clock
clock_of time none minute = none
clock_of time (some hour) none = none
clock_of time (some hour) (some minute) =
    some (record { hour = hour_of time hour; minute = minute })

abbrev first_piece : List Text → Text
first_piece [] = []
first_piece (p ∷ ps) = p

-- `(rest ?? "00").slice(0, 2)`
abbrev minute_piece : List Text → Text
minute_piece (p ∷ q ∷ ps) = take 2 q
minute_piece _ = lit "00"

unfoldable pub parse_clock : Text → Option Clock
unfolding split_at has_letters number
parse_clock time =
    let pieces = split_at 58 time in
    clock_of time (number no_other (first_piece pieces)) (number no_other (minute_piece pieces))

-- `String(n).padStart(2, "0")`
abbrev two_digits : Text → Text
two_digits s = if ltb (length s) 2 then if is_empty s then lit "00" else 48 ∷ s else s

unfoldable pub format_clock : ℕ → ℕ → Text
unfolding show
format_clock hour minute =
    let period = if leb 12 hour then lit "PM" else lit "AM" in
    let h12 = if hour % 12 == 0 then 12 else hour % 12 in
    show h12 ++ (lit ":" ++ (two_digits (show minute) ++ (lit " " ++ period)))
