-- ===== src/Common/Numeral.antt =====
-- Decimal numerals: how a non-negative integer is printed into a template string, and what
-- `Number(text)` gives on white space and on plain digits. Numbers below 2 ^ 53 are exact; nothing
-- here rounds. The other literals that `Number` reads (signs, fractions, exponents, radix prefixes)
-- are a parameter.
use Prim.Native.Nat.{ℕ, zero, suc, ◌+◌, ◌-◌, ◌*◌, ◌/◌, ◌%◌, ◌<◌}
use mathlib.Core.Path.{◌≡◌, refl, ◌∙◌}
use mathlib.Core.Logic.{inl, inr}
use mathlib.Core.Bool.{Bool, true, false, ◌&&◌}
use mathlib.Core.List.{[], ◌∷◌, ◌++◌}
use mathlib.Core.Option.{Option, some}
use native.Mathlib.Omega.{arith}
use rakazo.Common.Tests.{ltb, leb, if◌then◌else◌, Bool-cases}
use rakazo.Common.Lists.{all, All, All-append}
use rakazo.Common.Texts.{Text, is_empty, trim, trim_start, trim_end, is_space}

abbrev is_digit : ℕ → Bool
is_digit c = leb 48 c && leb c 57

show_fuel : ℕ → ℕ → Text
show_fuel zero n = []
show_fuel (suc f) n =
    let more = show_fuel f (n / 10) ++ (48 + n % 10) ∷ [] in
    if ltb n 10 then (48 + n) ∷ [] else more

-- `String(n)`
unfoldable pub show : ℕ → Text
unfolding show_fuel
show n = show_fuel (suc n) n

value_from : ℕ → Text → ℕ
value_from acc [] = acc
value_from acc (c ∷ s) = value_from (acc * 10 + (c - 48)) s

value_from-append :
    (acc : ℕ) (s : Text) (c : ℕ) → value_from acc (s ++ c ∷ []) ≡ value_from acc s * 10 + (c - 48)
unfolding value_from
value_from-append acc [] c = refl
value_from-append acc (d ∷ s) c = value_from-append (acc * 10 + (d - 48)) s c

value-show_fuel : (f n : ℕ) → n < f → value_from 0 (show_fuel f n) ≡ n
unfolding show_fuel value_from
value-show_fuel zero n h = absurd (omega arith)
value-show_fuel (suc f) n h = elim (Bool-cases (ltb n 10)) [
  | inl small ↦ rw (small, if◌then◌else◌) (ground arith)
  | inr big ↦ rw big (
      value_from-append 0 (show_fuel f (n / 10)) (48 + n % 10)
      ∙ ground (arith, value-show_fuel f (n / 10)))
]

abbrev pub IsDigits : Text → Type 0
IsDigits = All (λ c. is_digit c ≡ true)

digit_of_mod : (n : ℕ) → n < 10 → is_digit (48 + n) ≡ true
digit_of_mod n h = ground arith

show_fuel-IsDigits : (f n : ℕ) → IsDigits (show_fuel f n)
unfolding show_fuel
show_fuel-IsDigits zero n = tt
show_fuel-IsDigits (suc f) n = elim (Bool-cases (ltb n 10)) [
  | inl small ↦ rw small (ground arith, tt)
  | inr big ↦ rw big (
      All-append (λ c. is_digit c ≡ true) (show_fuel f (n / 10)) _ (show_fuel-IsDigits f (n / 10))
        (digit_of_mod (n % 10) (omega arith), tt))
]

pub show-IsDigits : (n : ℕ) → IsDigits (show n)
unfolding show
show-IsDigits n = show_fuel-IsDigits (suc n) n

value-show : (n : ℕ) → value_from 0 (show n) ≡ n
unfolding show
value-show n = value-show_fuel (suc n) n (omega arith)

append-ne-nil : (s : Text) (c : ℕ) → is_empty (s ++ c ∷ []) ≡ false
append-ne-nil [] c = refl
append-ne-nil (d ∷ s) c = refl

show-ne-empty : (n : ℕ) → is_empty (show n) ≡ false
unfolding show show_fuel
show-ne-empty n = elim (Bool-cases (ltb n 10)) [
  | inl small ↦ rw small
  | inr big ↦ rw big (append-ne-nil _ _)
]

all_of_IsDigits : (s : Text) → IsDigits s → all is_digit s ≡ true
all_of_IsDigits [] h = refl
all_of_IsDigits (c ∷ s) h = ground (arith, all_of_IsDigits s h.1)

space_of_digit : (c : ℕ) → is_digit c ≡ true → is_space c ≡ false
unfolding is_space
space_of_digit c h = ground arith

trim_end_of_IsDigits : (s : Text) → IsDigits s → trim_end s ≡ s
unfolding trim_end
trim_end_of_IsDigits [] h = refl
trim_end_of_IsDigits (c ∷ s) h = rw (space_of_digit c h.0, trim_end_of_IsDigits s h.1)

trim_of_IsDigits : (s : Text) → IsDigits s → trim s ≡ s
unfolding trim trim_start
trim_of_IsDigits [] h = refl
trim_of_IsDigits (c ∷ s) h = rw (space_of_digit c h.0) (trim_end_of_IsDigits (c ∷ s) h)

-- The non-negative integer that `Number(s)` is, if it is one; `other` answers for the literals that
-- are neither blank nor plain digits.
unfoldable pub number : (Text → Option ℕ) → Text → Option ℕ
unfolding value_from trim
number other s =
    let t = trim s in
    if is_empty t then some 0 else if all is_digit t then some (value_from 0 t) else other t

pub number-show : (other : Text → Option ℕ) (n : ℕ) → number other (show n) ≡ some n
unfolding number
number-show other n = rw (
  trim_of_IsDigits (show n) (show-IsDigits n),
  show-ne-empty n,
  all_of_IsDigits (show n) (show-IsDigits n),
  value-show n,
)
