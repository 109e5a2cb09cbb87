-- ===== src/Secrets/Bearer.antt =====
-- The comparison of bearer tokens: bits that differ are collected until the end, and none differ
-- exactly when the tokens are the same.
use Prim.Native.Nat.{bit_or, bit_xor, bit_or-bitwise, bit_xor-bitwise, digits, differ, max}
use rakazo.Common.{
  ℕ, zero, suc, ◌/◌, ◌%◌, ◌≤◌, ◌==◌, true, ◌↔◌, List, [], ◌∷◌, Option, Text, length, ◌≡◌, refl, sym,
  ap, ◌∙◌, arith, Bool-cases, inl, inr,
}
use rakazo.Secrets.{supplied, difference_from, has_valid_bearer_token}

differ_zero : (x y : ℕ) → differ x y ≡ 0 → x ≡ y
differ_zero zero y e = ground arith
differ_zero (suc x) zero e = ground arith
differ_zero (suc x) (suc y) e = ap suc (differ_zero x y e)

differ_refl : (x : ℕ) → differ x x ≡ 0
differ_refl zero = refl
differ_refl (suc x) = differ_refl x

xor_digits_zero : (n a b : ℕ) → a ≤ n → digits (λ b. b) differ n a b ≡ 0 → a ≡ b
xor_digits_zero zero zero b h e = ground arith
xor_digits_zero zero (suc a) b h e = omega arith
xor_digits_zero (suc n) zero b h e = ground arith
xor_digits_zero (suc n) (suc a) b h e = omega (
  arith,
  xor_digits_zero n (suc a / 2) (b / 2) (omega arith) (omega arith),
  differ_zero (suc a % 2) (b % 2) (omega arith),
)

xor_digits_refl : (n a : ℕ) → a ≤ n → digits (λ b. b) differ n a a ≡ 0
xor_digits_refl zero zero h = refl
xor_digits_refl zero (suc a) h = omega arith
xor_digits_refl (suc n) zero h = refl
xor_digits_refl (suc n) (suc a) h =
    omega (arith, xor_digits_refl n (suc a / 2) (omega arith), differ_refl (suc a % 2))

or_digits_zero : (n a b : ℕ) → a ≤ n → digits (λ b. b) max n a b ≡ 0 → (a ≡ 0) × (b ≡ 0)
or_digits_zero zero zero b h e = (refl, e)
or_digits_zero zero (suc a) b h e = absurd (omega arith)
or_digits_zero (suc n) zero b h e = (refl, e)
or_digits_zero (suc n) (suc a) b h e =
    let (x, y) = or_digits_zero n (suc a / 2) (b / 2) (omega arith) (omega arith) in
    (omega arith, omega arith)

bit_xor_zero : (a b : ℕ) → (bit_xor a b ≡ 0) ↔ (a ≡ b)
bit_xor_zero a b = (
  (λ e. xor_digits_zero a a b (omega arith) (sym (bit_xor-bitwise a b) ∙ e)),
  λ e. rw e (bit_xor-bitwise b b ∙ xor_digits_refl b b (omega arith)),
)

bit_or_zero : (a b : ℕ) → (bit_or a b ≡ 0) ↔ ((a ≡ 0) × (b ≡ 0))
bit_or_zero a b = (
  (λ e. or_digits_zero a a b (omega arith) (sym (bit_or-bitwise a b) ∙ e)),
  λ e. rw (e.0, e.1) refl,
)

difference_iff :
    (d : ℕ) (a c : List ℕ) → length a ≡ length c → (difference_from d a c ≡ 0) ↔ ((d ≡ 0) × (a ≡ c))
unfolding difference_from
difference_iff d [] [] h = ground arith
difference_iff d [] (y ∷ c) h = absurd (omega arith)
difference_iff d (x ∷ a) [] h = absurd (omega arith)
difference_iff d (x ∷ a) (y ∷ c) h = ground (
  arith,
  difference_iff (bit_or d (bit_xor x y)) a c (omega arith),
  bit_or_zero d (bit_xor x y),
  bit_xor_zero x y,
)

-- A bearer token is accepted exactly when the bytes of what the header supplies are the bytes of the
-- expected token.
pub bearer_token_iff :
    (encode : Text → List ℕ) (authorization : Option Text) (expected : Text)
    → (has_valid_bearer_token encode authorization expected ≡ true)
      ↔ (encode expected ≡ encode (supplied authorization))
unfolding has_valid_bearer_token
bearer_token_iff encode authorization expected =
    elim (Bool-cases (length actual == length candidate)) [
      | inl e ↦ ground (arith, difference_iff 0 actual candidate (ground arith))
      | inr e ↦ ground arith
    ]
  where
    actual : List ℕ
    actual = encode expected

    candidate : List ℕ
    candidate = encode (supplied authorization)
