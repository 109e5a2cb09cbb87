-- ===== src/History/Pages.antt =====
-- The older messages that a refresh keeps all precede the refreshed ones.
use rakazo.Common.{
  ℕ, ◌<◌, ◌≤◌, Bool, true, false, ltb, ◌&&◌, List, [], ◌∷◌, Option, none, some, select, ◌≡◌, refl,
  subst, ◌⊎◌, arith, All, Bool-cases, Option-cases, inl, inr, &&-true,
}
use rakazo.History.{MessageIdentity, is_durable_message, lower, first_seq_from, is_before, retained}

module _ {M : Type 0} (m : MessageIdentity M) where
  -- A durable message with a number is numbered `b` or above.
  abbrev pub IsFrom : ℕ → M → Type 0
  IsFrom b y = (n : ℕ) → is_durable_message m y ≡ true → m.seq y ≡ some n → b ≤ n

  lower_le :
      (d : Bool) (s : Option ℕ) (a : ℕ)
      → (b : ℕ) × (lower m d s (some a) ≡ some b)
        × (b ≤ a)
        × ((n : ℕ) → d ≡ true → s ≡ some n → b ≤ n)
  lower_le false s a = (a, refl, omega arith, λ n e _. absurd (ground arith))
  lower_le true none a = (a, refl, omega arith, λ n _ e. absurd (ground arith))
  lower_le true (some k) a = elim (Bool-cases (ltb k a)) [
    | inl e ↦ (k, rw e refl, ground arith, λ n _ h. ground arith)
    | inr e ↦ (a, rw e refl, omega arith, λ n _ h. ground arith)
  ]

  first_le :
      (xs : List M) (a b : ℕ) → first_seq_from m (some a) xs ≡ some b → (b ≤ a) × All (IsFrom b) xs
  unfolding first_seq_from
  first_le [] a b e = (ground arith, tt)
  first_le (x ∷ xs) a b e =
      let (c, l, c_a, c_n) = lower_le (is_durable_message m x) (m.seq x) a in
      let (b_c, h) = first_le xs c b (subst (λ o. first_seq_from m o xs ≡ some b) l e) in
      (omega arith, ((λ n d s. ground (arith, c_n n d s)), h))

  lower-none :
      (d : Bool) (s : Option ℕ)
      → (lower m d s none ≡ none × ((n : ℕ) → d ≡ true → s ≡ some n → false ≡ true))
        ⊎ ((c : ℕ) × (lower m d s none ≡ some c) × ((n : ℕ) → d ≡ true → s ≡ some n → c ≤ n))
  lower-none false s = inl (refl, λ n e _. ground arith)
  lower-none true none = inl (refl, λ n _ e. ground arith)
  lower-none true (some k) = inr (k, refl, λ n _ e. ground arith)

  first_le_none : (xs : List M) (b : ℕ) → first_seq_from m none xs ≡ some b → All (IsFrom b) xs
  unfolding first_seq_from
  first_le_none [] b e = ground arith
  first_le_none (x ∷ xs) b e = elim (lower-none (is_durable_message m x) (m.seq x)) [
    | inl skip ↦ (
      (λ n d s. ground (arith, skip.1 n d s)),
      first_le_none xs b (subst (λ o. first_seq_from m o xs ≡ some b) skip.0 e),
    )
    | inr found ↦
        let (b_c, h) =
          first_le xs found.0 b (subst (λ o. first_seq_from m o xs ≡ some b) found.1 e) in
        ((λ n d s. ground (arith, found.2 n d s)), h)
  ]

  -- A durable message that is kept from the previous page is numbered below `b`.
  abbrev pub IsBelow : ℕ → M → Type 0
  IsBelow b x = (n : ℕ) × (m.seq x ≡ some n) × (n < b)

  before_some : (b : ℕ) (o : Option ℕ) → is_before m b o ≡ true → (n : ℕ) × (o ≡ some n) × (n < b)
  before_some b none e = ground arith
  before_some b (some n) e = (n, refl, ground arith)

  kept-IsBelow :
      (b : ℕ) (xs : List M)
      → All (IsBelow b) (select (λ x. is_durable_message m x && is_before m b (m.seq x)) xs)
  kept-IsBelow b [] = tt
  kept-IsBelow b (x ∷ xs) = elim (Bool-cases (is_durable_message m x && is_before m b (m.seq x))) [
    | inl e ↦ rw e (
      before_some b (m.seq x) (&&-true (is_durable_message m x) (is_before m b (m.seq x)) e).1,
      kept-IsBelow b xs,
    )
    | inr e ↦ rw e (kept-IsBelow b xs)
  ]

  -- What a refresh keeps of the messages loaded before is nothing, or there is a number such that the
  -- kept messages are all numbered below it and the numbered durable messages of the refreshed page at
  -- it or above.
  pub retained_precede_recent :
      (previous recent : List M)
      → (retained m (first_seq_from m none recent) previous ≡ [])
        ⊎ ((b : ℕ) × All (IsBelow b) (retained m (first_seq_from m none recent) previous)
            × All (IsFrom b) recent)
  unfolding retained
  retained_precede_recent previous recent = elim (Option-cases (first_seq_from m none recent)) [
    | inl e ↦ inl (rw e refl)
    | inr (b, e) ↦ inr (b, rw e (kept-IsBelow b previous), first_le_none recent b e)
  ]
