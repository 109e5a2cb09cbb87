-- ===== src/Effects/Dispatch/Histories/Queued.antt =====
-- What holds of every pending call holds of the one that goes on and of those that stay.
use mathlib.Core.Option.{some-injective}
use rakazo.Common.{ℕ, zero, suc, List, [], ◌∷◌, some, All, ◌≡◌, subst, arith}
use rakazo.Effects.Dispatch.Histories.{Pending, nth_pending, without_nth}

module _ {V : Type 0} where
  pub nth-All :
      (P : Pending V → Type 0) (n : ℕ) (ps : List (Pending V)) (p : Pending V)
      → nth_pending n ps ≡ some p
      → All P ps
      → P p
  unfolding nth_pending
  nth-All P n [] p e r = ground arith
  nth-All P zero (q ∷ ps) p e (r, rs) = subst P (some-injective q p e) r
  nth-All P (suc n) (q ∷ ps) p e (r, rs) = nth-All P n ps p e rs

  pub without_nth-All :
      (P : Pending V → Type 0) (n : ℕ) (ps : List (Pending V)) → All P ps → All P (without_nth n ps)
  unfolding without_nth
  without_nth-All P n [] r = tt
  without_nth-All P zero (q ∷ ps) (r, rs) = rs
  without_nth-All P (suc n) (q ∷ ps) (r, rs) = (r, without_nth-All P n ps rs)
