-- ===== src/Redaction/Leftmost.antt =====
-- What redacting a text means, without a buffer or a loop: from left to right, the longest secret
-- that starts at a place is replaced whole, and a code unit where none starts is kept.
use rakazo.Common.{
  ℕ, ◌≤◌, true, false, ◌&&◌, List, [], ◌∷◌, ◌++◌, Text, is_empty, starts_with, has, ◌≡◌, refl, sym,
  ap, subst, ◌∙◌, arith, length, take, drop, ◌==◌,
}
use rakazo.Redaction.{redacted}

abbrev pub IsSecret : List Text → Text → Type 0
IsSecret secrets w = (has secrets w ≡ true) × (is_empty w ≡ false)

abbrev NoneStarts : List Text → Text → Type 0
NoneStarts secrets text = (w : Text) → IsSecret secrets w → starts_with text w ≡ false

abbrev IsLongest : List Text → Text → Text → Type 0
IsLongest secrets text v =
    (w : Text) → IsSecret secrets w → starts_with text w ≡ true → length w ≤ length v

-- `Redacts secrets text out`: `out` is `text` with its secrets replaced.
pub data Redacts (secrets : List Text) : Text → Text → Type 0 where
  done : Redacts secrets [] []
  keep :
      {c : ℕ} {s out : Text}
      → NoneStarts secrets (c ∷ s)
      → Redacts secrets s out
      → Redacts secrets (c ∷ s) (c ∷ out)
  hide :
      (v : Text) {text out result : Text}
      → IsSecret secrets v
      → starts_with text v ≡ true
      → IsLongest secrets text v
      → result ≡ redacted ++ out
      → Redacts secrets (drop (length v) text) out
      → Redacts secrets text result

pub starts_with-append :
    (s more p : Text) → length p ≤ length s → starts_with (s ++ more) p ≡ starts_with s p
unfolding starts_with
starts_with-append [] more [] h = ground arith
starts_with-append (a ∷ s) more [] h = refl
starts_with-append [] more (b ∷ p) h = absurd (omega arith)
starts_with-append (a ∷ s) more (b ∷ p) h =
    ap (λ x. (a == b) && x) (starts_with-append s more p (omega arith))

starts_with-take : (s p : Text) → starts_with s p ≡ true → take (length p) s ≡ p
unfolding starts_with
starts_with-take s [] h = refl
starts_with-take [] (b ∷ p) h = ground arith
starts_with-take (a ∷ s) (b ∷ p) h = ground (arith, starts_with-take s p)

pub length_of_starts_with : (s p : Text) → starts_with s p ≡ true → length p ≤ length s
unfolding starts_with
length_of_starts_with s [] h = omega arith
length_of_starts_with [] (b ∷ p) h = absurd (ground arith)
length_of_starts_with (a ∷ s) (b ∷ p) h = ground (arith, length_of_starts_with s p)

nothing_starts : (v : Text) → is_empty v ≡ false → starts_with [] v ≡ false
unfolding starts_with
nothing_starts [] h = cc
nothing_starts (c ∷ v) h = refl

same_length :
    (text v w : Text)
    → starts_with text v ≡ true
    → starts_with text w ≡ true
    → length v ≡ length w
    → v ≡ w
same_length text v w p q e =
    sym (starts_with-take text v p) ∙ ap (λ n. take n text) e ∙ starts_with-take text w q

-- A text has one redaction only.
pub Redacts-unique :
    {secrets : List Text} {text a b : Text}
    → Redacts secrets text a
    → Redacts secrets text b
    → a ≡ b
Redacts-unique done done = refl
Redacts-unique done (hide v s p l e r) = absurd (ground (arith, nothing_starts v s.1))
Redacts-unique (keep {c} n r) (keep n' r') = ap (◌∷◌ c) (Redacts-unique r r')
Redacts-unique (keep n r) (hide v s p l e r') = absurd (ground (arith, n v s))
Redacts-unique (hide v s p l e r) done = absurd (ground (arith, nothing_starts v s.1))
Redacts-unique (hide v s p l e r) (keep n r') = absurd (ground (arith, n v s))
Redacts-unique {secrets} {text} (hide v s p l e r) (hide v' {out = out'} s' p' l' e' r') =
    let same = same_length text v v' p p' (omega (arith, l v' s' p', l' v s p)) in
    e
    ∙ ap (◌++◌ redacted)
        (Redacts-unique r (subst (λ x. Redacts secrets (drop (length x) text) out') (sym same) r'))
    ∙ sym e'
