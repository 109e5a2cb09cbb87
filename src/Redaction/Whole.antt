-- ===== src/Redaction/Whole.antt =====
-- Redacting a whole text by `split` and `join`, and its agreement with the streaming redactor.
use rakazo.Common.{
  ℕ, zero, suc, ◌-◌, ◌≤◌, false, List, [], ◌∷◌, ◌++◌, append_assoc, append-nil, Text, is_empty,
  starts_with, has, join, ◌≡◌, refl, sym, ap, subst, ◌∙◌, inl, inr, arith, length, length-drop,
  drop, text_eq_iff, text_eq_refl, Bool-cases,
}
use mathlib.Core.List.{flatten}
use rakazo.Redaction.{redacted, split_from, redact_secret, create_streaming_redactor, stream}
use rakazo.Redaction.Leftmost.{IsSecret, Redacts, done, keep, hide, Redacts-unique}
use rakazo.Redaction.Stream.{stream_redacts}

split_from-skip :
    (sep : Text) (k : ℕ) (cur s : Text) → split_from sep k cur s ≡ split_from sep 0 cur (drop k s)
unfolding split_from
split_from-skip sep zero cur s = refl
split_from-skip sep (suc k) cur [] = refl
split_from-skip sep (suc k) cur (c ∷ s) = split_from-skip sep k cur s

join-split_from :
    (p sep : Text) (k : ℕ) (cur s : Text)
    → join redacted (p ∷ split_from sep k cur s)
      ≡ p ++ (redacted ++ join redacted (split_from sep k cur s))
unfolding split_from join
join-split_from p sep zero cur [] = refl
join-split_from p sep (suc k) cur [] = refl
join-split_from p sep (suc k) cur (c ∷ s) = join-split_from p sep k cur s
join-split_from p sep zero cur (c ∷ s) = elim (Bool-cases (starts_with (c ∷ s) sep)) [
  | inl hit ↦ rw hit refl
  | inr miss ↦ rw miss (join-split_from p sep zero (cur ++ c ∷ []) s)
]

only : (secret w : Text) → IsSecret (secret ∷ []) w → w ≡ secret
unfolding has
only secret w i = ground (arith, text_eq_iff secret w, i.0)

self_IsSecret : (secret : Text) → is_empty secret ≡ false → IsSecret (secret ∷ []) secret
unfolding has
self_IsSecret secret h = (ground (arith, text_eq_refl secret), h)

drop-suc_pred :
    (secret : Text) (c : ℕ) (s : Text)
    → is_empty secret ≡ false
    → drop (length secret) (c ∷ s) ≡ drop (length secret - 1) s
drop-suc_pred [] c s h = cc
drop-suc_pred (d ∷ secret) c s h = ap (λ n. drop n s) (omega arith)

module _ (secret : Text) (full : is_empty secret ≡ false) where
  record Split (cur s : Text) : Type 0 where
    rest : Text
    joined : join redacted (split_from secret 0 cur s) ≡ cur ++ rest
    redacts : Redacts (secret ∷ []) s rest

  -- `n` bounds the length of the text: a match is passed whole.
  Split-Split : (n : ℕ) (cur s : Text) → length s ≤ n → Split cur s
  unfolding split_from join
  Split-Split n cur [] h = record { rest = []; joined = sym (append-nil cur); redacts = done }
  Split-Split zero cur (c ∷ s) h = absurd (omega arith)
  Split-Split (suc n) cur (c ∷ s) h = elim (Bool-cases (starts_with (c ∷ s) secret)) [
    | inr miss ↦
        let d = Split-Split n (cur ++ c ∷ []) s (omega arith) in
        record {
          rest = c ∷ d.rest;
          joined = rw miss (d.joined ∙ append_assoc cur (c ∷ []) d.rest);
          redacts = keep (λ w i. rw (only secret w i) miss) d.redacts;
        }
    | inl hit ↦
        let after = drop (length secret - 1) s in
        let d = Split-Split n [] after (omega (arith, length-drop (length secret - 1) s)) in
        record {
          rest = redacted ++ d.rest;
          joined = rw hit (
              join-split_from cur secret (length secret - 1) [] s
              ∙ ap (λ t. cur ++ (redacted ++ join redacted t))
                  (split_from-skip secret (length secret - 1) [] s)
              ∙ ap (λ t. cur ++ (redacted ++ t)) d.joined);
          redacts =
              hide secret (self_IsSecret secret full) hit
                (λ w i p. rw (only secret w i) (omega arith)) refl
                (subst (λ t. Redacts (secret ∷ []) t d.rest) (sym (drop-suc_pred secret c s full))
                  d.redacts);
        }
  ]

unredacted : (s : Text) → Redacts ([] ∷ []) s s
unfolding has
unredacted [] = done
unredacted (c ∷ s) =
    keep (λ w i. absurd (ground (arith, text_eq_iff [] w, i.0, i.1))) (unredacted s)

redact_secret_redacts :
    (text secret : Text) → Redacts (secret ∷ []) text (redact_secret text secret)
unfolding redact_secret
redact_secret_redacts text [] = unredacted text
redact_secret_redacts text (d ∷ secret) =
    let s = Split-Split (d ∷ secret) refl (length text) [] text (omega arith) in
    subst (Redacts ((d ∷ secret) ∷ []) text) (sym s.joined) s.redacts

-- For one secret the streaming redactor prints what splitting the whole text at the secret and
-- joining it again gives, whatever the chunks are; an empty secret hides nothing in either.
pub stream-redact_secret :
    (secret : Text) (chunks : List Text)
    → stream (create_streaming_redactor (secret ∷ [])) chunks
      ≡ redact_secret (flatten chunks) secret
stream-redact_secret secret chunks =
    Redacts-unique (stream_redacts (secret ∷ []) chunks)
      (redact_secret_redacts (flatten chunks) secret)
