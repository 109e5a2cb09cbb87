-- ===== src/Approval/Words/Segments.antt =====
-- The word tests on a tool's name, read by its segments between underscores.
use rakazo.Common.{
  ◌==◌, false, ◌&&◌, List, [], ◌∷◌, Text, starts_with, has, text_eq, any, length, drop,
  if◌then◌else◌, ◌≡◌, refl, arith, All,
}
use rakazo.Approval.Words.{word_here, word_inside, has_word, ends_word}

-- `s.split("_")`: the first segment, and those after it.
pub head_segment : Text → Text
head_segment [] = []
head_segment (c ∷ s) = if c == b'_' then [] else c ∷ head_segment s

pub later_segments : Text → List Text
unfolding head_segment
later_segments [] = []
later_segments (c ∷ s) =
    let rest = later_segments s in if c == b'_' then head_segment s ∷ rest else rest

abbrev pub IsPlain : Text → Type 0
IsPlain = All (λ c. (c == b'_') ≡ false)

word_is_head :
    (w s : Text)
    → IsPlain w
    → (starts_with s w && ends_word (drop (length w) s)) ≡ text_eq w (head_segment s)
unfolding starts_with text_eq head_segment
word_is_head [] [] p = refl
word_is_head [] (c ∷ s) p = ground arith
word_is_head (d ∷ w) [] p = refl
word_is_head (d ∷ w) (c ∷ s) p = ground (arith, word_is_head w s p.1, p.0)

word_here-head :
    (words : List Text) (s : Text)
    → All IsPlain words
    → word_here words s ≡ has words (head_segment s)
unfolding word_here has
word_here-head [] s p = refl
word_here-head (w ∷ words) s p = ground (arith, word_is_head w s p.0, word_here-head words s p.1)

word_inside-later :
    (words : List Text) (s : Text)
    → All IsPlain words
    → word_inside words s ≡ any (has words) (later_segments s)
unfolding word_inside later_segments
word_inside-later words [] p = refl
word_inside-later words (c ∷ s) p =
    ground (arith, word_here-head words s p, word_inside-later words s p)

-- A pattern `(^|_)(a|b)(_|$)`, whose words hold no underscore, finds a word exactly if one of the
-- segments between the underscores is one of the words.
pub has_word-segments :
    (words : List Text) (s : Text)
    → All IsPlain words
    → has_word words s ≡ any (has words) (head_segment s ∷ later_segments s)
unfolding has_word
has_word-segments words s p = ground (arith, word_here-head words s p, word_inside-later words s p)
