-- ===== src/Releases/Versions.antt =====
-- packages/core/src/compose-update.ts: the parts of a release's tag, their order, and the newest stable
-- release. A number is the value of its digits.
pub mod Newest
mod Tests
use rakazo.Common.{
  ℕ, ◌==◌, ltb, leb, Bool, true, false, ◌&&◌, ◌||◌, not, List, [], ◌∷◌, ◌++◌, Option, none, some,
  Text, lit, text_eq, is_empty, all, number, if◌then◌else◌,
}

pub record ReleaseTag : Type 0 where
  pub tag : Text
  pub major : ℕ
  pub minor : ℕ
  pub patch : ℕ
  pub prerelease : Option Text

pub record RemoteRelease : Type 0 where
  pub tag : Text
  pub commit : Text

abbrev is_digit : ℕ → Bool
is_digit c = leb 48 c && leb c 57

-- `[0-9A-Za-z.-]`
abbrev is_prerelease_unit : ℕ → Bool
is_prerelease_unit c =
    is_digit c || leb 65 c && leb c 90 || leb 97 c && leb c 122 || c == 46 || c == 45

abbrev with_unit : ℕ → Text × Text → Text × Text
with_unit c (digits, rest) = (c ∷ digits, rest)

-- The digits that a text begins with, and the rest.
pub digits_first : Text → Text × Text
digits_first [] = ([], [])
digits_first (c ∷ s) =
    let more = digits_first s in if is_digit c then with_unit c more else ([], c ∷ s)

abbrev or_zero : Option ℕ → ℕ
or_zero none = 0
or_zero (some n) = n

abbrev value_of : Text → ℕ
value_of digits = or_zero (number (λ s. none) digits)

-- `(\d+)\.` at the start: the number and the rest
abbrev after_dot : Text → Text → Option (ℕ × Text)
after_dot digits [] = none
after_dot digits (c ∷ rest) =
    if c == 46 && not (is_empty digits) then some (value_of digits, rest) else none

abbrev number_dot : Text → Option (ℕ × Text)
number_dot s = let (digits, rest) = digits_first s in after_dot digits rest

-- `(\d+)(?:-([0-9A-Za-z.-]+))?$`: the number and the prerelease
abbrev last_number : Text → Text → Option (ℕ × Option Text)
last_number digits [] = if is_empty digits then none else some (value_of digits, none)
last_number digits (c ∷ rest) =
    if c == 45 && not (is_empty digits) && not (is_empty rest) && all is_prerelease_unit rest
    then some (value_of digits, some rest)
    else none

abbrev number_end : Text → Option (ℕ × Option Text)
number_end s = let (digits, rest) = digits_first s in last_number digits rest

abbrev with_patch : Text → ℕ → ℕ → Option (ℕ × Option Text) → Option ReleaseTag
with_patch tag major minor none = none
with_patch tag major minor (some (patch, prerelease)) =
    some
      (record { tag = tag; major = major; minor = minor; patch = patch; prerelease = prerelease })

abbrev with_minor : Text → ℕ → Option (ℕ × Text) → Option ReleaseTag
with_minor tag major none = none
with_minor tag major (some (minor, rest)) = with_patch tag major minor (number_end rest)

abbrev with_major : Text → Option (ℕ × Text) → Option ReleaseTag
with_major tag none = none
with_major tag (some (major, rest)) = with_minor tag major (number_dot rest)

pub parse_release_tag : Text → Option ReleaseTag
unfolding digits_first number
parse_release_tag [] = none
parse_release_tag (c ∷ rest) = if c == 118 then with_major (c ∷ rest) (number_dot rest) else none

-- `a < b` on strings
pub text_less : Text → Text → Bool
text_less [] [] = false
text_less [] (d ∷ t) = true
text_less (c ∷ s) [] = false
text_less (c ∷ s) (d ∷ t) = ltb c d || c == d && text_less s t

-- The sign of a comparison.
pub data Sign : Type 0 where
  negative zero_sign positive : Sign

abbrev sign_of : ℕ → ℕ → Sign
sign_of a b = if ltb a b then negative else positive

compare_prereleases : Option Text → Option Text → Sign
unfolding text_less
compare_prereleases none none = zero_sign
compare_prereleases none (some b) = positive
compare_prereleases (some a) none = negative
compare_prereleases (some a) (some b) =
    if text_eq a b then zero_sign else if text_less a b then negative else positive

pub compare_release_tags : ReleaseTag → ReleaseTag → Sign
unfolding compare_prereleases
compare_release_tags a b =
    if not (a.major == b.major)
    then sign_of a.major b.major
    else if not (a.minor == b.minor)
    then sign_of a.minor b.minor
    else if not (a.patch == b.patch)
    then sign_of a.patch b.patch
    else compare_prereleases a.prerelease b.prerelease

abbrev pub is_positive : Sign → Bool
is_positive positive = true
is_positive _ = false

abbrev is_null : Option Text → Bool
is_null none = true
is_null (some prerelease) = false

-- `!parsed || parsed.prerelease !== null` is none.
pub stable_of : Option ReleaseTag → Option ReleaseTag
stable_of none = none
stable_of (some release) = if is_null release.prerelease then some release else none

pub better : Option (ReleaseTag × Text) → Option ReleaseTag → Text → Option (ReleaseTag × Text)
unfolding compare_release_tags
better best none commit = best
better none (some parsed) commit = some (parsed, commit)
better (some (best, at)) (some parsed) commit =
    if is_positive (compare_release_tags parsed best)
    then some (parsed, commit)
    else some (best, at)

latest_from : Option (ReleaseTag × Text) → List RemoteRelease → Option (ReleaseTag × Text)
unfolding parse_release_tag stable_of better
latest_from best [] = best
latest_from best (candidate ∷ releases) =
    latest_from (better best (stable_of (parse_release_tag candidate.tag)) candidate.commit)
      releases

abbrev pub as_release : Option (ReleaseTag × Text) → Option RemoteRelease
as_release none = none
as_release (some (release, commit)) = some (record { tag = release.tag; commit = commit })

pub select_latest_release : List RemoteRelease → Option RemoteRelease
unfolding latest_from
select_latest_release releases = as_release (latest_from none releases)
