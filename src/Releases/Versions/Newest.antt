-- ===== src/Releases/Versions/Newest.antt =====
-- The release that is chosen is stable, and no stable release is newer.
use rakazo.Common.{
  ◌==◌, ltb, Bool, true, false, ◌&&◌, ◌||◌, List, [], ◌∷◌, Option, none, some, Text, All,
  if◌then◌else◌, ◌≡◌, ◌⊎◌, refl, inl, inr, Bool-cases, arith,
}
use rakazo.Releases.Versions.{
  ReleaseTag, RemoteRelease, parse_release_tag, compare_prereleases, compare_release_tags,
  is_positive, stable_of, is_null, zero_sign, better, latest_from, as_release,
  select_latest_release,
}

-- By major, then minor, then patch number.
abbrev pub is_newer : ReleaseTag → ReleaseTag → Bool
is_newer a b =
    ltb b.major a.major
    || (a.major == b.major) && (ltb b.minor a.minor || (a.minor == b.minor) && ltb b.patch a.patch)

abbrev with_stable : Option ReleaseTag → Text → List (ReleaseTag × Text) → List (ReleaseTag × Text)
with_stable none commit rest = rest
with_stable (some release) commit rest = (release, commit) ∷ rest

-- The releases whose tags are those of a stable version, with their commits.
pub stable_releases : List RemoteRelease → List (ReleaseTag × Text)
stable_releases [] = []
stable_releases (r ∷ rs) =
    with_stable (stable_of (parse_release_tag r.tag)) r.commit (stable_releases rs)

abbrev pub IsOneOf : ReleaseTag × Text → List (ReleaseTag × Text) → Type 0
IsOneOf r [] = false ≡ true
IsOneOf r (x ∷ xs) = (r ≡ x) ⊎ IsOneOf r xs

-- None of no releases, else one of them than which none is newer.
abbrev pub IsNewest : List (ReleaseTag × Text) → Option (ReleaseTag × Text) → Type 0
IsNewest releases none = releases ≡ []
IsNewest releases (some r) = IsOneOf r releases × All (λ x. is_newer x.0 r.0 ≡ false) releases

older : (p b r : ReleaseTag) → is_newer p b ≡ true → is_newer p r ≡ false → is_newer b r ≡ false
older p b r h g = ground arith

not_newer :
    (p b r : ReleaseTag) → is_newer p b ≡ false → is_newer b r ≡ false → is_newer p r ≡ false
not_newer p b r h g = ground arith

cons-ne-nil : (x : ReleaseTag × Text) (xs : List (ReleaseTag × Text)) → ¬ (x ∷ xs ≡ [])
cons-ne-nil x xs h = ground arith

abbrev or_best : Option (ReleaseTag × Text) → List (ReleaseTag × Text) → List (ReleaseTag × Text)
or_best none xs = xs
or_best (some b) xs = b ∷ xs

kept-IsNewest :
    (newer : Bool) (p b : ReleaseTag × Text) (xs : List (ReleaseTag × Text))
    (o : Option (ReleaseTag × Text))
    → is_newer p.0 b.0 ≡ newer
    → IsNewest (or_best (if newer then some p else some b) xs) o
    → IsNewest (b ∷ p ∷ xs) o
kept-IsNewest true p b xs none e h = absurd (cons-ne-nil p xs h)
kept-IsNewest true p b xs (some r) e (one, (low, rest)) =
    (inr one, (older p.0 b.0 r.0 e low, (low, rest)))
kept-IsNewest false p b xs none e h = absurd (cons-ne-nil b xs h)
kept-IsNewest false p b xs (some r) e (inl same, (low, rest)) =
    (inl same, (low, (not_newer p.0 b.0 r.0 e low, rest)))
kept-IsNewest false p b xs (some r) e (inr one, (low, rest)) =
    (inr (inr one), (low, (not_newer p.0 b.0 r.0 e low, rest)))

not_newer_itself : (b : ReleaseTag) → is_newer b b ≡ false
not_newer_itself b = ground arith

equal_prereleases : (p q : Option Text) → p ≡ none → q ≡ none → compare_prereleases p q ≡ zero_sign
unfolding compare_prereleases
equal_prereleases none none h g = refl
equal_prereleases none (some q) h g = ground arith
equal_prereleases (some p) q h g = ground arith

compare-is_newer :
    (a b : ReleaseTag)
    → a.prerelease ≡ none
    → b.prerelease ≡ none
    → is_newer a b ≡ is_positive (compare_release_tags a b)
unfolding compare_release_tags
compare-is_newer a b h g = ground (arith, equal_prereleases a.prerelease b.prerelease h g)

null_prerelease : (p : Option Text) → is_null p ≡ true → p ≡ none
null_prerelease none h = refl
null_prerelease (some p) h = ground arith

abbrev IsStable : Option (ReleaseTag × Text) → Type 0
IsStable none = Unit {0}
IsStable (some b) = b.0.prerelease ≡ none

better-IsNewest :
    (e : Option (ReleaseTag × Text)) (p : ReleaseTag) (commit : Text)
    (xs : List (ReleaseTag × Text)) (o : Option (ReleaseTag × Text))
    → IsStable e
    → p.prerelease ≡ none
    → IsNewest (or_best (better e (some p) commit) xs) o
    → IsNewest (or_best e ((p, commit) ∷ xs)) o
unfolding better
better-IsNewest none p commit xs o se sp h = h
better-IsNewest (some (b, at)) p commit xs o se sp h =
    kept-IsNewest (is_positive (compare_release_tags p b)) (p, commit) (b, at) xs o
      (compare-is_newer p b sp se) h

better-IsStable :
    (e : Option (ReleaseTag × Text)) (p : ReleaseTag) (commit : Text)
    → IsStable e
    → p.prerelease ≡ none
    → IsStable (better e (some p) commit)
unfolding better
better-IsStable none p commit se sp = sp
better-IsStable (some (b, at)) p commit se sp =
    elim (Bool-cases (is_positive (compare_release_tags p b))) [
      | inl newer ↦ rw newer sp
      | inr other ↦ rw other se
    ]

-- What the rest of the list gives from any best so far.
abbrev Finds :
    (Option (ReleaseTag × Text) → Option (ReleaseTag × Text)) → List (ReleaseTag × Text) → Type 0
Finds latest xs = (e : Option (ReleaseTag × Text)) → IsStable e → IsNewest (or_best e xs) (latest e)

if-Finds :
    (b : Bool) (p : ReleaseTag) (commit : Text) (xs : List (ReleaseTag × Text))
    (latest : Option (ReleaseTag × Text) → Option (ReleaseTag × Text))
    → (b ≡ true → p.prerelease ≡ none)
    → Finds latest xs
    → Finds
        (λ e. latest (better e (if b then some p else none) commit))
        (with_stable (if b then some p else none) commit xs)
unfolding better
if-Finds true p commit xs latest s f e se =
    better-IsNewest e p commit xs (latest (better e (some p) commit)) se (s refl)
      (f (better e (some p) commit) (better-IsStable e p commit se (s refl)))
if-Finds false p commit xs latest s f e se = f e se

candidate-Finds :
    (o : Option ReleaseTag) (commit : Text) (xs : List (ReleaseTag × Text))
    (latest : Option (ReleaseTag × Text) → Option (ReleaseTag × Text))
    → Finds latest xs
    → Finds (λ e. latest (better e (stable_of o) commit)) (with_stable (stable_of o) commit xs)
unfolding stable_of better
candidate-Finds none commit xs latest f = f
candidate-Finds (some p) commit xs latest f =
    if-Finds (is_null p.prerelease) p commit xs latest (null_prerelease p.prerelease) f

latest_from-Finds : (rs : List RemoteRelease) → Finds (λ e. latest_from e rs) (stable_releases rs)
unfolding latest_from stable_releases
latest_from-Finds [] none se = refl
latest_from-Finds [] (some b) se = (inl refl, (not_newer_itself b.0, tt))
latest_from-Finds (r ∷ rs) e se =
    candidate-Finds (parse_release_tag r.tag) r.commit (stable_releases rs) (λ f. latest_from f rs)
      (latest_from-Finds rs) e se

-- The release that is selected is one of the stable releases of the list, with its own commit, and none
-- of them is newer by major, minor and patch number; nothing is selected only if the list has no stable
-- release.
pub select_latest-IsNewest :
    (releases : List RemoteRelease)
    → (best : Option (ReleaseTag × Text)) × (select_latest_release releases ≡ as_release best)
      × IsNewest (stable_releases releases) best
unfolding select_latest_release
select_latest-IsNewest releases =
    (latest_from none releases, refl, latest_from-Finds releases none tt)
