-- ===== src/Releases/Versions/Tests.antt =====
-- A list with a release candidate and a tag that is no release.
use rakazo.Common.{
  List, [], ◌∷◌, Option, some, Text, lit, number, trim, trim_start, trim_end, is_space, text_eq,
  ◌≡◌, refl,
}
use rakazo.Releases.Versions.{
  ReleaseTag, RemoteRelease, digits_first, parse_release_tag, stable_of, better,
  compare_release_tags, compare_prereleases, latest_from, as_release, select_latest_release,
}
use rakazo.Releases.Versions.Newest.{stable_releases, IsNewest, select_latest-IsNewest}

abbrev release_of : Text → Text → RemoteRelease
release_of tag commit = record { tag = tag; commit = commit }

abbrev test_releases : List RemoteRelease
test_releases =
    release_of (lit "v1.9.0") (lit "a")
    ∷ release_of (lit "v1.10.2") (lit "b")
    ∷ release_of (lit "nightly") (lit "c")
    ∷ release_of (lit "v2.0.0-rc.1") (lit "d")
    ∷ []

select_latest-IsNewest_example :
    (best : Option (ReleaseTag × Text)) × (select_latest_release test_releases ≡ as_release best)
    × IsNewest (stable_releases test_releases) best
select_latest-IsNewest_example = select_latest-IsNewest test_releases

latest_of_four : select_latest_release test_releases ≡ some (release_of (lit "v1.10.2") (lit "b"))
unfolding select_latest_release latest_from better stable_of parse_release_tag digits_first number
    trim trim_start trim_end is_space compare_release_tags compare_prereleases text_eq
latest_of_four = refl
