-- ===== src/Releases/Tags/Local.antt =====
-- The tags made of a commit: a fork's build is only on this host, a published image is not.
use rakazo.Common.{
  ℕ, ◌+◌, ◌≤◌, leb, true, false, ◌&&◌, [], ◌∷◌, ◌++◌, Text, lit, text_eq, starts_with, all, length,
  ok, ◌≡◌, refl, arith,
}
use rakazo.Releases.Tags.{
  is_tag_unit, is_hex, is_commit, is_valid_image_tag, fork_image_tag, commit_image_tag,
  is_local_image_tag,
}

hex-tag_unit : (c : ℕ) → is_hex c ≡ true → is_tag_unit c ≡ true
hex-tag_unit c h = ground arith

all-tag_unit : (s : Text) → all is_hex s ≡ true → all is_tag_unit s ≡ true
all-tag_unit [] h = refl
all-tag_unit (c ∷ s) h = ground (arith, hex-tag_unit c, all-tag_unit s)

commit_parts :
    (commit : Text) → is_commit commit ≡ true → (all is_hex commit ≡ true) × (length commit ≤ 64)
unfolding is_commit
commit_parts commit h = ground arith

short_enough :
    (m : ℕ) (commit : Text)
    → m ≤ 6 + length commit
    → is_commit commit ≡ true
    → (all is_tag_unit commit && leb m 127) ≡ true
short_enough m commit le h =
    let (hex, short) = commit_parts commit h in ground (arith, all-tag_unit commit hex, short)

-- For every commit, the tag of a fork's build of it is usable and is taken to be on this host only, and
-- the tag of its published image is usable and is not.
pub commit_tags_differ :
    (commit : Text)
    → is_commit commit ≡ true
    → (fork : Text) × (published : Text) × (fork_image_tag commit ≡ ok fork)
      × (commit_image_tag commit ≡ ok published)
      × (is_valid_image_tag fork ≡ true)
      × (is_valid_image_tag published ≡ true)
      × (is_local_image_tag fork ≡ true)
      × (is_local_image_tag published ≡ false)
unfolding fork_image_tag commit_image_tag is_local_image_tag is_valid_image_tag is_commit
    starts_with text_eq
commit_tags_differ commit h = (
  lit "local-" ++ commit,
  lit "sha-" ++ commit,
  rw h refl,
  rw h refl,
  short_enough _ commit (omega arith) h,
  short_enough _ commit (omega arith) h,
  refl,
  refl,
)
