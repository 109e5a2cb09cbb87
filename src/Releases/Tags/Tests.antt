-- ===== src/Releases/Tags/Tests.antt =====
-- The tags of a commit of forty digits.
use rakazo.Common.{true, false, Text, lit, ok, ◌≡◌, refl}
use rakazo.Releases.Tags.{
  is_commit, is_valid_image_tag, fork_image_tag, commit_image_tag, is_local_image_tag,
}
use rakazo.Releases.Tags.Local.{commit_tags_differ}

abbrev test_commit : Text
test_commit = lit "0123456789abcdef0123456789abcdef01234567"

commit_tags_differ_example :
    (fork : Text) × (published : Text) × (fork_image_tag test_commit ≡ ok fork)
    × (commit_image_tag test_commit ≡ ok published)
    × (is_valid_image_tag fork ≡ true)
    × (is_valid_image_tag published ≡ true)
    × (is_local_image_tag fork ≡ true)
    × (is_local_image_tag published ≡ false)
unfolding is_commit
commit_tags_differ_example = commit_tags_differ test_commit refl
