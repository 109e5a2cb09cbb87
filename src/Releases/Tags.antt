-- ===== src/Releases/Tags.antt =====
-- packages/core/src/compose-update.ts: which tags and project names are usable, and the tags that are
-- made of a commit. The regular expressions are tests on the code units.
pub mod Local
mod Tests
use rakazo.Common.{
  ℕ, ◌==◌, ltb, leb, Bool, true, false, ◌&&◌, ◌||◌, not, List, [], ◌∷◌, ◌++◌, Option, none, some,
  Text, lit, text_eq, is_empty, starts_with, trim, or_empty, all, length, if◌then◌else◌, Result, ok,
  err,
}

abbrev is_lower_or_digit : ℕ → Bool
is_lower_or_digit c = leb 97 c && leb c 122 || leb 48 c && leb c 57

-- `[A-Za-z0-9]`
abbrev is_alphanumeric : ℕ → Bool
is_alphanumeric c = is_lower_or_digit c || leb 65 c && leb c 90

-- `[A-Za-z0-9._-]`
abbrev pub is_tag_unit : ℕ → Bool
is_tag_unit c = is_alphanumeric c || c == 46 || c == 95 || c == 45

-- `/^[A-Za-z0-9_][A-Za-z0-9._-]{0,127}$/`
pub is_valid_image_tag : Text → Bool
is_valid_image_tag [] = false
is_valid_image_tag (c ∷ rest) =
    (is_alphanumeric c || c == 95) && all is_tag_unit rest && leb (length rest) 127

-- `/^[a-zA-Z0-9][a-zA-Z0-9_-]{0,63}$/`
is_valid_compose_project_name : Text → Bool
is_valid_compose_project_name [] = false
is_valid_compose_project_name (c ∷ rest) =
    is_alphanumeric c
    && all (λ d. is_alphanumeric d || d == 95 || d == 45) rest
    && leb (length rest) 63

abbrev local_image_tag : Text
local_image_tag = lit "local"

abbrev default_compose_project_name : Text
default_compose_project_name = lit "rakazo-prod"

abbrev trimmed_value : Option Text → Text
trimmed_value none = []
trimmed_value (some value) = trim value

-- `a || b`
abbrev or_text : Text → Text → Text
or_text [] b = b
or_text (c ∷ s) b = c ∷ s

pub data TagError : Type 0 where
  unusable_project_name : Text → TagError
  unresolved_commit : TagError

-- The environment is a function from names.
resolve_compose_project_name : (Text → Option Text) → Result TagError Text
unfolding is_valid_compose_project_name
resolve_compose_project_name env =
    let injected = trimmed_value (env (lit "COMPOSE_PROJECT_NAME")) in
    let override = trimmed_value (env (lit "RAKAZO_COMPOSE_PROJECT_NAME")) in
    let candidate = or_text injected override in
    if is_empty candidate
    then ok default_compose_project_name
    else if not (is_valid_compose_project_name candidate)
    then err (unusable_project_name candidate)
    else ok candidate

-- `[0-9a-f]`
abbrev pub is_hex : ℕ → Bool
is_hex c = leb 48 c && leb c 57 || leb 97 c && leb c 102

-- `/^[0-9a-f]{40,64}$/`
pub is_commit : Text → Bool
is_commit commit = all is_hex commit && leb 40 (length commit) && leb (length commit) 64

pub fork_image_tag : Text → Result TagError Text
unfolding is_commit
fork_image_tag commit =
    if not (is_commit commit) then err unresolved_commit else ok (lit "local-" ++ commit)

pub commit_image_tag : Text → Result TagError Text
unfolding is_commit
commit_image_tag commit =
    if not (is_commit commit) then err unresolved_commit else ok (lit "sha-" ++ commit)

pub is_local_image_tag : Text → Bool
is_local_image_tag tag = text_eq tag local_image_tag || starts_with tag (lit "local-")
