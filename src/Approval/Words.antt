-- ===== src/Approval/Words.antt =====
-- packages/core/src/action-approval.ts, the tests on a tool's name. A pattern `(^|_)(a|b)(_|$)` with
-- flag `i` is a search for a word that stands between underscores or the ends.
pub mod Segments
use rakazo.Common.{
  ℕ, ◌+◌, ◌==◌, leb, Bool, true, false, ◌||◌, ◌&&◌, not, List, [], ◌∷◌, ◌++◌, map, Text, lit,
  is_empty, starts_with, has, text_eq, any, length, drop, if◌then◌else◌,
}

pub ascii_lower : Text → Text
ascii_lower = map (λ c. if leb 65 c && leb c 90 then c + 32 else c)

abbrev ends_word : Text → Bool
ends_word [] = true
ends_word (c ∷ s) = c == b'_'

-- `(a|b)(_|$)` at the start of the text
word_here : List Text → Text → Bool
word_here words s = any (λ w. starts_with s w && ends_word (drop (length w) s)) words

-- `_(a|b)(_|$)` somewhere in the text
word_inside : List Text → Text → Bool
unfolding word_here
word_inside words [] = false
word_inside words (c ∷ s) = (c == b'_' && word_here words s) || word_inside words s

-- `/(^|_)(a|b)(_|$)/.test(s)`
pub has_word : List Text → Text → Bool
unfolding word_inside
has_word words s = word_here words s || word_inside words s

-- `/part/.test(s)` for a literal part
unfoldable pub includes : Text → Text → Bool
unfolding starts_with
includes part [] = is_empty part
includes part (c ∷ s) = starts_with (c ∷ s) part || includes part s

abbrev read_only_words : List Text
read_only_words = lit "get" ∷ lit "list" ∷ lit "search" ∷ lit "find" ∷ lit "read" ∷ []

abbrev mutating_words : List Text
mutating_words =
    lit "accept"
    ∷ lit "add"
    ∷ lit "approve"
    ∷ lit "archive"
    ∷ lit "assign"
    ∷ lit "buy"
    ∷ lit "cancel"
    ∷ lit "charge"
    ∷ lit "checkout"
    ∷ lit "close"
    ∷ lit "commit"
    ∷ lit "copy"
    ∷ lit "create"
    ∷ lit "delete"
    ∷ lit "deploy"
    ∷ lit "disable"
    ∷ lit "enable"
    ∷ lit "execute"
    ∷ lit "forward"
    ∷ lit "grant"
    ∷ lit "invite"
    ∷ lit "link"
    ∷ lit "mark"
    ∷ lit "merge"
    ∷ lit "modify"
    ∷ lit "move"
    ∷ lit "patch"
    ∷ lit "pay"
    ∷ lit "post"
    ∷ lit "publish"
    ∷ lit "purchase"
    ∷ lit "put"
    ∷ lit "register"
    ∷ lit "reject"
    ∷ lit "remove"
    ∷ lit "rename"
    ∷ lit "replace"
    ∷ lit "reply"
    ∷ lit "reset"
    ∷ lit "revoke"
    ∷ lit "run"
    ∷ lit "schedule"
    ∷ lit "send"
    ∷ lit "set"
    ∷ lit "share"
    ∷ lit "start"
    ∷ lit "stop"
    ∷ lit "submit"
    ∷ lit "subscribe"
    ∷ lit "trigger"
    ∷ lit "unassign"
    ∷ lit "unlink"
    ∷ lit "unsubscribe"
    ∷ lit "update"
    ∷ lit "upload"
    ∷ lit "upsert"
    ∷ lit "write"
    ∷ []

is_compound : Text → Bool
unfolding includes
is_compound s = includes (lit "_and_") s || includes (lit "_or_") s || includes (lit "_then_") s

pub connector_tool_requires_approval : Text → Bool
unfolding has_word is_compound ascii_lower
connector_tool_requires_approval tool_name =
    let name = ascii_lower tool_name in
    if has_word mutating_words name
    then true
    else if is_compound name
    then true
    else not (has_word read_only_words name)

abbrev approval_exempt_tools : List Text
approval_exempt_tools =
    lit "computer_observe"
    ∷ lit "computer_act"
    ∷ lit "list_files"
    ∷ lit "read_file"
    ∷ lit "write_file"
    ∷ lit "shell"
    ∷ lit "open_path"
    ∷ lit "launch_app"
    ∷ lit "remember"
    ∷ lit "request_takeover"
    ∷ lit "request_secret"
    ∷ lit "run_subagent"
    ∷ lit "spawn_bot"
    ∷ lit "schedule_create"
    ∷ lit "schedule_list"
    ∷ lit "schedule_cancel"
    ∷ []

abbrev approval_required_builtin_tools : List Text
approval_required_builtin_tools =
    lit "destination.write" ∷ lit "delete_bot" ∷ lit "archive_bot" ∷ []

tool_requires_approval : Text → Bool → Bool
unfolding connector_tool_requires_approval has
tool_requires_approval tool_name via_connector =
    if has approval_exempt_tools tool_name
    then false
    else if has approval_required_builtin_tools tool_name
    then true
    else if via_connector
    then connector_tool_requires_approval tool_name
    else false
