-- ===== src/Approval/Tests.antt =====
-- Approval rules at concrete inputs.
use rakazo.Common.{◌≡◌, refl, List, [], ◌∷◌, none, Text, lit, any, has}
use rakazo.Approval.Words.{has_word}
use rakazo.Approval.Words.Segments.{head_segment, later_segments, has_word-segments}
use rakazo.Approval.Rules.{
  ActionApprovalRule, MatchKind, require_approval, always_allow, matching, resolve_action_approval,
}
use rakazo.Approval.Rules.Resolution.{cascade, resolve-cascade}

abbrev words : List Text
words = lit "send" ∷ lit "delete" ∷ []

has_word-segments_example :
    has_word words (lit "gmail_send_mail")
    ≡ any
        (has words)
        (head_segment (lit "gmail_send_mail") ∷ later_segments (lit "gmail_send_mail"))
has_word-segments_example =
    has_word-segments words (lit "gmail_send_mail")
      ((refl, (refl, (refl, (refl, tt)))), ((refl, (refl, (refl, (refl, (refl, (refl, tt)))))), tt))

abbrev same : Text → Text
same s = s

abbrev rules : List ActionApprovalRule
rules =
    record { effect = always_allow; match_kind = MatchKind.connector; match_value = lit "gmail" }
    ∷ record {
      effect = require_approval;
      match_kind = MatchKind.tool;
      match_value = lit "gmail_send";
    }
    ∷ []

resolve-cascade_example :
    resolve_action_approval same (lit "gmail_send") none rules
    ≡ cascade (matching same (lit "gmail_send") none rules)
resolve-cascade_example = resolve-cascade same (lit "gmail_send") none rules
