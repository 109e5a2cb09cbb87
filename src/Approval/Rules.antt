-- ===== src/Approval/Rules.antt =====
-- packages/core/src/action-approval.ts, the user's rules and how they are resolved.
pub mod Resolution
use rakazo.Common.{
  ℕ, ◌==◌, ltb, Bool, true, false, ◌||◌, ◌&&◌, not, List, [], ◌∷◌, ◌++◌, map, Option, none, some,
  Text, lit, is_empty, starts_with, has, text_eq, any, select, length, drop, truthy, or_empty,
  if◌then◌else◌,
}
use rakazo.Approval.Words.{ascii_lower, includes, connector_tool_requires_approval}

-- A `matchKind` that is none of the three is `unknown`.
pub data MatchKind : Type 0 where
  tool connector category unknown : MatchKind

pub data Effect : Type 0 where
  require_approval always_allow : Effect

pub record ActionApprovalRule : Type 0 where
  pub effect : Effect
  pub match_kind : MatchKind
  pub match_value : Text

abbrev email_connector_slugs : List Text
email_connector_slugs = lit "gmail" ∷ lit "outlook" ∷ lit "microsoft_outlook" ∷ []

abbrev purchase_connector_slugs : List Text
purchase_connector_slugs = lit "stripe" ∷ lit "shopify" ∷ lit "paypal" ∷ lit "square" ∷ []

-- `/part.*rest/.test(s)` on one line: `.` stops at a line end.
is_line_end : ℕ → Bool
is_line_end c = c == 10 || c == 13 || c == 0x2028 || c == 0x2029

rest_of_line : Text → Text
unfolding is_line_end
rest_of_line [] = []
rest_of_line (c ∷ s) = if is_line_end c then [] else c ∷ rest_of_line s

follows : Text → Text → Text → Bool
unfolding rest_of_line includes
follows part rest [] = false
follows part rest (c ∷ s) =
    (starts_with (c ∷ s) part && includes rest (rest_of_line (drop (length part) (c ∷ s))))
    || follows part rest s

-- `/send.*mail|gmail_send|outlook_send/i`
is_mail_tool : Text → Bool
unfolding follows
is_mail_tool name =
    follows (lit "send") (lit "mail") name
    || includes (lit "gmail_send") name
    || includes (lit "outlook_send") name

-- `/purchase|pay_|charge|checkout|buy_/i`
is_purchase_tool : Text → Bool
unfolding includes
is_purchase_tool name =
    includes (lit "purchase") name
    || includes (lit "pay_") name
    || includes (lit "charge") name
    || includes (lit "checkout") name
    || includes (lit "buy_") name

-- `name.split("_")[0]`
first_segment : Text → Text
first_segment [] = []
first_segment (c ∷ s) = if c == b'_' then [] else c ∷ first_segment s

-- The head of `texts.sort((a, b) => b.length - a.length)`: the first of the longest.
longest_of : Text → List Text → Text
longest_of best [] = best
longest_of best (t ∷ ts) = longest_of (if ltb (length best) (length t) then t else best) ts

longest : List Text → Option Text
unfolding longest_of
longest [] = none
longest (t ∷ ts) = some (longest_of t ts)

module _ (to_lower : Text → Text) where
  is_kind_of : Text → Text → Bool
  is_kind_of normalized_tool kind =
      text_eq normalized_tool kind || starts_with normalized_tool (kind ++ b'_' ∷ [])

  pub connector_kind_from_tool_name : Text → List Text → Text
  unfolding is_kind_of longest first_segment
  connector_kind_from_tool_name tool_name connector_kinds =
      let matched =
        longest (select (is_kind_of (to_lower tool_name)) (map to_lower connector_kinds)) in
      if truthy matched then or_empty matched else to_lower (first_segment tool_name)

  category_matches : Text → Text → Text → Bool
  unfolding is_mail_tool is_purchase_tool
  category_matches value tool_name connector_kind =
      let normalized = to_lower value in
      let consequential = connector_tool_requires_approval tool_name in
      if text_eq normalized (lit "email")
      then (if has email_connector_slugs (to_lower connector_kind)
          then consequential
          else consequential && is_mail_tool (ascii_lower tool_name))
      else if text_eq normalized (lit "purchase")
      then (if has purchase_connector_slugs (to_lower connector_kind)
          then consequential
          else consequential && is_purchase_tool (ascii_lower tool_name))
      else false

  pub rule_matches_kind : MatchKind → Text → Text → Text → Bool
  unfolding category_matches
  rule_matches_kind tool value tool_name connector_kind =
      text_eq (to_lower tool_name) (to_lower value)
  rule_matches_kind connector value tool_name connector_kind =
      text_eq (to_lower connector_kind) (to_lower value)
  rule_matches_kind category value tool_name connector_kind =
      category_matches value tool_name connector_kind
  rule_matches_kind unknown value tool_name connector_kind = false

  pub rule_matches : Text → Text → ActionApprovalRule → Bool
  unfolding rule_matches_kind
  rule_matches tool_name connector_kind rule =
      rule_matches_kind rule.match_kind rule.match_value tool_name connector_kind

abbrev pub kind_specificity : MatchKind → ℕ
kind_specificity tool = 3
kind_specificity connector = 2
kind_specificity category = 1
kind_specificity unknown = 0

abbrev pub rule_specificity : ActionApprovalRule → ℕ
rule_specificity rule = kind_specificity rule.match_kind

pub data Decision : Type 0 where
  ask allow : Decision

pub data ActionApprovalSource : Type 0 where
  by_require by_allow by_default : ActionApprovalSource

pub record ActionApprovalResolved : Type 0 where
  pub decision : Decision
  pub source : ActionApprovalSource
  pub matching_rules : List ActionApprovalRule

abbrev pub requires : Effect → Bool
requires require_approval = true
requires always_allow = false

-- `Math.max(...matchingRules.map(ruleSpecificity))`, of a list that is not empty
abbrev pub highest_specificity : List ActionApprovalRule → ℕ
highest_specificity [] = 0
highest_specificity (r ∷ rs) =
    let h = highest_specificity rs in if ltb h (rule_specificity r) then rule_specificity r else h

-- What is decided from the rules that match.
pub decide_matching : List ActionApprovalRule → ActionApprovalResolved
decide_matching [] = record { decision = allow; source = by_default; matching_rules = [] }
decide_matching (r ∷ rs) =
    let matching = r ∷ rs in
    let winners = select (λ w. rule_specificity w == highest_specificity matching) matching in
    if any (λ w. requires w.effect) winners
    then record { decision = ask; source = by_require; matching_rules = matching }
    else record { decision = allow; source = by_allow; matching_rules = matching }

module _ (to_lower : Text → Text) where
  abbrev kind_or_inferred : Text → Option Text → Text
  kind_or_inferred tool_name (some kind) = kind
  kind_or_inferred tool_name none = connector_kind_from_tool_name to_lower tool_name []

  pub matching : Text → Option Text → List ActionApprovalRule → List ActionApprovalRule
  matching tool_name connector_kind rules =
      select (rule_matches to_lower tool_name (kind_or_inferred tool_name connector_kind)) rules

  pub resolve_action_approval_detail :
      Text → Option Text → List ActionApprovalRule → ActionApprovalResolved
  unfolding decide_matching matching
  resolve_action_approval_detail tool_name connector_kind rules =
      decide_matching (matching tool_name connector_kind rules)

  pub resolve_action_approval : Text → Option Text → List ActionApprovalRule → Decision
  unfolding resolve_action_approval_detail
  resolve_action_approval tool_name connector_kind rules =
      (resolve_action_approval_detail tool_name connector_kind rules).decision
