-- ===== src/Approval/Gate.antt =====
-- packages/core/src/action-approval.ts, `planActionGate`, `applyJudgeDecision` and the tests on ask
-- blocks, with the block that packages/adapters/src/approval-ask.ts makes for a call.
use rakazo.Common.{
  Bool, true, false, ◌||◌, ◌&&◌, not, List, [], ◌∷◌, Option, none, some, Text, lit, has, text_eq,
  truthy, all, map, if◌then◌else◌, ◌≡◌, ◌≢◌, refl, arith,
}
use rakazo.Approval.Rules.{
  ActionApprovalRule, Decision, ask, allow, ActionApprovalSource, by_allow, by_default,
  ActionApprovalResolved, resolve_action_approval_detail,
}
use rakazo.Approval.Rules.Resolution.{
  is_nil, IsResolution, asked, allowed, default, resolve-IsResolution,
}

pub data GatePlan : Type 0 where
  plan_ask plan_allow plan_judge : GatePlan

pub data JudgeDecision : Type 0 where
  judge_pass judge_ask judge_error : JudgeDecision

abbrev is_ask : Decision → Bool
is_ask ask = true
is_ask allow = false

abbrev is_allow_source : ActionApprovalSource → Bool
is_allow_source by_allow = true
is_allow_source _ = false

abbrev is_default_source : ActionApprovalSource → Bool
is_default_source by_default = true
is_default_source _ = false

plan_action_gate : ActionApprovalResolved → Bool → Bool → Bool → GatePlan
plan_action_gate resolved consequential auto_review_enabled checker_configured =
    if is_ask resolved.decision
    then plan_ask
    else if is_allow_source resolved.source
    then plan_allow
    else if consequential
        && auto_review_enabled
        && checker_configured
        && is_default_source resolved.source
    then plan_judge
    else plan_allow

apply_judge_decision : JudgeDecision → Bool → Decision
apply_judge_decision judge_pass consequential = allow
apply_judge_decision judge_ask consequential = ask
apply_judge_decision judge_error consequential = if consequential then ask else allow

-- What becomes of a call: the plan, and the judge's word where the plan asks for it.
pub gate : ActionApprovalResolved → Bool → Bool → Bool → JudgeDecision → Decision
unfolding plan_action_gate
gate resolved consequential auto_review_enabled checker_configured judge =
    elim (plan_action_gate resolved consequential auto_review_enabled checker_configured) [
      | plan_ask ↦ ask
      | plan_allow ↦ allow
      | plan_judge ↦ apply_judge_decision judge consequential
    ]

-- A judge that fails to answer counts as one that asks.
abbrev pub judged : JudgeDecision → Decision
judged judge_pass = allow
judged _ = ask

abbrev pub heard : ActionApprovalResolved → Bool → Bool → Bool → Bool
heard r consequential auto_review_enabled checker_configured =
    consequential && auto_review_enabled && checker_configured && is_nil r.matching_rules

gate-IsResolution :
    (r : ActionApprovalResolved) (consequential auto_review_enabled checker_configured : Bool)
    (judge : JudgeDecision)
    → IsResolution r
    → gate r consequential auto_review_enabled checker_configured judge ≡ (
        if heard r consequential auto_review_enabled checker_configured
        then judged judge
        else r.decision)
unfolding gate apply_judge_decision
gate-IsResolution r c a k judge (asked d s n) = ground arith
gate-IsResolution r c a k judge (allowed d s n) = ground arith
gate-IsResolution r c a k judge (default d s n) = ground arith

-- The judge is heard on a consequential call that no rule matches, with Auto Review on and a checker
-- configured, and on no other; there anything but a pass asks, an error of the judge included. Every
-- other call gets what the rules say.
pub gate_decides :
    (to_lower : Text → Text) (tool_name : Text) (connector_kind : Option Text)
    (rules : List ActionApprovalRule) (consequential auto_review_enabled checker_configured : Bool)
    (judge : JudgeDecision)
    → let r = resolve_action_approval_detail to_lower tool_name connector_kind rules in
      gate r consequential auto_review_enabled checker_configured judge ≡ (
        if heard r consequential auto_review_enabled checker_configured
        then judged judge
        else r.decision)
gate_decides to_lower tool_name connector_kind rules c a k judge =
    gate-IsResolution _ c a k judge (resolve-IsResolution to_lower tool_name connector_kind rules)

-- The fields of a message block that tell ask blocks apart; an action is its id and its label.
pub record AskBlock : Type 0 where
  pub kind : Text
  pub input : Option Text
  pub approval_effect_id : Option Text
  pub actions : Option (List (Text × Text))

abbrev is_secret_input : Option Text → Bool
is_secret_input none = false
is_secret_input (some s) = text_eq s (lit "secret")

is_secret_ask_block : AskBlock → Bool
is_secret_ask_block b =
    text_eq b.kind (lit "ask") && is_secret_input b.input && not (truthy b.approval_effect_id)

abbrev action_ids : Option (List (Text × Text)) → List Text
action_ids none = []
action_ids (some actions) = map (λ a. a.0) actions

abbrev no_actions : Option (List (Text × Text)) → Bool
no_actions none = true
no_actions (some []) = true
no_actions (some (a ∷ rest)) = false

abbrev is_choice : Text → Bool
is_choice id = text_eq id (lit "allow") || text_eq id (lit "always") || text_eq id (lit "deny")

is_approval_ask_block : AskBlock → Bool
is_approval_ask_block b =
    if not (text_eq b.kind (lit "ask")) || not (truthy b.approval_effect_id) || no_actions b.actions
    then false
    else has (action_ids b.actions) (lit "allow")
      && has (action_ids b.actions) (lit "deny")
      && all is_choice (action_ids b.actions)

-- `buildApprovalAskBlock`, without the text that the user reads.
build_approval_ask_block : Text → AskBlock
build_approval_ask_block effect_id = record {
  kind = lit "ask";
  input = none;
  approval_effect_id = some effect_id;
  actions = some (
      (lit "allow", lit "Allow once")
      ∷ (lit "always", lit "Always allow this tool")
      ∷ (lit "deny", lit "Deny")
      ∷ []);
}

-- The block made for a call with an effect id that is not empty is an approval block, and no block
-- is an approval block and a request for a secret at once.
ask_blocks_told_apart :
    (effect_id : Text) (b : AskBlock)
    → effect_id ≢ []
    → (is_approval_ask_block (build_approval_ask_block effect_id) ≡ true)
      × ((is_approval_ask_block b && is_secret_ask_block b) ≡ false)
unfolding is_approval_ask_block is_secret_ask_block build_approval_ask_block text_eq has
ask_blocks_told_apart [] b h = absurd (h refl)
ask_blocks_told_apart (c ∷ id) b h = (refl, ground arith)
