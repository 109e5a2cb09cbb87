-- ===== src/Approval/Rules/Resolution.antt =====
-- packages/core/src/action-approval.ts: resolving the rules by the highest specificity is asking
-- the kinds of rules one after the other.
use rakazo.Common.{
  ℕ, ◌==◌, Bool, true, false, List, [], ◌∷◌, Option, Text, any, select, if◌then◌else◌, ◌≡◌, refl,
  sym, ap, ◌∙◌, inl, inr, arith, All, Bool-cases,
}
use rakazo.Approval.Rules.{
  MatchKind, tool, connector, category, unknown, ActionApprovalRule, kind_specificity,
  rule_specificity, Decision, ask, allow, by_require, by_allow, by_default, ActionApprovalResolved,
  requires, highest_specificity, decide_matching, rule_matches_kind, rule_matches, matching,
  resolve_action_approval, resolve_action_approval_detail,
}

abbrev kind_eq : MatchKind → MatchKind → Bool
kind_eq a b = kind_specificity a == kind_specificity b

abbrev pub of_kind : MatchKind → List ActionApprovalRule → List ActionApprovalRule
of_kind k rules = select (λ r. kind_eq r.match_kind k) rules

-- The rules of one kind, if there are any, decide: one that requires approval is enough to ask.
abbrev ask_kind : List ActionApprovalRule → Decision → Decision
ask_kind [] otherwise = otherwise
ask_kind (r ∷ rs) otherwise = if any (λ w. requires w.effect) (r ∷ rs) then ask else allow

-- First the rules for the tool, then those for its connector, then those for a category.
abbrev pub cascade : List ActionApprovalRule → Decision
cascade rules =
    ask_kind (of_kind tool rules)
      (ask_kind (of_kind connector rules) (ask_kind (of_kind category rules) allow))

abbrev IsKnown : List ActionApprovalRule → Type 0
IsKnown = All (λ r. kind_eq r.match_kind unknown ≡ false)

some_kind : MatchKind → List ActionApprovalRule → Bool
some_kind k rules = any (λ r. kind_eq r.match_kind k) rules

highest-cases :
    (rules : List ActionApprovalRule)
    → highest_specificity rules ≡ (
        if some_kind tool rules
        then 3
        else if some_kind connector rules
        then 2
        else if some_kind category rules
        then 1
        else 0)
unfolding some_kind
highest-cases [] = refl
highest-cases (r ∷ rules) = ground (arith, highest-cases rules)

of_kind_none :
    (k : MatchKind) (rules : List ActionApprovalRule)
    → some_kind k rules ≡ false
    → of_kind k rules ≡ []
unfolding some_kind
of_kind_none k [] h = refl
of_kind_none k (r ∷ rules) h = ground (arith, of_kind_none k rules)

of_kind_some :
    (k : MatchKind) (rules : List ActionApprovalRule) (d : Decision)
    → some_kind k rules ≡ true
    → ask_kind (of_kind k rules) d
      ≡ (if any (λ w. requires w.effect) (of_kind k rules) then ask else allow)
unfolding some_kind
of_kind_some k [] d h = cc
of_kind_some k (r ∷ rules) d h = elim (Bool-cases (kind_eq r.match_kind k)) [
  | inl hit ↦ rw hit refl
  | inr miss ↦ rw miss (of_kind_some k rules d (ground arith))
]

known_has_kind :
    (r : ActionApprovalRule) (rules : List ActionApprovalRule)
    → IsKnown (r ∷ rules)
    → some_kind tool (r ∷ rules) ≡ false
    → some_kind connector (r ∷ rules) ≡ false
    → some_kind category (r ∷ rules) ≡ true
unfolding some_kind
known_has_kind r rules k a b = ground (arith, k.0)

abbrev by_winners : ℕ → List ActionApprovalRule → Decision
by_winners h rules =
    if any (λ w. requires w.effect) (select (λ w. rule_specificity w == h) rules)
    then ask
    else allow

by_winners-cascade :
    (r : ActionApprovalRule) (rs : List ActionApprovalRule)
    → IsKnown (r ∷ rs)
    → by_winners (highest_specificity (r ∷ rs)) (r ∷ rs) ≡ cascade (r ∷ rs)
by_winners-cascade r rs k =
    let rules = r ∷ rs in
    let at = highest-cases rules in
    elim (Bool-cases (some_kind tool rules)) [
      | inl t ↦ ap (λ h. by_winners h rules) (at ∙ rw t refl) ∙ sym (of_kind_some tool rules _ t)
      | inr nt ↦ elim (Bool-cases (some_kind connector rules)) [
        | inl c ↦
            ap (λ h. by_winners h rules) (at ∙ rw nt (rw c refl))
            ∙ sym (of_kind_some connector rules _ c)
            ∙ ap
                (λ l.
                  ask_kind l
                    (ask_kind (of_kind connector rules) (ask_kind (of_kind category rules) allow)))
                (sym (of_kind_none tool rules nt))
        | inr nc ↦
            let g = known_has_kind r rs k nt nc in
            ap (λ h. by_winners h rules) (at ∙ rw nt (rw nc (rw g refl)))
            ∙ sym (of_kind_some category rules allow g)
            ∙ ap (λ l. ask_kind l (ask_kind (of_kind category rules) allow))
                (sym (of_kind_none connector rules nc))
            ∙ ap
                (λ l.
                  ask_kind l
                    (ask_kind (of_kind connector rules) (ask_kind (of_kind category rules) allow)))
                (sym (of_kind_none tool rules nt))
      ]
    ]

decision_of_if :
    (r : ActionApprovalRule) (rs : List ActionApprovalRule)
    → (decide_matching (r ∷ rs)).decision ≡ by_winners (highest_specificity (r ∷ rs)) (r ∷ rs)
unfolding decide_matching
decision_of_if r rs =
    elim (Bool-cases (
      any (λ w. requires w.effect)
        (select (λ w. rule_specificity w == highest_specificity (r ∷ rs)) (r ∷ rs)))) [
          | inl asks ↦ rw asks refl
          | inr passes ↦ rw passes refl
        ]

decide_matching-cascade :
    (rules : List ActionApprovalRule)
    → IsKnown rules
    → (decide_matching rules).decision ≡ cascade rules
unfolding decide_matching
decide_matching-cascade [] k = refl
decide_matching-cascade (r ∷ rs) k = decision_of_if r rs ∙ by_winners-cascade r rs k

module _ (to_lower : Text → Text) where
  match-IsKnown :
      (kind : MatchKind) (value tool_name connector_kind : Text)
      → rule_matches_kind to_lower kind value tool_name connector_kind ≡ true
      → kind_eq kind unknown ≡ false
  unfolding rule_matches_kind
  match-IsKnown tool value tool_name connector_kind h = refl
  match-IsKnown connector value tool_name connector_kind h = refl
  match-IsKnown category value tool_name connector_kind h = refl
  match-IsKnown unknown value tool_name connector_kind h = cc

  select-IsKnown :
      (tool_name connector_kind : Text) (rules : List ActionApprovalRule)
      → IsKnown (select (rule_matches to_lower tool_name connector_kind) rules)
  unfolding rule_matches
  select-IsKnown tool_name connector_kind [] = tt
  select-IsKnown tool_name connector_kind (r ∷ rules) =
      elim (Bool-cases (rule_matches to_lower tool_name connector_kind r)) [
        | inl hit ↦ rw hit (
          match-IsKnown r.match_kind r.match_value tool_name connector_kind hit,
          select-IsKnown tool_name connector_kind rules,
        )
        | inr miss ↦ rw miss (select-IsKnown tool_name connector_kind rules)
      ]

  -- The decision by the highest specificity among the matching rules is the cascade: rules for the
  -- tool decide alone if there are any, else those for the connector, else those for a category, and
  -- with no rule at all the call is allowed; among rules of one kind, one that requires approval is
  -- enough.
  pub resolve-cascade :
      (tool_name : Text) (connector_kind : Option Text) (rules : List ActionApprovalRule)
      → resolve_action_approval to_lower tool_name connector_kind rules
        ≡ cascade (matching to_lower tool_name connector_kind rules)
  unfolding resolve_action_approval matching
  resolve-cascade tool_name connector_kind rules =
      decide_matching-cascade _ (select-IsKnown tool_name _ rules)

abbrev pub is_nil : List ActionApprovalRule → Bool
is_nil [] = true
is_nil (r ∷ rs) = false

-- The three shapes of a resolution: asked by a rule, allowed by rules, or no rule matches.
pub data IsResolution (r : ActionApprovalResolved) : Type 0 where
  asked :
      r.decision ≡ ask → r.source ≡ by_require → is_nil r.matching_rules ≡ false → IsResolution r
  allowed :
      r.decision ≡ allow → r.source ≡ by_allow → is_nil r.matching_rules ≡ false → IsResolution r
  default :
      r.decision ≡ allow → r.source ≡ by_default → is_nil r.matching_rules ≡ true → IsResolution r

decide_matching-IsResolution :
    (rules : List ActionApprovalRule) → IsResolution (decide_matching rules)
unfolding decide_matching
decide_matching-IsResolution [] = default refl refl refl
decide_matching-IsResolution (r ∷ rs) =
    elim (Bool-cases (
      any (λ w. requires w.effect)
        (select (λ w. rule_specificity w == highest_specificity (r ∷ rs)) (r ∷ rs)))) [
          | inl asks ↦ rw asks (asked refl refl refl)
          | inr passes ↦ rw passes (allowed refl refl refl)
        ]

pub resolve-IsResolution :
    (to_lower : Text → Text) (tool_name : Text) (connector_kind : Option Text)
    (rules : List ActionApprovalRule)
    → IsResolution (resolve_action_approval_detail to_lower tool_name connector_kind rules)
unfolding resolve_action_approval_detail
resolve-IsResolution to_lower tool_name connector_kind rules =
    decide_matching-IsResolution (matching to_lower tool_name connector_kind rules)
