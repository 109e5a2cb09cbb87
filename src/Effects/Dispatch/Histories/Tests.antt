-- ===== src/Effects/Dispatch/Histories/Tests.antt =====
-- Two workers at one call that asks, and the answer to it.
use rakazo.Common.{
  ℕ, ◌≤◌, true, false, List, [], ◌∷◌, none, some, lit, get, put, text_eq, ◌≡◌, refl,
}
use rakazo.Effects.{intended, uncertain, value, uncertain_effect_result, Effect}
use rakazo.Effects.Dispatch.{Call, begin_call, perform, returns}
use rakazo.Effects.Dispatch.Histories.{
  Answer, World, fresh_world, Move, begins, goes_on, answers, completes, runs_of, history,
}
use rakazo.Effects.{
  resolve_duplicate_effect_gate, gate_of, claim_approved_effect, settle_uncertain_effect, settled,
  complete_external_effect, update_many, update_row, status_eq,
}
use rakazo.Effects.Dispatch.{
  record_effect, record_row, recorded_action, first_action, duplicate_action, claimed, lost_claim,
  lost_by,
}
use rakazo.Effects.Dispatch.Histories.{
  step, begun, go_on_with, nth_pending, without_nth, answer_approval, answered,
}
use rakazo.Effects.Dispatch.Histories.Once.{executed_once}
use rakazo.Effects.Dispatch.Histories.Asked.{not_run_before_allowed}
use rakazo.Effects.Dispatch.Histories.Answered.{answered_and_run, allowed_call_runs}

abbrev pay_call : Call
pay_call = record {
  key = lit "k1";
  name = lit "pay";
  is_read_only = false;
  needs_approval = true;
  bypass_approval = false;
  waiting_input = true;
  secret_created_at = none;
  effect_updated_at = 0;
}

abbrev allow_answer : Answer
allow_answer = record {
  answer = lit "allow";
  actions = lit "allow" ∷ lit "deny" ∷ [];
  by_owner = false;
  run_waits = true;
}

abbrev deny_answer : Answer
deny_answer = record allow_answer { answer = lit "deny" }

-- Both workers find the call approved and go on one after the other.
abbrev two_workers : List (Move ℕ)
two_workers =
    begins pay_call
    ∷ goes_on 0
    ∷ answers (lit "k1") allow_answer
    ∷ begins pay_call
    ∷ begins pay_call
    ∷ goes_on 0
    ∷ goes_on 0
    ∷ completes (lit "k1") true (value 7)
    ∷ []

abbrev not_allowed : List (Move ℕ)
not_allowed =
    begins pay_call ∷ answers (lit "k1") deny_answer ∷ begins pay_call ∷ goes_on 0 ∷ goes_on 0 ∷ []

executed_once_example : runs_of (lit "k1") (history two_workers (fresh_world [])).executed ≤ 1
unfolding text_eq
executed_once_example = executed_once (lit "k1") two_workers [] (
  λ h. (refl, refl, refl),
  (tt, (tt, (λ h. (refl, refl, refl), (λ h. (refl, refl, refl), (tt, (tt, (tt, tt))))))),
)

not_run_before_allowed_example :
    runs_of (lit "k1") (history not_allowed (fresh_world [])).executed ≡ 0
unfolding get text_eq
not_run_before_allowed_example =
    not_run_before_allowed (lit "k1") not_allowed [] refl
      (λ h. (refl, refl, refl), (λ h. refl, (λ h. (refl, refl, refl), (tt, (tt, tt)))))

abbrev asked_effect : Effect ℕ
asked_effect = record { status = intended; kind = lit "pay"; result = none }

abbrev asked_world : World ℕ
asked_world = fresh_world ((lit "k1", asked_effect) ∷ [])

allowed_call_runs_example :
    let after = answered_and_run pay_call allow_answer (value 7) asked_world in
    let (action, store) = begin_call pay_call after.store in
    (after.executed ≡ lit "k1" ∷ [])
    × ((perform (lit "k1") (lit "pay") action store).1 ≡ returns (value 7))
unfolding get text_eq
allowed_call_runs_example =
    allowed_call_runs pay_call pay_call (lit "pay") none allow_answer (value 7) asked_world refl
      refl refl refl refl refl refl

-- The run goes on, the worker that lost the claim learns that the outcome is not known, and the result
-- that the other stores is then refused.
two_workers_run :
    (history two_workers (fresh_world [])).store
    ≡ (
      lit "k1",
      record {
        status = uncertain;
        kind = lit "pay";
        result = some (uncertain_effect_result (lit "pay"));
      },
    )
      ∷ []
unfolding history step begun go_on_with nth_pending without_nth begin_call perform answer_approval
    answered record_effect record_row recorded_action first_action duplicate_action claimed
    lost_claim lost_by resolve_duplicate_effect_gate gate_of claim_approved_effect
    settle_uncertain_effect settled complete_external_effect update_many update_row status_eq get
    put text_eq
two_workers_run = refl
