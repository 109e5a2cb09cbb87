-- ===== src/Effects/Dispatch/Histories/Answered.antt =====
-- A call that the user allows runs at the next attempt, and what it returned is what every later attempt
-- returns.
use rakazo.Common.{
  true, false, [], ◌∷◌, Option, some, Text, text_eq_refl, if◌then◌else◌, get, put, get-put, ◌≡◌,
  refl, sym, ap, subst, ◌∙◌,
}
use rakazo.Effects.{
  EffectStatus, intended, approved, executing, completed, EffectResult, Effect, Store, status_eq,
  update_row, update_many, claim_approved_effect, complete_external_effect,
  resolve_duplicate_effect_gate, gate_of,
}
use rakazo.Effects.Dispatch.{
  is_request_secret, Call, return_result, from_approved, claim_or_return, runs, returns,
  duplicate_action, recorded_action, record_effect, record_row, begin_call, claimed, perform,
}
use rakazo.Effects.Dispatch.Histories.{
  Answer, is_allowed, is_refused, answer_approval, answered, World, begins, goes_on, answers,
  completes, nth_pending, go_on_with, begun, step, history,
}

module _ {V : Type 0} where
  abbrev row : EffectStatus → Text → Option (EffectResult V) → Effect V
  row status kind result = record { status = status; kind = kind; result = result }

  get-put_same : (k : Text) (e : Effect V) (s : Store V) → get k (put k e s) ≡ some e
  get-put_same k e s = get-put k k e s ∙ rw (text_eq_refl k)

  allowed_row :
      (k kind : Text) (result : Option (EffectResult V)) (a : Answer) (s : Store V)
      → get k s ≡ some (row intended kind result)
      → is_refused a ≡ false
      → is_allowed a ≡ true
      → answer_approval k a s ≡ put k (row approved kind result) s
  unfolding answer_approval answered status_eq
  allowed_row k kind result a s h n y = rw (h, n, y)

  begin_approved :
      (call : Call) (kind : Text) (result : Option (EffectResult V)) (s : Store V)
      → get call.key s ≡ some (row approved kind result)
      → call.is_read_only ≡ false
      → begin_call call s ≡ (claim_or_return from_approved, s)
  unfolding begin_call record_effect record_row recorded_action duplicate_action
      resolve_duplicate_effect_gate gate_of
  begin_approved call kind result s h w = simp (h, w, if◌then◌else◌)

  claim_approved :
      (k kind : Text) (result : Option (EffectResult V)) (s : Store V)
      → get k s ≡ some (row approved kind result)
      → claim_approved_effect k s ≡ (true, put k (row executing kind result) s)
  unfolding claim_approved_effect update_many update_row status_eq
  claim_approved k kind result s h = simp (h, if◌then◌else◌)

  perform_approved :
      (k name kind : Text) (result : Option (EffectResult V)) (s : Store V)
      → get k s ≡ some (row approved kind result)
      → perform k name (claim_or_return from_approved) s
        ≡ (put k (row executing kind result) s, runs true)
  unfolding perform claimed
  perform_approved k name kind result s h = ap (claimed k name) (claim_approved k kind result s h)

  complete_executing :
      (k kind : Text) (result : Option (EffectResult V)) (r : EffectResult V) (s : Store V)
      → get k s ≡ some (row executing kind result)
      → complete_external_effect k executing r s ≡ (true, put k (row completed kind (some r)) s)
  unfolding complete_external_effect update_many update_row status_eq
  complete_executing k kind result r s h = simp (h, if◌then◌else◌)

  begin_completed :
      (call : Call) (kind : Text) (r : EffectResult V) (s : Store V)
      → get call.key s ≡ some (row completed kind (some r))
      → call.is_read_only ≡ false
      → is_request_secret call.name ≡ false
      → begin_call call s ≡ (return_result r, s)
  unfolding begin_call record_effect record_row recorded_action duplicate_action
      resolve_duplicate_effect_gate gate_of
  begin_completed call kind r s h w n = simp (h, w, n, if◌then◌else◌)

  -- The world after an answer, an attempt at the call, and the storing of its result.
  abbrev pub answered_and_run : Call → Answer → EffectResult V → World V → World V
  answered_and_run call a r =
      history (answers call.key a ∷ begins call ∷ goes_on 0 ∷ completes call.key true r ∷ [])

  -- When the effect of a call waits for the user and one allows it who may, the next attempt at the
  -- call runs its tool; and once the result is stored, whoever attempts the call gets that result and
  -- its tool does not run. The calls are neither read-only nor `request_secret`.
  pub allowed_call_runs :
      (call again : Call) (kind : Text) (result : Option (EffectResult V)) (a : Answer)
      (r : EffectResult V) (w : World V)
      → get call.key w.store ≡ some (row intended kind result)
      → is_refused a ≡ false
      → is_allowed a ≡ true
      → call.is_read_only ≡ false
      → again.key ≡ call.key
      → again.is_read_only ≡ false
      → is_request_secret again.name ≡ false
      → let after = answered_and_run call a r w in
        let (action, store) = begin_call again after.store in
        (after.executed ≡ call.key ∷ w.executed)
        × ((perform again.key again.name action store).1 ≡ returns r)
  unfolding history step begun go_on_with nth_pending perform
  allowed_call_runs call again kind result a r w h n y wr same wr2 ns =
      let k = call.key in
      let s1 = put k (row approved kind result) w.store in
      let s2 = put k (row executing kind result) s1 in
      let s3 = put k (row completed kind (some r)) s2 in
      let e1 = allowed_row k kind result a w.store h n y in
      let e2 = begin_approved call kind result s1 (get-put_same k _ w.store) wr in
      let e3 = perform_approved k call.name kind result s1 (get-put_same k _ w.store) in
      let e4 = complete_executing k kind result r s2 (get-put_same k _ s1) in
      let found =
        subst (λ j. get j s3 ≡ some (row completed kind (some r))) (sym same)
          (get-put_same k _ s2) in
      let e5 = begin_completed again kind r s3 found wr2 ns in
      simp (e1, e2, e3, e4, e5) (refl, refl)
