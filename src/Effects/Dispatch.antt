-- ===== src/Effects/Dispatch.antt =====
-- packages/adapters/src/executor.ts, `applyTool` between the recording of the effect and the tool's own
-- code: `recordEffect`, the gate of a repeated call, `claimOrReturn`, and what comes of them. The
-- decision is made on the row as `recordEffect` read it; the claim is made later, when another worker
-- may have changed the row, so they are two definitions. Of the secrets of a run (run-secret.ts) a call
-- carries when the stored one was created.
use rakazo.Common.{
  ℕ, Bool, true, false, not, ◌&&◌, List, Option, none, some, Text, lit, text_eq, leb, if◌then◌else◌,
  get, put,
}
use rakazo.Effects.{
  EffectStatus, intended, approved, executing, EffectResult, Effect, Store, DuplicateEffectGate,
  execute, return, paused, unclear, resolve_duplicate_effect_gate, claim_approved_effect,
  claim_intended_effect, settle_uncertain_effect,
}
-- A call of a tool as the gate sees it. `needs_approval` and `bypass_approval` come from the plan,
-- `waiting_input` is the status of the run when the gate asks for it.
pub mod Histories

pub record Call : Type 0 where
  pub key : Text
  pub name : Text
  pub is_read_only : Bool
  pub needs_approval : Bool
  pub bypass_approval : Bool
  pub waiting_input : Bool
  pub secret_created_at : Option ℕ
  pub effect_updated_at : ℕ

pub record Recorded (V : Type 0) : Type 0 where
  pub duplicate : Bool
  pub effect : Effect V

pub data ClaimFrom : Type 0 where
  from_approved from_intended : ClaimFrom

-- What the gate has decided to do next.
pub data Action (V : Type 0) : Type 0 where
  return_result : EffectResult V → Action V
  drop_secret : EffectResult V → Action V
  pause_for_secret : Action V
  pause_for_approval : Action V
  request_approval : Action V
  settle : Text → Action V
  claim_or_return : ClaimFrom → Action V
  go_on : Action V

-- What a call comes to: the tool's code runs, with the effect claimed or not, or it does not.
pub data Outcome (V : Type 0) : Type 0 where
  runs : Bool → Outcome V
  returns : EffectResult V → Outcome V
  drops_secret : EffectResult V → Outcome V
  waits_for_secret : Outcome V
  waits_for_approval : Outcome V
  asks_for_approval : Outcome V
  throws_uncertain : Text → Outcome V

-- `resolveCompletedSecretLeftover`: whether to consume the replacement
abbrev pub is_replacement : ℕ → ℕ → Bool
is_replacement secret_created_at effect_updated_at = not (leb secret_created_at effect_updated_at)

abbrev pub is_request_secret : Text → Bool
is_request_secret name = text_eq name (lit "request_secret")

module _ {V : Type 0} where
  pub record_row : Option (Effect V) → Text → Text → Store V → Recorded V × Store V
  record_row (some existing) key kind store =
      (record { duplicate = true; effect = existing }, store)
  record_row none key kind store =
      let effect : Effect V = record { status = intended; kind = kind; result = none } in
      (record { duplicate = false; effect = effect }, put key effect store)

  pub record_effect : Text → Text → Store V → Recorded V × Store V
  unfolding record_row
  record_effect key kind store = record_row (get key store) key kind store

  -- A settled `request_secret`: only a secret that is newer than the result is consumed.
  secret_action : Option ℕ → ℕ → EffectResult V → Action V
  secret_action none updated_at r = return_result r
  secret_action (some created_at) updated_at r =
      if is_replacement created_at updated_at then go_on else drop_secret r

  duplicate_action : Call → DuplicateEffectGate V → Action V
  unfolding secret_action
  duplicate_action call (return r) =
      if is_request_secret call.name
      then secret_action call.secret_created_at call.effect_updated_at r
      else return_result r
  duplicate_action call paused =
      if is_request_secret call.name
      then if call.waiting_input then pause_for_secret else go_on
      else if not call.needs_approval
      then claim_or_return from_intended
      else if call.waiting_input
      then pause_for_approval
      else request_approval
  duplicate_action call (unclear tool_name) = settle tool_name
  duplicate_action call execute = claim_or_return from_approved

  first_action : Call → Action V
  first_action call =
      if call.needs_approval
      then request_approval
      else if call.bypass_approval
      then claim_or_return from_intended
      else go_on

  recorded_action : Call → Recorded V → Action V
  unfolding duplicate_action first_action
  recorded_action call r =
      if r.duplicate
      then duplicate_action call (resolve_duplicate_effect_gate r.effect call.name)
      else first_action call

  -- The claim of another worker came first: its result, or an error.
  lost_by : DuplicateEffectGate V → Text → Text → Store V → Store V × Outcome V
  lost_by (return r) key name store = (store, returns r)
  lost_by (unclear t) key name store =
      let (r, after) = settle_uncertain_effect key name store in (after, returns r)
  lost_by paused key name store = (store, throws_uncertain name)
  lost_by execute key name store = (store, throws_uncertain name)

  lost_claim : Option (Effect V) → Text → Text → Store V → Store V × Outcome V
  unfolding lost_by
  lost_claim none key name store = (store, throws_uncertain name)
  lost_claim (some e) key name store = lost_by (resolve_duplicate_effect_gate e name) key name store

  claimed : Text → Text → Bool × Store V → Store V × Outcome V
  unfolding lost_claim
  claimed key name (got, store) =
      let lost = lost_claim (get key store) key name store in
      if got then (store, runs true) else lost

  pub perform : Text → Text → Action V → Store V → Store V × Outcome V
  unfolding claimed
  perform key name (return_result r) store = (store, returns r)
  perform key name (drop_secret r) store = (store, drops_secret r)
  perform key name pause_for_secret store = (store, waits_for_secret)
  perform key name pause_for_approval store = (store, waits_for_approval)
  perform key name request_approval store = (store, asks_for_approval)
  perform key name (settle t) store =
      let (r, after) = settle_uncertain_effect key t store in (after, returns r)
  perform key name (claim_or_return from_approved) store =
      claimed key name (claim_approved_effect key store)
  perform key name (claim_or_return from_intended) store =
      claimed key name (claim_intended_effect key store)
  perform key name go_on store = (store, runs false)

  -- `!applied` for a tool that only reads, else the row.
  pub begin_call : Call → Store V → Action V × Store V
  unfolding recorded_action record_effect
  begin_call call store =
      let (r, after) = record_effect call.key call.name store in
      if call.is_read_only then (go_on, store) else (recorded_action call r, after)
