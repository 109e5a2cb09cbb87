-- ===== src/Effects.antt =====
-- packages/adapters/src/approval-effect.ts: the row that an external effect of a run has in the
-- database, and the conditional updates that move it from status to status. The values a tool returns
-- are `V`; the two results that the code makes itself are an error with a text. The table is a `Dict`
-- under the idempotency key, which is unique, so an update by key and status counts one row or none.
pub mod Replay
pub mod Dispatch
use rakazo.Common.{
  ℕ, Bool, true, false, List, Option, none, some, Text, lit, ◌++◌, ◌==◌, text_eq, if◌then◌else◌,
  Dict, get, put,
}

pub data EffectStatus : Type 0 where
  intended approved denied executing uncertain completed : EffectStatus
  unknown_status : Text → EffectStatus

-- `a === b` on statuses
pub status_eq : EffectStatus → EffectStatus → Bool
status_eq intended intended = true
status_eq approved approved = true
status_eq denied denied = true
status_eq executing executing = true
status_eq uncertain uncertain = true
status_eq completed completed = true
status_eq (unknown_status s) (unknown_status t) = text_eq s t
status_eq _ _ = false

-- What a tool call returns: the tool's own value, `{ duplicate: true }`, or an error.
pub data EffectResult (V : Type 0) : Type 0 where
  value : V → EffectResult V
  duplicate_result : EffectResult V
  error_result : Text → EffectResult V
  uncertain_result : Text → EffectResult V

pub record Effect (V : Type 0) : Type 0 where
  pub status : EffectStatus
  pub kind : Text
  pub result : Option (EffectResult V)

abbrev pub Store : Type 0 → Type 0
Store V = Dict (Effect V)

pub data DuplicateEffectGate (V : Type 0) : Type 0 where
  execute : DuplicateEffectGate V
  return : EffectResult V → DuplicateEffectGate V
  paused : DuplicateEffectGate V
  unclear : Text → DuplicateEffectGate V

module _ {V : Type 0} where
  pub uncertain_effect_result : Text → EffectResult V
  uncertain_effect_result tool_name = uncertain_result (
      lit "The earlier "
      ++ (tool_name
          ++ lit
              " execution was interrupted, so its outcome is unknown. It was not replayed to avoid a duplicate side effect. Verify the destination before proposing another action."))

  abbrev result_or : Option (EffectResult V) → EffectResult V → EffectResult V
  result_or none r = r
  result_or (some s) r = s

  gate_of : EffectStatus → Option (EffectResult V) → Text → DuplicateEffectGate V
  unfolding uncertain_effect_result
  gate_of completed result tool_name = return (result_or result duplicate_result)
  gate_of denied result tool_name = return (error_result (lit "User denied this action."))
  gate_of executing result tool_name = unclear tool_name
  gate_of uncertain result tool_name = return (result_or result (uncertain_effect_result tool_name))
  gate_of approved result tool_name = execute
  gate_of intended result tool_name = paused
  gate_of (unknown_status s) result tool_name = unclear tool_name

  pub resolve_duplicate_effect_gate : Effect V → Text → DuplicateEffectGate V
  unfolding gate_of
  resolve_duplicate_effect_gate effect tool_name = gate_of effect.status effect.result tool_name

  -- `externalEffect.updateMany` where the id and the status are given: the count, and the table after.
  pub update_row :
      Option (Effect V) → Text → EffectStatus → (Effect V → Effect V) → Store V → ℕ × Store V
  update_row none id status data_of store = (0, store)
  update_row (some e) id status data_of store =
      if status_eq e.status status then (1, put id (data_of e) store) else (0, store)

  pub update_many : Text → EffectStatus → (Effect V → Effect V) → Store V → ℕ × Store V
  unfolding update_row
  update_many id status data_of store = update_row (get id store) id status data_of store

  abbrev pub with_status : EffectStatus → Effect V → Effect V
  with_status s e = record e { status = s }

  abbrev pub with_result : EffectStatus → EffectResult V → Effect V → Effect V
  with_result s r e = record e { status = s; result = some r }

  abbrev pub is_one : ℕ × Store V → Bool × Store V
  is_one (count, store) = (count == 1, store)

  pub claim_approved_effect : Text → Store V → Bool × Store V
  unfolding update_many
  claim_approved_effect id store = is_one (update_many id approved (with_status executing) store)

  pub claim_intended_effect : Text → Store V → Bool × Store V
  unfolding update_many
  claim_intended_effect id store = is_one (update_many id intended (with_status executing) store)

  pub complete_external_effect : Text → EffectStatus → EffectResult V → Store V → Bool × Store V
  unfolding update_many
  complete_external_effect id expected_status result store =
      is_one (update_many id expected_status (with_result completed result) store)

  pub replace_completed_external_effect_result : Text → EffectResult V → Store V → Bool × Store V
  unfolding update_many
  replace_completed_external_effect_result id result store =
      is_one (update_many id completed (with_result completed result) store)

  -- What is returned when the update found no executing row.
  settled_by_other : Option (Effect V) → Text → EffectResult V
  unfolding uncertain_effect_result resolve_duplicate_effect_gate
  settled_by_other none tool_name = uncertain_effect_result tool_name
  settled_by_other (some e) tool_name = elim (resolve_duplicate_effect_gate e tool_name) [
    | return r ↦ r
    | _ ↦ uncertain_effect_result tool_name
  ]

  settled : ℕ × Store V → Text → Text → EffectResult V × Store V
  unfolding uncertain_effect_result settled_by_other
  settled (count, store) id tool_name = (
    if count == 1
        then uncertain_effect_result tool_name
        else settled_by_other (get id store) tool_name,
    store,
  )

  pub settle_uncertain_effect : Text → Text → Store V → EffectResult V × Store V
  unfolding update_many settled
  settle_uncertain_effect id tool_name store =
      settled
        (update_many id executing (with_result uncertain (uncertain_effect_result tool_name)) store)
        id tool_name
