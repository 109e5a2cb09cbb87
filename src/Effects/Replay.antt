-- ===== src/Effects/Replay.antt =====
-- packages/adapters/src/approval-effect.ts, `createApprovedEffectReplayQueue`, and the head of
-- `applyTool` in packages/adapters/src/executor.ts, which takes from it. A request is a JSON object
-- of the fields `V`, or another JSON value.
pub mod Order
mod Tests
use rakazo.Common.{
  Bool, true, false, not, ◌&&◌, List, [], ◌∷◌, Option, none, some, Text, text_eq, truthy, or_empty,
  if◌then◌else◌, Result, ok, err,
}

pub data Request (V : Type 0) : Type 0 where
  object : V → Request V
  other_json : Request V

pub record ApprovedEffectReplay (V : Type 0) : Type 0 where
  pub kind : Text
  pub request : Request V

pub data ReplayError : Type 0 where
  request_not_an_object : Text → ReplayError
  not_fully_replayed : ReplayError

-- A call of a tool ends with an error for the model, throws, or goes on with its arguments.
pub data Started (V : Type 0) : Type 0 where
  must_replay_first : Text → Started V
  throws : ReplayError → Started V
  runs_with : V → Started V

module _ {V : Type 0} where
  next_tool_name : List (ApprovedEffectReplay V) → Option Text
  next_tool_name [] = none
  next_tool_name (e ∷ pending) = some e.kind

  request_of : Text → Request V → Result ReplayError (Option V)
  request_of tool_name (object v) = ok (some v)
  request_of tool_name other_json = err (request_not_an_object tool_name)

  -- The request taken, if any, and what is pending after.
  take_replay :
      Text
      → List (ApprovedEffectReplay V)
      → Result ReplayError (Option V) × List (ApprovedEffectReplay V)
  unfolding request_of
  take_replay tool_name [] = (ok none, [])
  take_replay tool_name (e ∷ pending) =
      if text_eq e.kind tool_name
      then (request_of tool_name e.request, pending)
      else (ok none, e ∷ pending)

  assert_drained : List (ApprovedEffectReplay V) → Result ReplayError (Unit {0})
  assert_drained [] = ok tt
  assert_drained (e ∷ pending) = err not_fully_replayed

  abbrev started : V → Result ReplayError (Option V) → Started V
  started args (ok none) = runs_with args
  started args (ok (some v)) = runs_with v
  started args (err e) = throws e

  -- The head of `applyTool`: the arguments the call goes on with, and what is pending after.
  start_tool : Text → V → List (ApprovedEffectReplay V) → Started V × List (ApprovedEffectReplay V)
  unfolding next_tool_name take_replay
  start_tool name args pending =
      let next = next_tool_name pending in
      let (taken, rest) = take_replay name pending in
      if truthy next && not (text_eq (or_empty next) name)
      then (must_replay_first (or_empty next), pending)
      else (started args taken, rest)
