-- ===== src/Live/Blocks.antt =====
-- packages/core/src/events.ts, `reduceLiveMessageBlocks` and what it calls. Case mapping of a tool's
-- name is the runtime's, so `toLowerCase` and `toUpperCase` are parameters. Blocks of the kinds that
-- these functions only pass on are `other`.
pub mod Content
pub mod Tools
pub mod Fold
use rakazo.Common.{
  ℕ, zero, suc, ◌+◌, ◌-◌, ◌==◌, Bool, true, false, ◌||◌, ◌&&◌, not, List, [], ◌∷◌, ◌++◌, map,
  Option, none, some, Text, lit, is_empty, is_space, trim, text_eq, if◌then◌else◌, length, take,
  drop, last?, but_last,
}
use mathlib.Core.List.{reverse}

pub record ToolStep : Type 0 where
  pub label : Text
  pub count : ℕ

pub data SubagentStatus : Type 0 where
  running completed failed : SubagentStatus

pub record Subagent : Type 0 where
  pub agent_id : Text
  pub name : Text
  pub task : Text
  pub status : SubagentStatus
  pub progress : Option Text
  pub result : Option Text

-- `pendingToolNames` is absent exactly when its list is empty.
pub data MessageBlock : Type 0 where
  text : Text → MessageBlock
  progress : Text → List Text → MessageBlock
  steps : List ToolStep → MessageBlock
  subagent : Subagent → MessageBlock
  other : Text → MessageBlock

-- A progress payload: `delta` if it is a string, and `String(payload?.text ?? "")`.
pub record Payload : Type 0 where
  pub delta : Option Text
  pub text : Text

pub data LiveMessageUpdate : Type 0 where
  progressed : Payload → LiveMessageUpdate
  tool : Text → LiveMessageUpdate

abbrev pub block_text : MessageBlock → Text
block_text (text s) = s
block_text (progress s pending) = s
block_text _ = []

-- `blocks.filter(text or progress).map(text).join("")`
abbrev pub live_message_text : List MessageBlock → Text
live_message_text [] = []
live_message_text (b ∷ bs) = block_text b ++ live_message_text bs

abbrev pub progress_message_text : Payload → Text → Text
progress_message_text payload previous = elim payload.delta [
  | some delta ↦ previous ++ delta
  | none ↦ payload.text
]

abbrev is_closer : ℕ → Bool
is_closer c = c == 34 || c == 39 || c == 0x201d || c == 0x2019 || c == 41 || c == 93

abbrev is_stop : ℕ → Bool
is_stop c = c == 46 || c == 33 || c == 63

drop_while : (ℕ → Bool) → Text → Text
drop_while p [] = []
drop_while p (c ∷ s) = if p c then drop_while p s else c ∷ s

abbrev starts_with_stop : Text → Bool
starts_with_stop [] = false
starts_with_stop (c ∷ s) = is_stop c

-- `SENTENCE_END_RE.test(text)`, read from the end: white space, then closing marks, then a stop.
pub ends_sentence : Text → Bool
unfolding drop_while
ends_sentence s =
    is_empty (trim s) || starts_with_stop (drop_while is_closer (drop_while is_space (reverse s)))

pub text_onto : List MessageBlock → Text → Option MessageBlock → List MessageBlock
text_onto segments s (some (text t)) = but_last segments ++ text (t ++ s) ∷ []
text_onto segments s last = segments ++ text s ∷ []

pub append_text_segment : List MessageBlock → Text → List MessageBlock
unfolding text_onto
append_text_segment segments s =
    if is_empty s then segments else text_onto segments s (last? segments)

abbrev is_nil : List Text → Bool
is_nil [] = true
is_nil (n ∷ ns) = false

abbrev spaced : Text → Text
spaced = map (λ c. if c == b'_' then 32 else c)

module _ (to_lower to_upper : Text → Text) where
  pub humanize_tool_name : Text → Text
  humanize_tool_name name =
      let words = trim (spaced name) in
      let lower = to_lower words in
      if is_empty words then name else to_upper (take 1 lower) ++ drop 1 lower

  pub step_onto : List ToolStep → Text → Option ToolStep → List ToolStep
  step_onto done label none = done ++ record { label = label; count = 1 } ∷ []
  step_onto done label (some last) =
      if text_eq last.label label
      then but_last done ++ record { label = label; count = last.count + 1 } ∷ []
      else done ++ record { label = label; count = 1 } ∷ []

  pub append_tool_step : List ToolStep → Text → List ToolStep
  unfolding step_onto
  append_tool_step done tool_name = step_onto done (humanize_tool_name tool_name) (last? done)

  pub tool_onto : List MessageBlock → Text → Option MessageBlock → List MessageBlock
  unfolding append_tool_step
  tool_onto segments tool_name (some (steps prior)) =
      but_last segments ++ steps (append_tool_step prior tool_name) ∷ []
  tool_onto segments tool_name last = segments ++ steps (append_tool_step [] tool_name) ∷ []

  pub append_tool_call_segment : List MessageBlock → Text → List MessageBlock
  unfolding tool_onto
  append_tool_call_segment segments tool_name = tool_onto segments tool_name (last? segments)

  -- `for (const name of pendingToolNames) next = appendToolCallSegment(next, name)`
  pub append_tool_calls : List MessageBlock → List Text → List MessageBlock
  append_tool_calls segments [] = segments
  append_tool_calls segments (name ∷ names) =
      append_tool_calls (append_tool_call_segment segments name) names

  -- The end of the reducer, given the segments that stand, the text of the tail and the tools pending.
  pub settle : List MessageBlock → Text → List Text → List MessageBlock
  unfolding append_tool_calls
  settle segments tail_text pending =
      if not (is_nil pending) && ends_sentence tail_text
      then append_tool_calls (append_text_segment segments tail_text) pending
      else if is_empty tail_text
      then segments
      else segments ++ progress tail_text pending ∷ []

  -- The reducer on `segments` and the text and pending tools of the progress block at the tail; both
  -- are empty where there is none.
  pub reduce_tail :
      List MessageBlock → Text → List Text → Text → LiveMessageUpdate → List MessageBlock
  unfolding settle
  reduce_tail segments tail pending prior_text (progressed payload) =
      settle segments
        (drop (length prior_text - length tail) (progress_message_text payload prior_text)) pending
  reduce_tail segments tail pending prior_text (tool name) =
      settle segments tail (pending ++ name ∷ [])

  -- By the last block: a progress block there is the tail.
  pub reduce_at : List MessageBlock → LiveMessageUpdate → Option MessageBlock → List MessageBlock
  unfolding reduce_tail
  reduce_at blocks update (some (progress tail pending)) =
      reduce_tail (but_last blocks) tail pending (live_message_text blocks) update
  reduce_at blocks update last = reduce_tail blocks [] [] (live_message_text blocks) update

  pub reduce_live_message_blocks : List MessageBlock → LiveMessageUpdate → List MessageBlock
  unfolding reduce_at
  reduce_live_message_blocks blocks update = reduce_at blocks update (last? blocks)
