-- ===== src/Live/Projection/Subagents/Tests.antt =====
-- Subagents and the end of a run at concrete inputs.
use rakazo.Common.{ℕ, All, List, [], ◌∷◌, none, some, Text, lit}
use rakazo.Live.Blocks.{Subagent, subagent, completed}
use rakazo.Live.Projection.{Event, EventBody, message_created, tool_called, thread_subagent, bot}
use rakazo.Live.Projection.Subagents.{IsNotLive, state_after, durable_subagent-IsNotLive}

abbrev same : Text → Text
same s = s

abbrev helper : Subagent
helper = record {
  agent_id = lit "a";
  name = lit "Helper";
  task = lit "look";
  status = completed;
  progress = none;
  result = none;
}

abbrev event : ℕ → EventBody → Event
event seq body = record {
  id = lit "e";
  thread_id = lit "t";
  seq = seq;
  bot_id = none;
  run_id = some (lit "r");
  created_at = lit "now";
  body = body;
}

abbrev events : List Event
events =
    event 1 (thread_subagent helper)
    ∷ event 2 (message_created (some (lit "m")) (some bot) (subagent helper ∷ []))
    ∷ event 3 (tool_called (lit "web_search"))
    ∷ []

durable_subagent-IsNotLive_example :
    All
      (λ m. All (IsNotLive (state_after same same events)) m.blocks)
      (state_after same same events).messages
durable_subagent-IsNotLive_example = durable_subagent-IsNotLive same same events
