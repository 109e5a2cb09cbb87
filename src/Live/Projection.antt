-- ===== src/Live/Projection.antt =====
-- packages/core/src/events.ts, `projectMessages`: the messages of a thread from its events. The
-- payload of an event is what the projection reads of it; `createdAt` is the text it turns into.
pub mod Reset
pub mod Subagents
use rakazo.Common.{
  ℕ, Bool, true, false, not, List, [], ◌∷◌, ◌++◌, map, Option, none, some, Text, lit, has, truthy,
  or_empty, is_empty, if◌then◌else◌, Dict, get, put, delete, values,
}
use rakazo.Live.Blocks.{
  MessageBlock, Subagent, subagent, Payload, LiveMessageUpdate, progressed, tool,
  reduce_live_message_blocks,
}

pub data Role : Type 0 where
  user bot system : Role

pub data EventBody : Type 0 where
  message_created : Option Text → Option Role → List MessageBlock → EventBody
  thread_progress : Payload → EventBody
  tool_called : Text → EventBody
  thread_cleared : EventBody
  thread_subagent : Subagent → EventBody
  run_completed run_failed run_cancelled : EventBody
  other_event : EventBody

pub record Event : Type 0 where
  pub id : Text
  pub thread_id : Text
  pub seq : ℕ
  pub bot_id : Option Text
  pub run_id : Option Text
  pub created_at : Text
  pub body : EventBody

pub record ThreadMessage : Type 0 where
  pub id : Text
  pub thread_id : Text
  pub seq : ℕ
  pub role : Role
  pub blocks : List MessageBlock
  pub bot_id : Option Text
  pub run_id : Option Text
  pub created_at : Text

pub record LiveMeta : Type 0 where
  pub id : Text
  pub thread_id : Text
  pub seq : ℕ
  pub bot_id : Option Text
  pub run_id : Option Text
  pub created_at : Text

pub record LiveProjection : Type 0 where
  pub blocks : List MessageBlock
  pub meta : LiveMeta

-- The variables of `projectMessages`.
pub record State : Type 0 where
  pub messages : List ThreadMessage
  pub live_by_id : Dict LiveProjection
  pub live_subagents : Dict ThreadMessage
  pub durable_subagents : List Text

abbrev pub empty : State
empty = record { messages = []; live_by_id = []; live_subagents = []; durable_subagents = [] }

abbrev run_or_id : Option Text → Text → Text
run_or_id (some run_id) id = run_id
run_or_id none id = id

pub progress_message_id : Event → Text
progress_message_id e = lit "progress:" ++ run_or_id e.run_id e.id

abbrev new_live : Event → LiveProjection
new_live e = record {
  blocks = [];
  meta = record {
    id = progress_message_id e;
    thread_id = e.thread_id;
    seq = e.seq;
    bot_id = e.bot_id;
    run_id = e.run_id;
    created_at = e.created_at;
  };
}

abbrev found_or_new : Event → Option LiveProjection → LiveProjection
found_or_new e (some existing) = existing
found_or_new e none = new_live e

live_projection : State → Event → LiveProjection
live_projection s e = found_or_new e (get (progress_message_id e) s.live_by_id)

pub clear_live : State → Event → State
clear_live s e =
    if truthy e.run_id
    then record s { live_by_id = delete (progress_message_id e) s.live_by_id }
    else record s { live_by_id = [] }

-- The loop over the blocks of a message that was stored.
pub settle_subagents : State → List MessageBlock → State
settle_subagents s [] = s
settle_subagents s (subagent a ∷ blocks) =
    settle_subagents
      (record s {
        durable_subagents = a.agent_id ∷ s.durable_subagents;
        live_subagents = delete a.agent_id s.live_subagents;
      })
      blocks
settle_subagents s (block ∷ blocks) = settle_subagents s blocks

abbrev or_event_id : Option Text → Text → Text
or_event_id (some id) event_id = id
or_event_id none event_id = event_id

abbrev or_bot : Option Role → Role
or_bot (some role) = role
or_bot none = bot

module _ (to_lower to_upper : Text → Text) where
  pub live_update : State → Event → LiveMessageUpdate → State
  unfolding live_projection
  live_update s e update =
      let live = live_projection s e in
      let meta = live.meta in
      record s {
        live_by_id =
            put (progress_message_id e)
              (record {
                blocks = reduce_live_message_blocks to_lower to_upper live.blocks update;
                meta = record meta { seq = e.seq; bot_id = e.bot_id; created_at = e.created_at };
              })
              s.live_by_id;
      }

  pub store_message : State → Event → Option Text → Option Role → List MessageBlock → State
  unfolding clear_live settle_subagents
  store_message s e message_id role blocks =
      let settled = settle_subagents (clear_live s e) blocks in
      record settled {
        messages =
            settled.messages
            ++ record {
              id = or_event_id message_id e.id;
              thread_id = e.thread_id;
              seq = e.seq;
              role = or_bot role;
              blocks = blocks;
              bot_id = e.bot_id;
              run_id = e.run_id;
              created_at = e.created_at;
            }
              ∷ [];
      }

  pub show_subagent : State → Event → Subagent → State
  show_subagent s e a = if has s.durable_subagents a.agent_id then s else record s {
    live_subagents =
        put a.agent_id
          (record {
            id = lit "subagent:" ++ a.agent_id;
            thread_id = e.thread_id;
            seq = e.seq;
            role = bot;
            blocks = subagent a ∷ [];
            bot_id = e.bot_id;
            run_id = e.run_id;
            created_at = e.created_at;
          })
          s.live_subagents;
  }

  -- One turn of the loop over the events.
  pub apply : State → Event → EventBody → State
  unfolding live_update store_message show_subagent
  apply s e (message_created message_id role blocks) = store_message s e message_id role blocks
  apply s e (thread_progress payload) = live_update s e (progressed payload)
  apply s e (tool_called name) = live_update s e (tool name)
  apply s e thread_cleared = empty
  apply s e (thread_subagent a) = show_subagent s e a
  apply s e run_completed = clear_live s e
  apply s e run_failed = clear_live s e
  apply s e run_cancelled = clear_live s e
  apply s e other_event = s

  pub apply_all : State → List Event → State
  unfolding apply
  apply_all s [] = s
  apply_all s (e ∷ es) = apply_all (apply s e e.body) es

  pub live_messages : List LiveProjection → List ThreadMessage
  live_messages [] = []
  live_messages (live ∷ lives) = elim live.blocks [
    | [] ↦ live_messages lives
    | b ∷ bs ↦
        record {
          id = live.meta.id;
          thread_id = live.meta.thread_id;
          seq = live.meta.seq;
          role = bot;
          blocks = b ∷ bs;
          bot_id = live.meta.bot_id;
          run_id = live.meta.run_id;
          created_at = live.meta.created_at;
        }
        ∷ live_messages lives
  ]

  pub collect : State → List ThreadMessage
  unfolding live_messages
  collect s = (s.messages ++ values s.live_subagents) ++ live_messages (values s.live_by_id)

  pub project_messages : List Event → List ThreadMessage
  unfolding apply_all collect
  project_messages events = collect (apply_all empty events)
