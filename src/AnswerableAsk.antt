-- ===== src/AnswerableAsk.antt =====
-- packages/core/src/answerable-ask.ts: the latest message that the user can still answer.
pub mod Latest
mod Tests
use rakazo.Common.{
  Bool, true, false, not, ◌&&◌, List, [], ◌∷◌, map, Option, none, some, Text, lit, text_eq, has,
  truthy, or_empty, any, select, if◌then◌else◌,
}

pub record AskedBlock : Type 0 where
  pub kind : Text
  pub status : Option Text

pub record AskedMessage : Type 0 where
  pub id : Text
  pub run_id : Option Text
  pub blocks : List AskedBlock

pub record RunRef : Type 0 where
  pub id : Text
  pub status : Text

pub record AskSnapshot : Type 0 where
  pub messages : List AskedMessage
  pub run : Option RunRef
  pub active_runs : Option (List RunRef)

-- `snapshot.activeRuns ?? (snapshot.run ? [snapshot.run] : [])`
abbrev pub runs_of : Option (List RunRef) → Option RunRef → List RunRef
runs_of (some runs) run = runs
runs_of none (some run) = run ∷ []
runs_of none none = []

pub waiting_run_ids : AskSnapshot → List Text
waiting_run_ids snapshot =
    map (λ run. run.id)
      (select (λ run. text_eq run.status (lit "waiting_input"))
        (runs_of snapshot.active_runs snapshot.run))

abbrev pub is_answered : Option Text → Bool
is_answered none = false
is_answered (some status) = text_eq status (lit "answered")

abbrev pub is_open_ask : AskedBlock → Bool
is_open_ask block = text_eq block.kind (lit "ask") && not (is_answered block.status)

-- What the loop looks for in a message
pub is_answerable : List Text → AskedMessage → Bool
is_answerable waiting message =
    truthy message.run_id && has waiting (or_empty message.run_id) && any is_open_ask message.blocks

-- `??` of what is found later in the list and a message
abbrev pub later_or : Option Text → Bool → Text → Option Text
later_or (some id) b own = some id
later_or none true own = some own
later_or none false own = none

-- The loop from the last message to the first
pub latest_from : List Text → List AskedMessage → Option Text
unfolding is_answerable
latest_from waiting [] = none
latest_from waiting (message ∷ messages) =
    later_or (latest_from waiting messages) (is_answerable waiting message) message.id

pub latest_answerable_ask_message_id : Option AskSnapshot → Option Text
unfolding latest_from waiting_run_ids
latest_answerable_ask_message_id none = none
latest_answerable_ask_message_id (some snapshot) =
    latest_from (waiting_run_ids snapshot) snapshot.messages
