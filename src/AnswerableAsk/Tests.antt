-- ===== src/AnswerableAsk/Tests.antt =====
-- Open questions at concrete inputs.
use rakazo.Common.{[], ◌∷◌, none, some, lit}
use rakazo.AnswerableAsk.{AskSnapshot, runs_of, latest_answerable_ask_message_id}
use rakazo.AnswerableAsk.Latest.{Ends, latest_is_last_open}

abbrev snapshot : AskSnapshot
snapshot = record {
  messages =
      record {
        id = lit "m";
        run_id = some (lit "r");
        blocks = record { kind = lit "ask"; status = none } ∷ [];
      }
      ∷ record { id = lit "n"; run_id = some (lit "r"); blocks = [] }
      ∷ [];
  run = some (record { id = lit "r"; status = lit "waiting_input" });
  active_runs = none;
}

latest_is_last_open_example :
    Ends
      (runs_of snapshot.active_runs snapshot.run)
      snapshot.messages
      (latest_answerable_ask_message_id (some snapshot))
latest_is_last_open_example = latest_is_last_open snapshot
