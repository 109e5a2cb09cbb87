-- ===== src/Live/Tests.antt =====
-- Live messages at concrete inputs.
use rakazo.Common.{ℕ, ◌+◌, List, [], ◌∷◌, none, some, Text, lit, ◌≡◌, refl}
use rakazo.Live.Blocks.{live_message_text, LiveMessageUpdate, progressed, tool}
use rakazo.Live.Blocks.Tools.{tool_count}
use rakazo.Live.Blocks.Fold.{fold_updates, delta_text, tool_calls, fold_keeps_all}
use rakazo.Live.Projection.{Event, EventBody}

abbrev same : Text → Text
same s = s

abbrev updates : List LiveMessageUpdate
updates =
    progressed (record { delta = some (lit "Looking. "); text = [] })
    ∷ tool (lit "web_search")
    ∷ progressed (record { delta = some (lit "Half a"); text = [] })
    ∷ tool (lit "web_search")
    ∷ progressed (record { delta = some (lit " sentence."); text = [] })
    ∷ []

fold_keeps_all_example :
    (live_message_text (fold_updates same same [] updates) ≡ delta_text updates)
    × (tool_count (fold_updates same same [] updates) ≡ 0 + tool_calls updates)
fold_keeps_all_example =
    fold_keeps_all same same [] updates
      ((lit "Looking. ", refl), ((lit "Half a", refl), ((lit " sentence.", refl), tt)))

abbrev event : ℕ → EventBody → Event
event seq body = record {
  id = lit "e";
  thread_id = lit "t";
  seq = seq;
  bot_id = none;
  run_id = some (lit "r");
  created_at = lit "now";
  body = body;
}
