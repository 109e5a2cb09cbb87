-- ===== src/Effects/Replay/Tests.antt =====
-- The replay of approved requests on concrete calls.
use rakazo.Common.{ℕ, List, [], ◌∷◌, map, Text, lit, text_eq, ◌≡◌, refl}
use rakazo.Effects.Replay.{take_replay, next_tool_name, start_tool, request_of}
use rakazo.Effects.Replay.Order.{replay, call_tools, Replayed, replays_in_order}

abbrev approved_calls : List (Text × ℕ)
approved_calls = (lit "send", 1) ∷ (lit "pay", 2) ∷ []

-- The model reconstructs the first call with other arguments, tries to skip, and goes on after.
abbrev later_calls : List (Text × ℕ)
later_calls = (lit "send", 9) ∷ (lit "read", 5) ∷ (lit "pay", 8) ∷ (lit "read", 5) ∷ []

replayed_calls :
    call_tools later_calls (map replay approved_calls)
    ≡ ((lit "send", 1) ∷ (lit "pay", 2) ∷ (lit "read", 5) ∷ [], [])
unfolding call_tools start_tool take_replay next_tool_name request_of text_eq
replayed_calls = refl

replays_in_order_example :
    Replayed approved_calls (call_tools later_calls (map replay approved_calls))
replays_in_order_example = replays_in_order later_calls approved_calls (refl, (refl, tt))
