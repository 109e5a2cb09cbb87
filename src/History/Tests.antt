-- ===== src/History/Tests.antt =====
-- Pages of messages at concrete inputs.
use rakazo.Common.{ℕ, List, [], ◌∷◌, ◌++◌, Option, some, Text, lit, ◌≡◌}
use rakazo.History.{MessageIdentity, merge_messages_by_id}
use rakazo.History.Merge.{with_id, HasDistinctIds, merge_keeps_first}

-- A message that is its id and its number
abbrev pair : MessageIdentity (Text × Option ℕ)
pair = record { id = λ m. m.0; seq = λ m. m.1 }

abbrev older : List (Text × Option ℕ)
older = (lit "a", some 1) ∷ (lit "b", some 2) ∷ (lit "progress:r", some 2) ∷ []

abbrev newer : List (Text × Option ℕ)
newer = (lit "b", some 2) ∷ (lit "c", some 3) ∷ []

merge_keeps_first_example :
    HasDistinctIds pair (merge_messages_by_id pair older newer)
    × (with_id pair (lit "c") (merge_messages_by_id pair older newer)
        ≡ with_id pair (lit "c") (older ++ newer))
merge_keeps_first_example = merge_keeps_first pair older newer (lit "c")
