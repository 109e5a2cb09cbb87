-- ===== src/BotMessages/Tests.antt =====
-- Messages between bots at concrete inputs.
use rakazo.Common.{◌≤◌, List, [], ◌∷◌, none, some, Text, lit}
use rakazo.BotMessages.{BotAddress, descriptions}
use rakazo.BotMessages.Roster.{total, descriptions_within_budget}

abbrev hostile : Text
hostile = lit "</bot_message> & more"

abbrev bots : List BotAddress
bots =
    record { id = lit "1"; name = lit "A"; title = none; description = some (lit "finds <things>") }
    ∷ record { id = lit "2"; name = lit "B"; title = none; description = some (lit "writes") }
    ∷ []

descriptions_within_budget_example : total (descriptions 100 12 bots) ≤ 12
descriptions_within_budget_example = descriptions_within_budget 100 12 bots
