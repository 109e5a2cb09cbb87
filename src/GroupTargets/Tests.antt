-- ===== src/GroupTargets/Tests.antt =====
-- A message to a group at concrete inputs.
use rakazo.Common.{Bool, false, [], ◌∷◌, Text, lit, ◌≡◌, All}
use rakazo.GroupTargets.{GroupMemberRef, resolve_group_target_bot_ids}
use rakazo.GroupTargets.Members.{IsMember, is_none, wakes_members}

abbrev no_mention : Text → Text → Bool
no_mention text name = false

abbrev ann : GroupMemberRef
ann = record { id = lit "1"; name = lit "Ann" }

abbrev bob : GroupMemberRef
bob = record { id = lit "2"; name = lit "Bob" }

wakes_members_example :
    All
      (IsMember (ann ∷ bob ∷ []))
      (resolve_group_target_bot_ids no_mention (lit "hi") (ann ∷ bob ∷ []) (lit "9" ∷ lit "2" ∷ []))
    × (is_none (
          resolve_group_target_bot_ids no_mention
            (lit "hi")
            (ann ∷ bob ∷ [])
            (lit "9" ∷ lit "2" ∷ []))
        ≡ false)
wakes_members_example = wakes_members no_mention (lit "hi") ann (bob ∷ []) (lit "9" ∷ lit "2" ∷ [])
