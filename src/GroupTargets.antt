-- ===== src/GroupTargets.antt =====
-- packages/core/src/group-mentions.ts, `resolveGroupTargetBotIds`: the bots of a group that a message
-- wakes. Whether a text mentions a name is decided by a regular expression, an argument here.
pub mod Members
mod Tests
use rakazo.Common.{Bool, true, false, List, [], ◌∷◌, ◌++◌, map, Text, lit, has, if◌then◌else◌}

pub record GroupMemberRef : Type 0 where
  pub id : Text
  pub name : Text

-- `targetIds.add(id)`
pub add_id : List Text → Text → List Text
add_id target_ids id = if has target_ids id then target_ids else target_ids ++ id ∷ []

abbrev pub ids_of : List GroupMemberRef → List Text
ids_of members = map (λ member. member.id) members

pub add_explicit : List GroupMemberRef → List Text → List Text → List Text
unfolding add_id
add_explicit members target_ids [] = target_ids
add_explicit members target_ids (mention_id ∷ mentions) =
    add_explicit members
      (if has (ids_of members) mention_id then add_id target_ids mention_id else target_ids)
      mentions

-- The members that are tested true
pub add_members : (GroupMemberRef → Bool) → List Text → List GroupMemberRef → List Text
unfolding add_id
add_members wakes target_ids [] = target_ids
add_members wakes target_ids (member ∷ members) =
    add_members wakes (if wakes member then add_id target_ids member.id else target_ids) members

-- `targetIds.size === 0 && members[0]`
abbrev pub or_first : List Text → List GroupMemberRef → List Text
or_first [] [] = []
or_first [] (member ∷ members) = member.id ∷ []
or_first (id ∷ ids) members = id ∷ ids

pub resolve_group_target_bot_ids :
    (Text → Text → Bool) → Text → List GroupMemberRef → List Text → List Text
unfolding add_explicit add_members
resolve_group_target_bot_ids has_mention_token text members explicit_mentions =
    or_first
      (add_members
        (λ member.
          if has_mention_token text (lit "everyone")
          then true
          else has_mention_token text member.name)
        (add_explicit members [] explicit_mentions) members)
      members
