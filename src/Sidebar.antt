-- ===== src/Sidebar.antt =====
-- packages/core/src/bot-sections.ts: the bots of the sidebar, grouped into the pinned ones, the
-- sections and the rest. What else a bot carries is any type.
pub mod Grouping
mod Tests
use rakazo.Common.{
  ℕ, ltb, ◌==◌, Bool, true, false, not, ◌&&◌, ◌||◌, List, [], ◌∷◌, ◌++◌, map, Option, none, some,
  Text, lit, text_eq, has, truthy, or_empty, length, Dict, get, put, if◌then◌else◌,
}

pub record BotListSection (A : Type 0) : Type 0 where
  pub key : Text
  pub title : Option Text
  pub bots : List A

pub record Section : Type 0 where
  pub id : Text
  pub name : Text

pub record SectionedBot (A : Type 0) : Type 0 where
  pub pinned : Bool
  pub section_id : Option Text
  pub bot : A

-- The three containers of the loop
pub record Sorted (A : Type 0) : Type 0 where
  pub pinned : List (SectionedBot A)
  pub section_members : Dict (List (SectionedBot A))
  pub unassigned : List (SectionedBot A)

module _ {A : Type 0} where
  -- `sectionMembers.get(id) ?? []`
  abbrev pub members_or : Option (List (SectionedBot A)) → List (SectionedBot A)
  members_or none = []
  members_or (some members) = members

  -- One turn of the loop
  pub sort_bot : List Text → SectionedBot A → Sorted A → Sorted A
  sort_bot known_section_ids bot s =
      if bot.pinned
      then record s { pinned = s.pinned ++ bot ∷ [] }
      else if truthy bot.section_id && has known_section_ids (or_empty bot.section_id)
      then record s {
        section_members =
            put (or_empty bot.section_id)
              (members_or (get (or_empty bot.section_id) s.section_members) ++ bot ∷ [])
              s.section_members;
      }
      else record s { unassigned = s.unassigned ++ bot ∷ [] }

  pub sort_bots : List Text → List (SectionedBot A) → Sorted A → Sorted A
  unfolding sort_bot
  sort_bots known_section_ids [] s = s
  sort_bots known_section_ids (bot ∷ bots) s =
      sort_bots known_section_ids bots (sort_bot known_section_ids bot s)

  -- A group, unless it is empty
  abbrev pub shown :
      Text → Option Text → List (SectionedBot A) → List (BotListSection (SectionedBot A))
  shown key title bots =
      if ltb 0 (length bots) then record { key = key; title = title; bots = bots } ∷ [] else []

  pub section_groups :
      List Section → Dict (List (SectionedBot A)) → List (BotListSection (SectionedBot A))
  section_groups [] members = []
  section_groups (section ∷ sections) members =
      shown (lit "section:" ++ section.id) (some section.name) (members_or (get section.id members))
      ++ section_groups sections members

  pub group_bots_for_sidebar :
      List (SectionedBot A) → List Section → List (BotListSection (SectionedBot A))
  unfolding sort_bots section_groups
  group_bots_for_sidebar bots sections =
      let s =
        sort_bots (map (λ section. section.id) sections) bots
          (record { pinned = []; section_members = []; unassigned = [] }) in
      shown (lit "pinned") (some (lit "Pinned")) s.pinned
      ++ (section_groups sections s.section_members
          ++ shown (lit "unassigned")
              (if ltb 0 (length s.pinned) || ltb 0 (length sections)
                then some (lit "Unassigned")
                else none)
              s.unassigned)
