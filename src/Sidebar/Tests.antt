-- ===== src/Sidebar/Tests.antt =====
-- The sidebar at concrete inputs.
use rakazo.Common.{
  true, false, List, [], ◌∷◌, none, some, lit, text_eq, has, length, ◌≡◌, refl, map,
}
use rakazo.Sidebar.{Section, SectionedBot, group_bots_for_sidebar}
use rakazo.Sidebar.Grouping.{shown_count, HasDistinctSections, groups_show_every_bot}

abbrev sections : List Section
sections =
    record { id = lit "s"; name = lit "Work" } ∷ record { id = lit "t"; name = lit "Home" } ∷ []

abbrev bots : List (SectionedBot (Unit {0}))
bots =
    record { pinned = true; section_id = none; bot = tt }
    ∷ record { pinned = false; section_id = some (lit "s"); bot = tt }
    ∷ record { pinned = false; section_id = some (lit "gone"); bot = tt }
    ∷ []

sections-HasDistinctSections : HasDistinctSections (map (λ section. section.id) sections)
unfolding has text_eq
sections-HasDistinctSections = (refl, (refl, tt))

groups_show_every_bot_example : shown_count (group_bots_for_sidebar bots sections) ≡ length bots
groups_show_every_bot_example = groups_show_every_bot bots sections sections-HasDistinctSections
