-- ===== src/Sidebar/Grouping.antt =====
-- How many bots the groups of the sidebar show.
use rakazo.Common.{
  ℕ, suc, ◌+◌, ltb, true, false, ◌&&◌, List, [], ◌∷◌, ◌++◌, map, Option, none, some, Text, lit,
  text_eq, text_eq_iff, has, truthy, or_empty, length, length-append, Dict, get, put, get-put,
  if◌then◌else◌, ◌≡◌, refl, sym, ap, ◌∙◌, ◌||◌, subst, arith, Bool-cases, inl, inr,
}
use rakazo.Sidebar.{
  BotListSection, Section, SectionedBot, Sorted, members_or, sort_bot, sort_bots, shown,
  section_groups, group_bots_for_sidebar,
}

-- No section id stands after itself.
abbrev pub HasDistinctSections : List Text → Type 0
HasDistinctSections [] = Unit {0}
HasDistinctSections (id ∷ ids) = (has ids id ≡ false) × HasDistinctSections ids

same_key : (k id : Text) → text_eq id k ≡ true → text_eq k id ≡ true
same_key k id e = ground (arith, text_eq_iff k id, text_eq_iff id k)

other_key : (k id : Text) → text_eq id k ≡ false → text_eq k id ≡ false
other_key k id e = ground (arith, text_eq_iff k id, text_eq_iff id k)

not_again :
    (k id : Text) (ids : List Text) → text_eq id k ≡ true → has ids id ≡ false → has ids k ≡ false
not_again k id ids e h = subst (λ i. has ids i ≡ false) ((text_eq_iff id k).0 e) h

module _ {A : Type 0} where
  -- How many bots a list of groups shows
  abbrev pub shown_count : List (BotListSection (SectionedBot A)) → ℕ
  shown_count [] = 0
  shown_count (group ∷ groups) = length group.bots + shown_count groups

  -- How many members the named sections have
  abbrev members_count : List Text → Dict (List (SectionedBot A)) → ℕ
  members_count [] members = 0
  members_count (id ∷ ids) members =
      length (members_or (get id members)) + members_count ids members

  count_of_put :
      (k : Text) (bot : SectionedBot A) (ids : List Text) (members : Dict (List (SectionedBot A)))
      → HasDistinctSections ids
      → members_count ids (put k (members_or (get k members) ++ bot ∷ []) members)
        ≡ (if has ids k then suc (members_count ids members) else members_count ids members)
  unfolding has
  count_of_put k bot [] members d = refl
  count_of_put k bot (id ∷ ids) members d = elim (Bool-cases (text_eq id k)) [
    | inl e ↦
        rw
          (
            get-put k id (members_or (get k members) ++ bot ∷ []) members,
            count_of_put k bot ids members d.1,
            same_key k id e,
            e,
            not_again k id ids e d.0,
            sym (ap (λ i. get i members) ((text_eq_iff id k).0 e)),
          )
          (omega (arith, length-append (members_or (get id members)) (bot ∷ [])))
    | inr e ↦
        rw
          (
            get-put k id (members_or (get k members) ++ bot ∷ []) members,
            count_of_put k bot ids members d.1,
            other_key k id e,
            e,
          )
          (ground arith)
  ]

  -- The bots that the three containers hold
  abbrev sorted_count : List Text → Sorted A → ℕ
  sorted_count ids s = length s.pinned + members_count ids s.section_members + length s.unassigned

  sort_bot-count :
      (ids : List Text) (bot : SectionedBot A) (s : Sorted A)
      → HasDistinctSections ids
      → sorted_count ids (sort_bot ids bot s) ≡ suc (sorted_count ids s)
  unfolding sort_bot
  sort_bot-count ids bot s d = elim (Bool-cases bot.pinned) [
    | inl p ↦ ground (arith, length-append s.pinned (bot ∷ []))
    | inr p ↦ elim (Bool-cases (truthy bot.section_id && has ids (or_empty bot.section_id))) [
      | inl t ↦ ground (arith, count_of_put (or_empty bot.section_id) bot ids s.section_members d)
      | inr t ↦ ground (arith, length-append s.unassigned (bot ∷ []))
    ]
  ]

  sort_bots-count :
      (ids : List Text) (bots : List (SectionedBot A)) (s : Sorted A)
      → HasDistinctSections ids
      → sorted_count ids (sort_bots ids bots s) ≡ length bots + sorted_count ids s
  unfolding sort_bots
  sort_bots-count ids [] s d = omega arith
  sort_bots-count ids (bot ∷ bots) s d =
      omega (arith, sort_bots-count ids bots (sort_bot ids bot s) d, sort_bot-count ids bot s d)

  count-append :
      (xs ys : List (BotListSection (SectionedBot A)))
      → shown_count (xs ++ ys) ≡ shown_count xs + shown_count ys
  count-append [] ys = omega arith
  count-append (x ∷ xs) ys = omega (arith, count-append xs ys)

  count-shown :
      (key : Text) (title : Option Text) (bots : List (SectionedBot A))
      → shown_count (shown key title bots) ≡ length bots
  count-shown key title [] = refl
  count-shown key title (bot ∷ bots) = ground arith

  count-section_groups :
      (sections : List Section) (members : Dict (List (SectionedBot A)))
      → shown_count (section_groups sections members)
        ≡ members_count (map (λ section. section.id) sections) members
  unfolding section_groups
  count-section_groups [] members = refl
  count-section_groups (section ∷ sections) members =
      count-append
        (shown (lit "section:" ++ section.id) (some section.name)
          (members_or (get section.id members)))
        (section_groups sections members)
      ∙ rw
          (
            count-shown (lit "section:" ++ section.id) (some section.name)
                (members_or (get section.id members)),
            count-section_groups sections members,
          )
          refl

  no_members :
      (ids : List Text) (members : Dict (List (SectionedBot A)))
      → ((k : Text) → get k members ≡ none)
      → members_count ids members ≡ 0
  no_members [] members h = refl
  no_members (id ∷ ids) members h = rw (h id, no_members ids members h) (omega arith)

  get-none :
      (k : Text) (members : Dict (List (SectionedBot A))) → members ≡ [] → get k members ≡ none
  unfolding get
  get-none k [] e = refl
  get-none k (m ∷ members) e = ground arith

  -- When the section ids are distinct, the groups of the sidebar show together as many bots as there
  -- are.
  pub groups_show_every_bot :
      (bots : List (SectionedBot A)) (sections : List Section)
      → HasDistinctSections (map (λ section. section.id) sections)
      → shown_count (group_bots_for_sidebar bots sections) ≡ length bots
  unfolding group_bots_for_sidebar
  groups_show_every_bot bots sections d =
      count-append (shown (lit "pinned") (some (lit "Pinned")) s.pinned)
        (section_groups sections s.section_members ++ last)
      ∙ rw
          (
            count-shown (lit "pinned") (some (lit "Pinned")) s.pinned,
            count-append (section_groups sections s.section_members) last,
            count-section_groups sections s.section_members,
            count-shown (lit "unassigned")
                (if ltb 0 (length s.pinned) || ltb 0 (length sections)
                  then some (lit "Unassigned")
                  else none)
                s.unassigned,
          )
          (omega
            (arith, sort_bots-count ids bots new d, no_members ids [] (λ k. get-none k [] refl)))
    where
      ids : List Text
      ids = map (λ section. section.id) sections

      new : Sorted A
      new = record { pinned = []; section_members = []; unassigned = [] }

      s : Sorted A
      s = sort_bots ids bots new

      last : List (BotListSection (SectionedBot A))
      last =
          shown (lit "unassigned")
            (if ltb 0 (length s.pinned) || ltb 0 (length sections)
              then some (lit "Unassigned")
              else none)
            s.unassigned
