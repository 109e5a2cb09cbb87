-- ===== src/Composer/Options.antt =====
-- packages/core/src/composer-mentions.ts, `buildComposerMentionOptions`: the options of the `@` picker.
use rakazo.Common.{
  ℕ, zero, suc, ltb, Bool, true, false, not, ◌&&◌, ◌||◌, List, [], ◌∷◌, ◌++◌, map, Option, none,
  some, Text, lit, text_eq, is_empty, starts_with, trim, truthy, take, select, Dict, get, put,
  if◌then◌else◌, ◌≡◌, refl, arith, All, All-append, Bool-cases, inl, inr,
}
use rakazo.Composer.{
  ComposerMention, AuthStatus, connected, needs_auth, bot_kind, group_kind, routine_kind,
  connector_kind, everyone_kind, is_kind, MentionPickerBot, MentionPickerGroup,
  MentionPickerRoutine, MentionPickerConnector, routine_schedule_subtitle,
}

pub record OptionInput : Type 0 where
  pub query : Text
  pub bots : List MentionPickerBot
  pub groups : List MentionPickerGroup
  pub routines : List MentionPickerRoutine
  pub connectors : List MentionPickerConnector
  pub current_group_id : Option Text
  pub include_everyone : Bool
  pub limit : Option ℕ

abbrev count_of : Option ℕ → ℕ
count_of none = 0
count_of (some n) = n

abbrev is_text : Option Text → Text → Bool
is_text none s = false
is_text (some t) s = text_eq s t

abbrev status_text : AuthStatus → Text
status_text connected = lit "Connected"
status_text needs_auth = lit "Needs auth"

module _ (to_lower_case : Text → Text) where
  abbrev matches : Text → Text → Bool
  matches query name = is_empty query || starts_with (to_lower_case name) query

  pub everyone_option : Text → Bool → List ComposerMention
  everyone_option query include_everyone =
      if include_everyone && matches query (lit "everyone")
      then record {
        kind = everyone_kind;
        id = lit "everyone";
        name = lit "everyone";
        subtitle = some (lit "Everyone in this group");
        color = some (lit "#85858A");
        bot_id = none;
        connection_id = none;
        auth_status = none;
      }
        ∷ []
      else []

  pub bot_option : MentionPickerBot → ComposerMention
  bot_option bot = record {
    kind = bot_kind;
    id = bot.id;
    name = bot.name;
    subtitle = some (lit "Bot");
    color = bot.color;
    bot_id = none;
    connection_id = none;
    auth_status = none;
  }

  pub group_option : MentionPickerGroup → ComposerMention
  group_option group = record {
    kind = group_kind;
    id = group.id;
    name = group.name;
    subtitle = some (lit "Group");
    color = none;
    bot_id = none;
    connection_id = none;
    auth_status = none;
  }

  -- The two tests that skip a group
  pub is_offered : Text → Option Text → MentionPickerGroup → Bool
  is_offered query current_group_id group =
      not (truthy current_group_id && is_text current_group_id group.id) && matches query group.name

  pub count_names : Dict ℕ → List MentionPickerRoutine → Dict ℕ
  count_names counts [] = counts
  count_names counts (routine ∷ routines) =
      let key = to_lower_case routine.name in
      count_names (put key (suc (count_of (get key counts))) counts) routines

  pub routine_option : Dict ℕ → MentionPickerRoutine → ComposerMention
  unfolding routine_schedule_subtitle
  routine_option counts routine =
      let duplicate = ltb 1 (count_of (get (to_lower_case routine.name) counts)) in
      record {
        kind = routine_kind;
        id = routine.id;
        name = routine.name;
        subtitle = some (
            routine_schedule_subtitle routine.crons (if duplicate then routine.bot_name else none));
        color = none;
        bot_id = some routine.bot_id;
        connection_id = none;
        auth_status = none;
      }

  pub connector_option : MentionPickerConnector → ComposerMention
  connector_option connector = record {
    kind = connector_kind;
    id = connector.id;
    name = connector.name;
    subtitle = some (status_text connector.auth_status);
    color = none;
    bot_id = none;
    connection_id = connector.connection_id;
    auth_status = some connector.auth_status;
  }

  pub every_option : OptionInput → List ComposerMention
  unfolding everyone_option bot_option group_option is_offered count_names routine_option
      connector_option
  every_option input =
      let query = to_lower_case (trim input.query) in
      everyone_option query input.include_everyone
      ++ (map bot_option (select (λ bot. matches query bot.name) input.bots)
          ++ (map group_option (select (is_offered query input.current_group_id) input.groups)
              ++ (map (routine_option (count_names [] input.routines))
                    (select (λ routine. matches query routine.name) input.routines)
                  ++ map connector_option
                      (select (λ connector. matches query connector.name) input.connectors))))

  -- `options.slice(0, limit)`
  abbrev cut : Option ℕ → List ComposerMention → List ComposerMention
  cut none options = options
  cut (some limit) options = take limit options

  pub build_composer_mention_options : OptionInput → List ComposerMention
  unfolding every_option
  build_composer_mention_options input = cut input.limit (every_option input)

  -- An option other than the group that is open.
  abbrev pub IsElsewhere : Text → ComposerMention → Type 0
  IsElsewhere current option =
      is_kind option.kind group_kind ≡ true → text_eq option.id current ≡ false

  take-All :
      (P : ComposerMention → Type 0) (n : ℕ) (xs : List ComposerMention)
      → All P xs
      → All P (take n xs)
  take-All P zero xs h = tt
  take-All P (suc n) [] h = tt
  take-All P (suc n) (x ∷ xs) h = (h.0, take-All P n xs h.1)

  cut-All :
      (P : ComposerMention → Type 0) (o : Option ℕ) (xs : List ComposerMention)
      → All P xs
      → All P (cut o xs)
  cut-All P none xs h = h
  cut-All P (some n) xs h = take-All P n xs h

  other_kind :
      {A : Type 0} (current : Text) (f : A → ComposerMention) (xs : List A)
      → ((x : A) → is_kind (f x).kind group_kind ≡ false)
      → All (IsElsewhere current) (map f xs)
  other_kind current f [] h = tt
  other_kind current f (x ∷ xs) h = ((λ g. ground (arith, h x)), other_kind current f xs h)

  groups-IsElsewhere :
      (query current : Text) (groups : List MentionPickerGroup)
      → is_empty current ≡ false
      → All
          (IsElsewhere current)
          (map group_option (select (is_offered query (some current)) groups))
  unfolding group_option is_offered
  groups-IsElsewhere query current [] h = tt
  groups-IsElsewhere query current (group ∷ groups) h =
      elim (Bool-cases (is_offered query (some current) group)) [
        | inl e ↦ rw e ((λ g. ground arith), groups-IsElsewhere query current groups h)
        | inr e ↦ rw e (groups-IsElsewhere query current groups h)
      ]

  All-IsElsewhere :
      (input : OptionInput) (current : Text)
      → is_empty current ≡ false
      → input.current_group_id ≡ some current
      → All (IsElsewhere current) (every_option input)
  unfolding every_option everyone_option bot_option routine_option connector_option is_kind
  All-IsElsewhere input current h e =
      All-append (IsElsewhere current) (everyone_option query input.include_everyone) _
        (everyone_elsewhere (input.include_everyone && matches query (lit "everyone")))
        (All-append (IsElsewhere current)
          (map bot_option (select (λ bot. matches query bot.name) input.bots)) _
          (other_kind current bot_option (select (λ bot. matches query bot.name) input.bots)
            (λ b. refl))
          (All-append (IsElsewhere current)
            (map group_option (select (is_offered query input.current_group_id) input.groups)) _
            (rw e (groups-IsElsewhere query current input.groups h))
            (All-append (IsElsewhere current)
              (map (routine_option counts)
                (select (λ routine. matches query routine.name) input.routines))
              _
              (other_kind current (routine_option counts)
                (select (λ routine. matches query routine.name) input.routines) (λ r. refl))
              (other_kind current connector_option
                (select (λ connector. matches query connector.name) input.connectors)
                (λ c. refl)))))
    where
      query : Text
      query = to_lower_case (trim input.query)

      counts : Dict ℕ
      counts = count_names [] input.routines

      everyone_elsewhere :
          (b : Bool)
          → All (IsElsewhere current) (
              if b
              then record {
                kind = everyone_kind;
                id = lit "everyone";
                name = lit "everyone";
                subtitle = some (lit "Everyone in this group");
                color = some (lit "#85858A");
                bot_id = none;
                connection_id = none;
                auth_status = none;
              }
                ∷ []
              else [])
      everyone_elsewhere true = ((λ g. ground arith), tt)
      everyone_elsewhere false = tt

  -- Inside a group, whose id is not empty, the picker offers no group of that id.
  pub picker_omits_open_group :
      (input : OptionInput) (current : Text)
      → is_empty current ≡ false
      → input.current_group_id ≡ some current
      → All (IsElsewhere current) (build_composer_mention_options input)
  unfolding build_composer_mention_options
  picker_omits_open_group input current h e =
      cut-All (IsElsewhere current) input.limit (every_option input)
        (All-IsElsewhere input current h e)
