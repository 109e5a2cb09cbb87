-- ===== src/Composer.antt =====
-- packages/core/src/composer-mentions.ts: what a message box does with its text and the chips that are
-- mentioned in it. The texts that a regular expression or `toLowerCase` decides are the host's: the
-- removal of one mention from the text (`stripMentionToken`) and case folding are arguments.
pub mod Options
pub mod Plan
mod Tests
use rakazo.Common.{
  ℕ, suc, ◌+◌, ltb, ◌==◌, Bool, true, false, not, ◌&&◌, ◌||◌, List, [], ◌∷◌, ◌++◌, map, Option,
  none, some, Text, lit, text_eq, has, is_empty, starts_with, trim, truthy, or_empty, unique, join,
  any, length, take, drop, select, find_first, if◌then◌else◌,
}
use rakazo.Cron.Presets.{format_cron}

pub data ComposerMentionKind : Type 0 where
  bot_kind : ComposerMentionKind
  group_kind : ComposerMentionKind
  routine_kind : ComposerMentionKind
  connector_kind : ComposerMentionKind
  everyone_kind : ComposerMentionKind

pub data AuthStatus : Type 0 where
  connected : AuthStatus
  needs_auth : AuthStatus

pub record ComposerMention : Type 0 where
  pub kind : ComposerMentionKind
  pub id : Text
  pub name : Text
  pub subtitle : Option Text
  pub color : Option Text
  pub bot_id : Option Text
  pub connection_id : Option Text
  pub auth_status : Option AuthStatus

pub record MentionPickerBot : Type 0 where
  pub id : Text
  pub name : Text
  pub color : Option Text

pub record MentionPickerGroup : Type 0 where
  pub id : Text
  pub name : Text

pub record MentionPickerRoutine : Type 0 where
  pub id : Text
  pub name : Text
  pub crons : List Text
  pub bot_id : Text
  pub bot_name : Option Text

pub record MentionPickerConnector : Type 0 where
  pub id : Text
  pub name : Text
  pub auth_status : AuthStatus
  pub connection_id : Option Text

-- `a.kind === b`
pub is_kind : ComposerMentionKind → ComposerMentionKind → Bool
is_kind bot_kind bot_kind = true
is_kind group_kind group_kind = true
is_kind routine_kind routine_kind = true
is_kind connector_kind connector_kind = true
is_kind everyone_kind everyone_kind = true
is_kind a b = false

kind_text : ComposerMentionKind → Text
kind_text bot_kind = lit "bot"
kind_text group_kind = lit "group"
kind_text routine_kind = lit "routine"
kind_text connector_kind = lit "connector"
kind_text everyone_kind = lit "everyone"

mention_chip_key : ComposerMention → Text
unfolding kind_text
mention_chip_key mention = kind_text mention.kind ++ (lit ":" ++ mention.id)

abbrev includes_kind : List ComposerMentionKind → ComposerMentionKind → Bool
unfolding is_kind
includes_kind kinds kind = any (λ k. is_kind k kind) kinds

-- The loop of `stripMentionKinds`
strip_each : (Text → Text → Text) → List ComposerMentionKind → List ComposerMention → Text → Text
unfolding includes_kind
strip_each strip_mention_token kinds [] result = result
strip_each strip_mention_token kinds (mention ∷ mentions) result =
    strip_each strip_mention_token kinds mentions
      (if includes_kind kinds mention.kind then strip_mention_token result mention.name else result)

strip_mention_kinds :
    (Text → Text → Text) → Text → List ComposerMention → List ComposerMentionKind → Text
unfolding strip_each
strip_mention_kinds strip_mention_token text mentions kinds =
    trim (strip_each strip_mention_token kinds mentions text)

pub record Partition : Type 0 where
  pub bots : List ComposerMention
  pub groups : List ComposerMention
  pub routines : List ComposerMention
  pub connectors : List ComposerMention
  pub everyone : Bool

-- One turn of the loop: the mention goes to the end of its list.
pub sort_mention : ComposerMentionKind → ComposerMention → Partition → Partition
sort_mention bot_kind mention p = record p { bots = p.bots ++ mention ∷ [] }
sort_mention group_kind mention p = record p { groups = p.groups ++ mention ∷ [] }
sort_mention routine_kind mention p = record p { routines = p.routines ++ mention ∷ [] }
sort_mention connector_kind mention p = record p { connectors = p.connectors ++ mention ∷ [] }
sort_mention everyone_kind mention p = record p { everyone = true }

pub partition_from : Partition → List ComposerMention → Partition
unfolding sort_mention
partition_from p [] = p
partition_from p (mention ∷ mentions) =
    partition_from (sort_mention mention.kind mention p) mentions

pub partition_composer_mentions : List ComposerMention → Partition
unfolding partition_from
partition_composer_mentions mentions =
    partition_from
      (record { bots = []; groups = []; routines = []; connectors = []; everyone = false }) mentions

-- An entry of the payload: its kind and id
pub record PayloadEntry : Type 0 where
  pub kind : ComposerMentionKind
  pub id : Text

-- `mention.connectionId ?? mention.id`
abbrev pub connection_of : ComposerMention → Text
connection_of mention = elim mention.connection_id [ none ↦ mention.id | some id ↦ id ]

abbrev pub is_needs_auth : Option AuthStatus → Bool
is_needs_auth none = false
is_needs_auth (some connected) = false
is_needs_auth (some needs_auth) = true

abbrev pub connector_entry : ComposerMention → List PayloadEntry
connector_entry mention =
    if is_needs_auth mention.auth_status && not (truthy mention.connection_id)
    then []
    else if is_empty (connection_of mention) || starts_with (connection_of mention) (lit "catalog:")
    then []
    else record { kind = connector_kind; id = connection_of mention } ∷ []

pub payload_entry : ComposerMentionKind → ComposerMention → List PayloadEntry
payload_entry everyone_kind mention = []
payload_entry bot_kind mention = record { kind = bot_kind; id = mention.id } ∷ []
payload_entry group_kind mention = record { kind = group_kind; id = mention.id } ∷ []
payload_entry routine_kind mention = record { kind = routine_kind; id = mention.id } ∷ []
payload_entry connector_kind mention = connector_entry mention

pub to_thread_mention_payload : List ComposerMention → List PayloadEntry
unfolding payload_entry
to_thread_mention_payload [] = []
to_thread_mention_payload (mention ∷ mentions) =
    payload_entry mention.kind mention ++ to_thread_mention_payload mentions

-- `filter(Boolean)`
abbrev filled : List Text → List Text
filled names = select (λ name. not (is_empty name)) names

connector_intent_line : List Text → Text
connector_intent_line names =
    let distinct = unique (filled (map trim names)) in
    if length distinct == 0
    then []
    else lit "Use these connectors if relevant: " ++ (join (lit ", ") distinct ++ lit ".")

needs_auth_connector_names : List ComposerMention → List Text
unfolding is_kind
needs_auth_connector_names mentions =
    map (λ mention. mention.name)
      (select (λ mention. is_kind mention.kind connector_kind && is_needs_auth mention.auth_status)
        mentions)

append_connector_intent : Text → List Text → Text
unfolding connector_intent_line
append_connector_intent text names =
    let line = connector_intent_line names in
    if is_empty line
    then trim text
    else if is_empty (trim text)
    then line
    else trim text ++ (10 ∷ 10 ∷ line)

-- `botName?.trim()`
abbrev pub trimmed : Option Text → Text
trimmed none = []
trimmed (some s) = trim s

-- The schedule, and the bot it runs on where a name is given
pub routine_schedule_subtitle : List Text → Option Text → Text
routine_schedule_subtitle crons bot_name =
    let schedule = join (lit " · ") (map format_cron crons) in
    if is_empty (trimmed bot_name) then schedule else schedule ++ (lit " · " ++ trimmed bot_name)

-- `groups[0]`
abbrev head? : List ComposerMention → Option ComposerMention
head? [] = none
head? (mention ∷ mentions) = some mention

pub record SendPlan : Type 0 where
  pub trimmed : Text
  pub routine_ids : List Text
  pub reroute_group_id : Option Text
  pub reroute_group_name : Option Text
  pub mention_payload : List PayloadEntry
  pub should_send : Bool
  pub should_open_group : Bool
  pub should_run_routines : Bool
  pub is_no_op : Bool

abbrev id_of : Option ComposerMention → Option Text
id_of none = none
id_of (some mention) = some mention.id

abbrev name_of : Option ComposerMention → Option Text
name_of none = none
name_of (some mention) = some mention.name

-- The text that is sent
composed_text : (Text → Text → Text) → Text → List ComposerMention → Text
unfolding strip_mention_kinds append_connector_intent needs_auth_connector_names
    partition_composer_mentions
composed_text strip_mention_token text mentions =
    let stripped =
      strip_mention_kinds strip_mention_token (trim text) mentions
        (group_kind ∷ routine_kind ∷ connector_kind ∷ []) in
    let trimmed = append_connector_intent stripped (needs_auth_connector_names mentions) in
    let connectors = (partition_composer_mentions mentions).connectors in
    if is_empty trimmed && not (length connectors == 0)
    then join (lit " ") (map (λ mention. 64 ∷ mention.name) connectors)
    else trimmed

pub resolve_composer_send_plan :
    (Text → Text → Text) → Text → List ComposerMention → Bool → SendPlan
unfolding composed_text partition_composer_mentions to_thread_mention_payload is_kind
resolve_composer_send_plan strip_mention_token text mentions has_attachments =
    let parts = partition_composer_mentions mentions in
    let trimmed = composed_text strip_mention_token text mentions in
    let routine_ids = unique (map (λ routine. routine.id) parts.routines) in
    let should_send = not (is_empty trimmed) || has_attachments in
    let should_open_group = not (length parts.groups == 0) in
    let should_run_routines = ltb 0 (length routine_ids) in
    record {
      trimmed = trimmed;
      routine_ids = routine_ids;
      reroute_group_id = id_of (head? parts.groups);
      reroute_group_name = name_of (head? parts.groups);
      mention_payload = to_thread_mention_payload (
          select
            (λ mention.
              not (is_kind mention.kind group_kind) && not (is_kind mention.kind routine_kind))
            mentions);
      should_send = should_send;
      should_open_group = should_open_group;
      should_run_routines = should_run_routines;
      is_no_op = not should_send && not should_open_group && not should_run_routines;
    }
