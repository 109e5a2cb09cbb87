-- ===== src/Composer/Tests.antt =====
-- The message box at concrete inputs.
use rakazo.Common.{true, false, List, [], ◌∷◌, none, some, Text, lit, All}
use rakazo.Composer.{
  ComposerMention, ComposerMentionKind, routine_kind, connector_kind, group_kind, needs_auth,
  resolve_composer_send_plan,
}
use rakazo.Composer.Plan.{IsSendable, payload-IsSendable}
use rakazo.Composer.Options.{OptionInput}

abbrev keep : Text → Text → Text
keep text name = text

abbrev chip : ComposerMentionKind → Text → ComposerMention
chip kind id = record {
  kind = kind;
  id = id;
  name = id;
  subtitle = none;
  color = none;
  bot_id = none;
  connection_id = none;
  auth_status = some needs_auth;
}

abbrev chips : List ComposerMention
chips =
    chip routine_kind (lit "daily")
    ∷ chip connector_kind (lit "gmail")
    ∷ chip routine_kind (lit "daily")
    ∷ chip group_kind (lit "team")
    ∷ []

payload-IsSendable_example :
    All IsSendable (resolve_composer_send_plan keep (lit "go") chips false).mention_payload
payload-IsSendable_example = payload-IsSendable keep (lit "go") chips false

abbrev same : Text → Text
same s = s

abbrev input : OptionInput
input = record {
  query = [];
  bots = [];
  groups =
      record { id = lit "g"; name = lit "Team" } ∷ record { id = lit "h"; name = lit "Other" } ∷ [];
  routines = [];
  connectors = [];
  current_group_id = some (lit "g");
  include_everyone = true;
  limit = some 5;
}
