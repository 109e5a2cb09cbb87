-- ===== src/Cron/Presets.antt =====
-- packages/core/src/cron.ts: presets, the expressions they become, and the presets and texts that an
-- expression is shown as. An input leaves out what it does not set; `n` is a whole number. What the host
-- prints for a time of day that is no plain numbers is the argument `odd_clock`, its hour and its minute.
pub mod Clocks
mod Tests
use rakazo.Common.{
  ℕ, ◌==◌, ltb, leb, Bool, true, false, ◌&&◌, ◌||◌, not, List, [], ◌∷◌, ◌++◌, Option, none, some,
  Text, lit, text_eq, is_empty, trim, truthy, or_empty, is_some, length, select, join, show,
  if◌then◌else◌, any,
}
use rakazo.Cron.Fields.{
  Clock, split_spaces, is_int, step_value, int_value, parse_clock, format_clock,
}

abbrev pub once_routine_cron : Text
once_routine_cron = lit "@once"

pub is_one_shot_routine_cron : Text → Bool
is_one_shot_routine_cron cron = text_eq (trim cron) once_routine_cron

abbrev first_or_empty : List Text → Text
first_or_empty [] = []
first_or_empty (c ∷ cs) = c

pub is_one_shot_routine_crons : List Text → Bool
unfolding is_one_shot_routine_cron
is_one_shot_routine_crons crons =
    length crons == 1 && is_one_shot_routine_cron (first_or_empty crons)

pub has_mixed_one_shot_schedule : List Text → Bool
unfolding is_one_shot_routine_cron
has_mixed_one_shot_schedule crons = ltb 1 (length crons) && any is_one_shot_routine_cron crons

pub data CronFreq : Type 0 where
  every_hour every_day weekdays every_week every_month interval advanced : CronFreq

pub data CronUnit : Type 0 where
  minutes hours days : CronUnit

pub record CronPreset : Type 0 where
  pub freq : CronFreq
  pub n : ℕ
  pub unit : CronUnit
  pub time : Text
  pub cron : Text

pub record CronPresetInput : Type 0 where
  pub freq : CronFreq
  pub n : Option ℕ
  pub unit : Option CronUnit
  pub time : Option Text
  pub cron : Option Text

pub default_cron_preset : CronPreset
default_cron_preset = record {
  freq = every_day;
  n = 3;
  unit = minutes;
  time = lit "9:00 AM";
  cron = [];
}

abbrev trimmed : Option Text → Option Text
trimmed none = none
trimmed (some cron) = some (trim cron)

advanced_cron : Option Text → Text
unfolding is_one_shot_routine_cron
advanced_cron cron =
    if truthy cron && is_one_shot_routine_cron (or_empty cron)
    then once_routine_cron
    else if truthy cron
    then or_empty cron
    else lit "*/3 * * * *"

abbrev interval_length : Option ℕ → ℕ
interval_length none = 5
interval_length (some n) = if n == 0 then 5 else n

interval_cron : Option CronUnit → ℕ → Text
interval_cron (some days) n = lit "0 0 */" ++ (show n ++ lit " * *")
interval_cron (some hours) n = lit "0 */" ++ (show n ++ lit " * * *")
interval_cron _ n = lit "*/" ++ (show n ++ lit " * * * *")

abbrev printed_clock : (Text → Text × Text) → Text → Option Clock → Text × Text
printed_clock odd_clock time none = odd_clock time
printed_clock odd_clock time (some clock) = (show clock.hour, show clock.minute)

abbrev or_nine : Option Text → Text
or_nine none = lit "9:00 AM"
or_nine (some time) = time

-- The last three fields of a schedule by the clock.
abbrev days_of : CronFreq → Text
days_of weekdays = lit " * * 1-5"
days_of every_week = lit " * * 1"
days_of every_month = lit " 1 * *"
days_of _ = lit " * * *"

clock_cron : (Text → Text × Text) → CronFreq → Text → Text
unfolding parse_clock
clock_cron odd_clock freq time =
    let (hour, minute) = printed_clock odd_clock time (parse_clock time) in
    minute ++ (lit " " ++ (hour ++ days_of freq))

pub cron_from_preset : (Text → Text × Text) → CronPresetInput → Text
unfolding advanced_cron interval_cron clock_cron
cron_from_preset odd_clock input = elim input.freq [
  | advanced ↦ advanced_cron (trimmed input.cron)
  | every_hour ↦ lit "0 * * * *"
  | interval ↦ interval_cron input.unit (interval_length input.n)
  | weekdays ↦ clock_cron odd_clock weekdays (or_nine input.time)
  | every_week ↦ clock_cron odd_clock every_week (or_nine input.time)
  | every_month ↦ clock_cron odd_clock every_month (or_nine input.time)
  | every_day ↦ clock_cron odd_clock every_day (or_nine input.time)
]

advanced_preset : Text → CronPreset
unfolding default_cron_preset
advanced_preset cron = record default_cron_preset { freq = advanced; cron = cron }

interval_preset : ℕ → CronUnit → CronPreset
unfolding default_cron_preset
interval_preset n unit = record default_cron_preset { freq = interval; n = n; unit = unit }

abbrev or_zero : Option ℕ → ℕ
or_zero none = 0
or_zero (some n) = n

abbrev is_star : Text → Bool
is_star field = text_eq field (lit "*")

abbrev is_zero : Text → Bool
is_zero field = text_eq field (lit "0")

abbrev clock_freq : Text → Text → Option CronFreq
clock_freq day dow =
    if is_star day && text_eq dow (lit "1-5")
    then some weekdays
    else if is_star day && text_eq dow (lit "1")
    then some every_week
    else if text_eq day (lit "1") && is_star dow
    then some every_month
    else if is_star day && is_star dow
    then some every_day
    else none

abbrev clock_preset : Text → Text → Option CronFreq → CronPreset
clock_preset cron time none = advanced_preset cron
clock_preset cron time (some freq) = record default_cron_preset { freq = freq; time = time }

-- The preset of the five fields of `cron`, whose month is `*`.
fields_preset : Text → Text → Text → Text → Text → CronPreset
unfolding advanced_preset interval_preset default_cron_preset is_int step_value
fields_preset cron minute hour day dow =
    if is_zero minute && is_star hour && is_star day && is_star dow
    then record default_cron_preset { freq = every_hour }
    else if is_some (step_value minute) && is_star hour && is_star day && is_star dow
    then interval_preset (or_zero (step_value minute)) minutes
    else if is_zero minute && is_some (step_value hour) && is_star day && is_star dow
    then interval_preset (or_zero (step_value hour)) hours
    else if is_zero minute && is_zero hour && is_some (step_value day) && is_star dow
    then interval_preset (or_zero (step_value day)) days
    else if not (is_int minute) || not (is_int hour)
    then advanced_preset cron
    else clock_preset cron (format_clock (or_zero (int_value hour)) (or_zero (int_value minute)))
        (clock_freq day dow)

split_preset : Text → List Text → CronPreset
unfolding fields_preset advanced_preset
split_preset cron (minute ∷ hour ∷ day ∷ month ∷ dow ∷ more) =
    if is_star month then fields_preset cron minute hour day dow else advanced_preset cron
split_preset cron _ = advanced_preset cron

pub preset_from_cron : Text → CronPreset
unfolding split_preset is_one_shot_routine_cron advanced_preset split_spaces
preset_from_cron cron =
    let stripped = trim cron in
    if is_one_shot_routine_cron stripped
    then advanced_preset once_routine_cron
    else split_preset stripped (split_spaces stripped)

abbrev unit_name : CronUnit → Text
unit_name minutes = lit "minutes"
unit_name hours = lit "hours"
unit_name days = lit "days"

-- The lead and the detail.
describe_cron_preset : CronPreset → Text × Text
describe_cron_preset preset = elim preset.freq [
  | interval ↦ (lit "Every", show preset.n ++ (lit " " ++ unit_name preset.unit))
  | every_hour ↦ (lit "Every hour", [])
  | advanced ↦ (lit "Cron", if is_empty preset.cron then lit "*/3 * * * *" else preset.cron)
  | weekdays ↦ (lit "Weekdays", lit "at " ++ preset.time)
  | every_week ↦ (lit "Every Monday", lit "at " ++ preset.time)
  | every_month ↦ (lit "Monthly", lit "on the 1st at " ++ preset.time)
  | every_day ↦ (lit "Every day", lit "at " ++ preset.time)
]

pub format_schedule : CronPreset → Text
unfolding describe_cron_preset
format_schedule preset =
    let (lead, detail) = describe_cron_preset preset in
    join (lit " ") (select (λ t. not (is_empty t)) (lead ∷ detail ∷ []))

pub format_cron : Text → Text
unfolding is_one_shot_routine_cron
format_cron cron =
    if is_one_shot_routine_cron cron
    then lit "One-time"
    else format_schedule (preset_from_cron cron)
