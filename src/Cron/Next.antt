-- ===== src/Cron/Next.antt =====
-- packages/core/src/cron.ts: when a routine runs next. The cron library is the argument `next_run`: an
-- expression, a time zone and a time give the next run, none, or a refusal of the expression. Whether the
-- host knows a time zone is the argument `is_timezone`. A `Date` is its time in milliseconds.
pub mod Earliest
mod Tests
use rakazo.Common.{
  ℕ, ltb, ◌==◌, not, Bool, true, false, List, [], ◌∷◌, Option, none, some, Text, lit, trim, length,
  if◌then◌else◌, Result, ok, err,
}
use rakazo.Cron.Fields.{split_spaces}
use rakazo.Cron.Presets.{is_one_shot_routine_cron}

pub data CronError : Type 0 where
  one_shot : CronError
  not_five_fields : CronError
  refused : Text → CronError
  no_future_run : Text → CronError

abbrev earlier : Option ℕ → ℕ → Option ℕ
earlier none next = some next
earlier (some earliest) next = if ltb next earliest then some next else some earliest

abbrev found : Text → Result CronError (Option ℕ) → Result CronError ℕ
found cron (err e) = err e
found cron (ok none) = err (no_future_run cron)
found cron (ok (some next)) = ok next

abbrev as_found : Result CronError ℕ → Result CronError (Option ℕ)
as_found (ok next) = ok (some next)
as_found (err e) = err e

-- What the lenient loop has found after the date of one cron.
abbrev lenient : Option ℕ → Result CronError ℕ → Option ℕ
lenient earliest (ok next) = earlier earliest next
lenient earliest (err e) = earliest

-- What the strict loop does with the date of one cron.
abbrev strict :
    (Option ℕ → Result CronError (Option ℕ))
    → Option ℕ
    → Result CronError ℕ
    → Result CronError (Option ℕ)
strict go_on earliest (ok next) = go_on (earlier earliest next)
strict go_on earliest (err e) = err e

module _ (next_run : Text → Text → ℕ → Result CronError (Option ℕ))
    (is_timezone : Text → Bool) where
  valid_timezone_or_utc : Text → Text
  valid_timezone_or_utc timezone = if is_timezone timezone then timezone else lit "UTC"

  pub next_cron_date : Text → ℕ → Text → Result CronError ℕ
  unfolding valid_timezone_or_utc
  next_cron_date cron from timezone =
      if is_one_shot_routine_cron cron
      then err one_shot
      else if not (length (split_spaces (trim cron)) == 5)
      then err not_five_fields
      else found cron (next_run cron (valid_timezone_or_utc timezone) from)

  pub resolve_routine_next_run_at : Text → ℕ → Text → Option ℕ → Result CronError (Option ℕ)
  unfolding next_cron_date
  resolve_routine_next_run_at cron from timezone existing =
      if is_one_shot_routine_cron cron
      then ok existing
      else as_found (next_cron_date cron from timezone)

  across_from : Option ℕ → List Text → ℕ → Text → Option ℕ
  unfolding next_cron_date
  across_from earliest [] from timezone = earliest
  across_from earliest (cron ∷ crons) from timezone =
      across_from
        (if is_one_shot_routine_cron cron
          then earliest
          else lenient earliest (next_cron_date cron from timezone))
        crons from timezone

  pub next_cron_date_across : List Text → ℕ → Text → Option ℕ
  unfolding across_from
  next_cron_date_across crons from timezone = across_from none crons from timezone

  strict_from : Option ℕ → List Text → ℕ → Text → Result CronError (Option ℕ)
  unfolding next_cron_date
  strict_from earliest [] from timezone = ok earliest
  strict_from earliest (cron ∷ crons) from timezone =
      if is_one_shot_routine_cron cron
      then strict_from earliest crons from timezone
      else strict (λ e. strict_from e crons from timezone) earliest
          (next_cron_date cron from timezone)

  pub next_cron_date_across_strict : List Text → ℕ → Text → Result CronError (Option ℕ)
  unfolding strict_from
  next_cron_date_across_strict crons from timezone = strict_from none crons from timezone
