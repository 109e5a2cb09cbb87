-- ===== src/Cron/Next/Tests.antt =====
-- Three schedules, one of which the library refuses.
use rakazo.Common.{
  ℕ, Bool, true, List, [], ◌∷◌, Option, some, Text, lit, text_eq, if◌then◌else◌, Result, ok, err,
  ◌≡◌,
}
use rakazo.Cron.Next.{CronError, refused, next_cron_date_across, next_cron_date_across_strict}
use rakazo.Cron.Next.Earliest.{
  IsEarliest, next_runs, first_refusal, refused_or, across-IsEarliest, strict_refuses_first,
}

abbrev test_run : Text → Text → ℕ → Result CronError (Option ℕ)
test_run cron timezone from =
    if text_eq cron (lit "0 * * * *")
    then ok (some 60)
    else if text_eq cron (lit "*/5 * * * *")
    then ok (some 5)
    else err (refused cron)

abbrev known : Text → Bool
known timezone = true

abbrev test_crons : List Text
test_crons = lit "0 * * * *" ∷ lit "9 9 9 9 x" ∷ lit "*/5 * * * *" ∷ []

across-IsEarliest_example :
    IsEarliest
      (next_runs test_run known 0 (lit "UTC") test_crons)
      (next_cron_date_across test_run known test_crons 0 (lit "UTC"))
across-IsEarliest_example = across-IsEarliest test_run known 0 (lit "UTC") test_crons

strict_refuses_first_example :
    next_cron_date_across_strict test_run known test_crons 0 (lit "UTC")
    ≡ refused_or
        (first_refusal test_run known 0 (lit "UTC") test_crons)
        (next_cron_date_across test_run known test_crons 0 (lit "UTC"))
strict_refuses_first_example = strict_refuses_first test_run known 0 (lit "UTC") test_crons
