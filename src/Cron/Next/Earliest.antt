-- ===== src/Cron/Next/Earliest.antt =====
-- The next run across several schedules is the earliest that any of them has, and the strict version
-- fails exactly where a schedule does.
use rakazo.Common.{
  ℕ, ◌≤◌, ltb, Bool, true, false, List, [], ◌∷◌, Option, none, some, Text, All, if◌then◌else◌,
  Result, ok, err, ◌≡◌, ◌⊎◌, refl, inl, inr, arith,
}
use rakazo.Cron.Presets.{is_one_shot_routine_cron}
use rakazo.Cron.Next.{
  CronError, earlier, lenient, strict, next_cron_date, across_from, next_cron_date_across,
  strict_from, next_cron_date_across_strict,
}

-- `t` is one of the times.
abbrev pub IsOneOf : ℕ → List ℕ → Type 0
IsOneOf t [] = false ≡ true
IsOneOf t (x ∷ xs) = (t ≡ x) ⊎ IsOneOf t xs

-- None of no times, else one of them that none is before.
abbrev pub IsEarliest : List ℕ → Option ℕ → Type 0
IsEarliest times none = times ≡ []
IsEarliest times (some t) = IsOneOf t times × All (λ x. t ≤ x) times

cons-ne-nil : (x : ℕ) (xs : List ℕ) → ¬ (x ∷ xs ≡ [])
cons-ne-nil x xs h = ground arith

abbrev with_date : Result CronError ℕ → List ℕ → List ℕ
with_date (ok next) times = next ∷ times
with_date (err e) times = times

abbrev first_of : Result CronError ℕ → Option CronError → Option CronError
first_of (ok next) later = later
first_of (err e) later = some e

abbrev pub refused_or : Option CronError → Option ℕ → Result CronError (Option ℕ)
refused_or none earliest = ok earliest
refused_or (some e) earliest = err e

abbrev or_times : Option ℕ → List ℕ → List ℕ
or_times none times = times
or_times (some t) times = t ∷ times

kept-IsEarliest :
    (b : Bool) (t next : ℕ) (times : List ℕ) (o : Option ℕ)
    → ltb next t ≡ b
    → IsEarliest (or_times (if b then some next else some t) times) o
    → IsEarliest (t ∷ next ∷ times) o
kept-IsEarliest true t next times none e h = absurd (cons-ne-nil next times h)
kept-IsEarliest true t next times (some r) e (one, (low, rest)) =
    (inr one, (ground (arith, e, low), (low, rest)))
kept-IsEarliest false t next times none e h = absurd (cons-ne-nil t times h)
kept-IsEarliest false t next times (some r) e (inl same, (low, rest)) =
    (inl same, (low, (ground (arith, e, low), rest)))
kept-IsEarliest false t next times (some r) e (inr one, (low, rest)) =
    (inr (inr one), (low, (ground (arith, e, low), rest)))

earlier-IsEarliest :
    (e : Option ℕ) (next : ℕ) (times : List ℕ) (o : Option ℕ)
    → IsEarliest (or_times (earlier e next) times) o
    → IsEarliest (or_times e (next ∷ times)) o
earlier-IsEarliest none next times o h = h
earlier-IsEarliest (some t) next times o h = kept-IsEarliest (ltb next t) t next times o refl h

module _ (next_run : Text → Text → ℕ → Result CronError (Option ℕ)) (is_timezone : Text → Bool)
    (from : ℕ) (timezone : Text) where
  abbrev pub date_of : Text → Result CronError ℕ
  date_of cron = next_cron_date next_run is_timezone cron from timezone

  -- The next runs of the schedules that recur and have one.
  pub next_runs : List Text → List ℕ
  next_runs [] = []
  next_runs (cron ∷ crons) =
      if is_one_shot_routine_cron cron
      then next_runs crons
      else with_date (date_of cron) (next_runs crons)

  -- The first refusal among the schedules that recur.
  pub first_refusal : List Text → Option CronError
  first_refusal [] = none
  first_refusal (cron ∷ crons) =
      if is_one_shot_routine_cron cron
      then first_refusal crons
      else first_of (date_of cron) (first_refusal crons)

  across_step :
      (b : Bool) (d : Result CronError ℕ) (e : Option ℕ) (times : List ℕ)
      (across : Option ℕ → Option ℕ)
      → ((f : Option ℕ) → IsEarliest (or_times f times) (across f))
      → IsEarliest
          (or_times e (if b then times else with_date d times))
          (across (if b then e else lenient e d))
  across_step true d e times across h = h e
  across_step false (err r) e times across h = h e
  across_step false (ok next) e times across h =
      earlier-IsEarliest e next times (across (earlier e next)) (h (earlier e next))

  across_from-IsEarliest :
      (e : Option ℕ) (crons : List Text)
      → IsEarliest
          (or_times e (next_runs crons))
          (across_from next_run is_timezone e crons from timezone)
  unfolding across_from next_runs
  across_from-IsEarliest none [] = refl
  across_from-IsEarliest (some t) [] = (inl refl, (omega arith, tt))
  across_from-IsEarliest e (cron ∷ crons) =
      across_step (is_one_shot_routine_cron cron) (date_of cron) e (next_runs crons)
        (λ f. across_from next_run is_timezone f crons from timezone)
        (λ f. across_from-IsEarliest f crons)

  strict_step :
      (b : Bool) (d : Result CronError ℕ) (e : Option ℕ) (refusal : Option CronError)
      (go_on : Option ℕ → Result CronError (Option ℕ)) (across : Option ℕ → Option ℕ)
      → ((f : Option ℕ) → go_on f ≡ refused_or refusal (across f))
      → (if b then go_on e else strict go_on e d)
        ≡ refused_or
            (if b then refusal else first_of d refusal)
            (across (if b then e else lenient e d))
  strict_step true d e refusal go_on across h = h e
  strict_step false (err r) e refusal go_on across h = refl
  strict_step false (ok next) e refusal go_on across h = h (earlier e next)

  strict_from-refused_or :
      (e : Option ℕ) (crons : List Text)
      → strict_from next_run is_timezone e crons from timezone
        ≡ refused_or (first_refusal crons) (across_from next_run is_timezone e crons from timezone)
  unfolding strict_from across_from first_refusal
  strict_from-refused_or e [] = refl
  strict_from-refused_or e (cron ∷ crons) =
      strict_step (is_one_shot_routine_cron cron) (date_of cron) e (first_refusal crons)
        (λ f. strict_from next_run is_timezone f crons from timezone)
        (λ f. across_from next_run is_timezone f crons from timezone)
        (λ f. strict_from-refused_or f crons)

  -- The next run across the schedules of a routine is the earliest of the next runs of those that recur
  -- and have one, and none if there is no such schedule; whatever the cron library answers.
  pub across-IsEarliest :
      (crons : List Text)
      → IsEarliest
          (next_runs crons)
          (next_cron_date_across next_run is_timezone crons from timezone)
  unfolding next_cron_date_across
  across-IsEarliest crons = across_from-IsEarliest none crons

  -- The strict version throws the first refusal among the schedules that recur, and where none is
  -- refused it gives the same date as the lenient one.
  pub strict_refuses_first :
      (crons : List Text)
      → next_cron_date_across_strict next_run is_timezone crons from timezone
        ≡ refused_or
            (first_refusal crons)
            (next_cron_date_across next_run is_timezone crons from timezone)
  unfolding next_cron_date_across_strict next_cron_date_across
  strict_refuses_first crons = strict_from-refused_or none crons
