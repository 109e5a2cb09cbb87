-- ===== src/Cron/Presets/Clocks.antt =====
-- A time of day survives the way into an expression and back.
use rakazo.Common.{
  ℕ, zero, suc, ◌==◌, Bool, true, false, ◌&&◌, all, List, [], ◌∷◌, none, some, Text, text_eq,
  is_space, trim, trim_start, trim_end, starts_with, show, number, ==_iff, &&-true, Bool-cases, inl,
  inr, ◌<◌, ◌≡◌, refl, sym, text_eq_iff, ◌∙◌, subst, arith,
}
use rakazo.Cron.Fields.{
  split_at, split_spaces, is_int, step_value, int_value, has_letters, parse_clock, format_clock,
}
use rakazo.Cron.Presets.{
  CronFreq, every_hour, every_day, weekdays, every_week, every_month, interval, advanced, CronUnit,
  minutes, CronPreset, CronPresetInput, cron_from_preset, preset_from_cron, default_cron_preset,
}

-- The schedules by the clock.
pub data ClockFreq : Type 0 where
  at_day at_weekdays at_week at_month : ClockFreq

abbrev pub freq_of : ClockFreq → CronFreq
freq_of at_day = every_day
freq_of at_weekdays = weekdays
freq_of at_week = every_week
freq_of at_month = every_month

abbrev pub clock_input : ClockFreq → ℕ → ℕ → CronPresetInput
clock_input f h m = record {
  freq = freq_of f;
  n = none;
  unit = none;
  time = some (format_clock h m);
  cron = none;
}

abbrev pub clock_preset_at : ClockFreq → ℕ → ℕ → CronPreset
clock_preset_at f h m = record default_cron_preset { freq = freq_of f; time = format_clock h m }

abbrev freq_code : CronFreq → ℕ
freq_code every_hour = 0
freq_code every_day = 1
freq_code weekdays = 2
freq_code every_week = 3
freq_code every_month = 4
freq_code interval = 5
freq_code advanced = 6

abbrev is_minutes : CronUnit → Bool
is_minutes minutes = true
is_minutes _ = false

abbrev same_preset : CronPreset → CronPreset → Bool
same_preset p q =
    (freq_code p.freq == freq_code q.freq)
    && (p.n == q.n)
    && is_minutes p.unit
    && text_eq p.time q.time
    && text_eq p.cron q.cron

upto : ℕ → List ℕ
upto zero = []
upto (suc n) = n ∷ upto n

all-upto : (p : ℕ → Bool) (n i : ℕ) → all p (upto n) ≡ true → i < n → p i ≡ true
unfolding upto
all-upto p zero i h lt = absurd (omega arith)
all-upto p (suc n) i h lt = elim (Bool-cases (i == n)) [
  | inl same ↦
      subst (λ j. p j ≡ true) (sym ((==_iff i n).0 same)) (&&-true (p n) (all p (upto n)) h).0
  | inr other ↦ all-upto p n i (&&-true (p n) (all p (upto n)) h).1 (ground arith)
]

freq_code_injective : (a b : CronFreq) → (freq_code a == freq_code b) ≡ true → a ≡ b
freq_code_injective a b h = ground arith

unit_minutes : (u : CronUnit) → is_minutes u ≡ true → u ≡ minutes
unit_minutes u h = ground arith

five :
    (a b c d e : Bool)
    → (a && b && c && d && e) ≡ true
    → (a ≡ true) × (b ≡ true) × (c ≡ true) × (d ≡ true) × (e ≡ true)
five a b c d e h = ground arith

same_preset-eq : (p q : CronPreset) → q.unit ≡ minutes → same_preset p q ≡ true → p ≡ q
same_preset-eq p q u h =
    let (f, n, m, t, c) =
      five (freq_code p.freq == freq_code q.freq) (p.n == q.n) (is_minutes p.unit)
        (text_eq p.time q.time) (text_eq p.cron q.cron) h in
    let freqs = freq_code_injective p.freq q.freq f in
    let ns = (==_iff p.n q.n).0 n in
    let units : p.unit ≡ q.unit = unit_minutes p.unit m ∙ sym u in
    let times = (text_eq_iff p.time q.time).0 t in
    let crons = (text_eq_iff p.cron q.cron).0 c in
    λ i. record { freq = freqs i; n = ns i; unit = units i; time = times i; cron = crons i }

module _ (odd_clock : Text → Text × Text) where
  round_trips : ClockFreq → ℕ → ℕ → Bool
  round_trips f h m =
      same_preset (preset_from_cron (cron_from_preset odd_clock (clock_input f h m)))
        (clock_preset_at f h m)

  all_round_trip : ClockFreq → Bool
  unfolding round_trips upto
  all_round_trip f = all (λ h. all (round_trips f h) (upto 60)) (upto 24)

  -- Every schedule by the clock at every minute of the day.
  computed_round_trips : (f : ClockFreq) → all_round_trip f ≡ true
  unfolding all_round_trip round_trips upto cron_from_preset preset_from_cron default_cron_preset
      parse_clock format_clock split_at has_letters number show trim trim_start trim_end is_space
      split_spaces is_int step_value int_value starts_with text_eq
  computed_round_trips at_day = refl
  computed_round_trips at_weekdays = refl
  computed_round_trips at_week = refl
  computed_round_trips at_month = refl

  -- A daily, weekday, weekly or monthly preset at any hour and minute of the day, written as its
  -- expression and read back, is the preset with the same frequency and time and the defaults for the
  -- rest.
  pub preset_from_cron-cron_from_preset :
      (f : ClockFreq) (h m : ℕ)
      → h < 24
      → m < 60
      → preset_from_cron (cron_from_preset odd_clock (clock_input f h m)) ≡ clock_preset_at f h m
  unfolding round_trips all_round_trip default_cron_preset
  preset_from_cron-cron_from_preset f h m hl ml = same_preset-eq _ (clock_preset_at f h m) refl (
      all-upto (round_trips f h) 60 m
        (all-upto (λ i. all (round_trips f i) (upto 60)) 24 h (computed_round_trips f) hl) ml)
