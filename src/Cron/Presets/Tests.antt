-- ===== src/Cron/Presets/Tests.antt =====
-- Presets and expressions on concrete values.
use rakazo.Common.{
  [], Text, lit, trim, trim_start, trim_end, is_space, starts_with, text_eq, show, join, number,
  ◌≡◌, refl, arith,
}
use rakazo.Cron.Fields.{split_spaces, is_int, step_value, int_value, format_clock}
use rakazo.Cron.Presets.{
  cron_from_preset, preset_from_cron, describe_cron_preset, format_schedule, format_cron,
  default_cron_preset, is_one_shot_routine_cron,
}
use rakazo.Cron.Presets.Clocks.{
  at_weekdays, clock_input, clock_preset_at, preset_from_cron-cron_from_preset,
}

abbrev no_clock : Text → Text × Text
no_clock time = ([], [])

preset_from_cron-cron_from_preset_example :
    preset_from_cron (cron_from_preset no_clock (clock_input at_weekdays 13 5))
    ≡ clock_preset_at at_weekdays 13 5
preset_from_cron-cron_from_preset_example =
    preset_from_cron-cron_from_preset no_clock at_weekdays 13 5 (omega arith) (omega arith)

printed_interval : format_cron (lit " 0 */6 * * *") ≡ lit "Every 6 hours"
unfolding format_cron format_schedule describe_cron_preset preset_from_cron default_cron_preset
    is_one_shot_routine_cron format_clock number show join trim trim_start trim_end is_space
    split_spaces is_int step_value int_value starts_with text_eq
printed_interval = refl

printed_advanced : format_cron (lit "0 9 * 2 *") ≡ lit "Cron 0 9 * 2 *"
unfolding format_cron format_schedule describe_cron_preset preset_from_cron default_cron_preset
    is_one_shot_routine_cron format_clock number show join trim trim_start trim_end is_space
    split_spaces is_int step_value int_value starts_with text_eq
printed_advanced = refl
