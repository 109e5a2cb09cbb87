-- ===== src/JobQueue/Jobs.antt =====
-- packages/adapter-kit/src/background-jobs.ts: the jobs, each with the key under which a newer one
-- replaces it. A `Date` is its time in milliseconds; `show_date` is `toISOString`.
pub mod Keys
use rakazo.Common.{
  ℕ, List, [], ◌∷◌, ◌++◌, Option, none, some, Text, lit, truthy, or_empty, Bool, if◌then◌else◌,
}

pub data Payload : Type 0 where
  run_continue : Text → Payload
  routine_wakeup : Text → Text → Payload
  computer_sleep : Text → Payload
  computer_control_expire : Text → Text → Payload
  skill_teaching_expire : Text → Payload
  history_compact : Text → Payload

pub record BackgroundJob : Type 0 where
  pub payload : Payload
  pub available_at : Option ℕ
  pub replace_key : Option Text

pub run_job_key : Text → Text
run_job_key run_id = lit "run:" ++ run_id

pub routine_job_key : Text → Text
routine_job_key routine_id = lit "routine:" ++ routine_id

pub computer_sleep_job_key : Text → Text
computer_sleep_job_key computer_id = lit "computer.sleep:" ++ computer_id

pub computer_control_expire_job_key : Text → Option Text → Text
computer_control_expire_job_key computer_id lease_id =
    if truthy lease_id
    then lit "computer.control-expire:" ++ (computer_id ++ (lit ":" ++ or_empty lease_id))
    else lit "computer.control-expire:" ++ computer_id

pub skill_teaching_expire_job_key : Text → Text
skill_teaching_expire_job_key skill_id = lit "skill.teaching-expire:" ++ skill_id

pub history_compact_job_key : Text → Text
history_compact_job_key thread_id = lit "history.compact:" ++ thread_id

pub run_continue_job : Text → BackgroundJob
unfolding run_job_key
run_continue_job run_id = record {
  payload = run_continue run_id;
  available_at = none;
  replace_key = some (run_job_key run_id);
}

pub routine_wakeup_job : (ℕ → Text) → Text → ℕ → BackgroundJob
unfolding routine_job_key
routine_wakeup_job show_date routine_id scheduled_for = record {
  payload = routine_wakeup routine_id (show_date scheduled_for);
  available_at = some scheduled_for;
  replace_key = some (routine_job_key routine_id);
}

pub computer_sleep_job : Text → ℕ → BackgroundJob
unfolding computer_sleep_job_key
computer_sleep_job computer_id available_at = record {
  payload = computer_sleep computer_id;
  available_at = some available_at;
  replace_key = some (computer_sleep_job_key computer_id);
}

pub computer_control_expire_job : Text → Text → ℕ → BackgroundJob
unfolding computer_control_expire_job_key
computer_control_expire_job computer_id lease_id available_at = record {
  payload = computer_control_expire computer_id lease_id;
  available_at = some available_at;
  replace_key = some (computer_control_expire_job_key computer_id (some lease_id));
}

pub skill_teaching_expire_job : Text → ℕ → BackgroundJob
unfolding skill_teaching_expire_job_key
skill_teaching_expire_job skill_id available_at = record {
  payload = skill_teaching_expire skill_id;
  available_at = some available_at;
  replace_key = some (skill_teaching_expire_job_key skill_id);
}

pub history_compact_job : Text → BackgroundJob
unfolding history_compact_job_key
history_compact_job thread_id = record {
  payload = history_compact thread_id;
  available_at = none;
  replace_key = some (history_compact_job_key thread_id);
}
