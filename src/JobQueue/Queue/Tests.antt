-- ===== src/JobQueue/Queue/Tests.antt =====
-- The job queue at concrete inputs.
use rakazo.Common.{ℕ, ◌≤◌, List, [], ◌∷◌, some, lit, length, get, put, delete, text_eq, ◌≡◌, refl}
use rakazo.JobQueue.Jobs.{Payload, BackgroundJob, run_continue, computer_control_expire}
use rakazo.JobQueue.Jobs.Keys.{target, same_key_same_target}
use rakazo.JobQueue.Queue.{empty_queue, cancel, cancel_timer, start_timer, fire, begin_enqueue}
use rakazo.JobQueue.Queue.Histories.{
  new_world, Call, enqueued, resumed, fired, nth_awaited, step, run, NoOverlap, waiting, timer_of,
}
use rakazo.JobQueue.Queue.Histories.Latest.{one_timer_per_key, latest_wins}

abbrev job : ℕ → BackgroundJob
job at = record {
  payload = run_continue (lit "r");
  available_at = some at;
  replace_key = some (lit "run:r");
}

-- The second job is enqueued when the first is pending, and a third is while it is resumed.
abbrev calls : List Call
calls =
    enqueued (job 5) 0
    ∷ resumed 0 0
    ∷ enqueued (job 9) 1
    ∷ fired 0
    ∷ resumed 0 2
    ∷ enqueued (job 20) 3
    ∷ []

calls_apart : NoOverlap new_world calls
unfolding new_world begin_enqueue start_timer fire cancel cancel_timer get put delete empty_queue
    text_eq
calls_apart = ((λ k. tt), (tt, ((λ k. tt), (tt, (tt, ((λ k. tt), tt))))))

one_timer_per_key_example : length (waiting (lit "run:r") (run new_world calls).queue.timers) ≤ 1
one_timer_per_key_example = one_timer_per_key calls (lit "run:r") calls_apart

third_awaits : nth_awaited 0 (run new_world calls).awaited ≡ some (job 20)
unfolding new_world begin_enqueue start_timer fire cancel cancel_timer get put delete empty_queue
    text_eq
third_awaits = refl

latest_wins_example :
    waiting (lit "run:r") (step (run new_world calls) (resumed 0 4)).queue.timers
    ≡ timer_of (run new_world calls).queue (job 20) 4 ∷ []
latest_wins_example = latest_wins calls 0 4 (job 20) calls_apart third_awaits

-- Two calls of `enqueue` with one key, neither of which is awaited.
abbrev overlapping : List Call
overlapping = enqueued (job 5) 0 ∷ enqueued (job 9) 0 ∷ resumed 1 0 ∷ resumed 0 0 ∷ []

overlap_leaves_two : length (waiting (lit "run:r") (run new_world overlapping).queue.timers) ≡ 2
unfolding new_world begin_enqueue start_timer fire cancel cancel_timer get put delete empty_queue
    text_eq
overlap_leaves_two = refl

abbrev expiry : Payload
expiry = computer_control_expire (lit "c") (lit "l:1")

same_key_same_target_example : target expiry ≡ target expiry
same_key_same_target_example =
    same_key_same_target expiry expiry ((refl, tt), refl) ((refl, tt), refl) refl
