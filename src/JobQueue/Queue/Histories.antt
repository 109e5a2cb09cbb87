-- ===== src/JobQueue/Queue/Histories.antt =====
-- Sequences of calls on the in-memory queue. A call of `enqueue` that awaits a cancellation is resumed at
-- a later step, whatever the steps between.
pub mod Apart
pub mod Latest
use rakazo.Common.{
  ℕ, zero, suc, ◌==◌, ◌≤◌, Bool, true, false, not, ◌&&◌, List, [], ◌∷◌, Option, none, some, Text,
  text_eq, text_eq_iff, text_eq_refl, or_empty, select, any, length, Dict, get, put, delete,
  get-put, get-delete, HasDistinctKeys, Result, ok, err, ◌≡◌, refl, sym, ap, ◌∙◌, arith, All,
  All-map, Bool-cases, Option-cases, find_first, inl, inr, if◌then◌else◌,
}
use rakazo.JobQueue.Jobs.{BackgroundJob}
use rakazo.JobQueue.Queue.{
  Timer, Queue, QueueError, Enqueuing, finished, awaiting, empty_queue, cancel_timer, cancel,
  is_keyed, is_id, start_timer, begin_enqueue, fire, start, stop, close, delay_of,
}
use rakazo.JobQueue.Queue.Invariant.{
  Inv, key, IsNamed, HasDistinctIds, cancel-Inv, cancel_forgets, start_timer-Inv, fire-Inv,
  start-Inv, stop-Inv, close-Inv, empty_queue-Inv,
}

-- The queue, and the jobs whose `enqueue` awaits a cancellation.
pub record World : Type 0 where
  pub queue : Queue
  pub awaited : List BackgroundJob

unfoldable pub new_world : World
unfolding empty_queue
new_world = record { queue = empty_queue; awaited = [] }

pub data Call : Type 0 where
  enqueued : BackgroundJob → ℕ → Call
  resumed : ℕ → ℕ → Call
  cancelled : Text → Call
  fired : ℕ → Call
  started : Call
  stopped : Call
  closed : Call

abbrev pub nth_awaited : ℕ → List BackgroundJob → Option BackgroundJob
nth_awaited n [] = none
nth_awaited zero (j ∷ js) = some j
nth_awaited (suc n) (j ∷ js) = nth_awaited n js

abbrev pub without_nth : ℕ → List BackgroundJob → List BackgroundJob
without_nth n [] = []
without_nth zero (j ∷ js) = js
without_nth (suc n) (j ∷ js) = j ∷ without_nth n js

-- A refused call leaves everything as it is.
abbrev pub begun : World → BackgroundJob → Result QueueError Enqueuing → World
begun w job (ok (finished q)) = record w { queue = q }
begun w job (ok (awaiting q)) = record { queue = q; awaited = job ∷ w.awaited }
begun w job (err e) = w

abbrev pub resume_with : World → ℕ → ℕ → Option BackgroundJob → World
resume_with w n now none = w
resume_with w n now (some job) = record {
  queue = start_timer w.queue job now;
  awaited = without_nth n w.awaited;
}

abbrev pub fire_pending : Queue → Option Timer → Queue
fire_pending q none = q
fire_pending q (some t) = (fire q t).0

abbrev pub step : World → Call → World
step w (enqueued job now) = begun w job (begin_enqueue w.queue job now)
step w (resumed n now) = resume_with w n now (nth_awaited n w.awaited)
step w (cancelled k) = record w { queue = cancel w.queue k }
step w (fired id) = record w {
  queue = fire_pending w.queue (find_first (λ t. t.id == id) w.queue.timers);
}
step w started = record w { queue = start w.queue }
step w stopped = record w { queue = stop w.queue }
step w closed = record w { queue = close w.queue }

abbrev pub run : World → List Call → World
run w [] = w
run w (c ∷ cs) = run (step w c) cs

abbrev pub key_of : BackgroundJob → Text
key_of job = or_empty job.replace_key

-- No job whose `enqueue` is under way has this key.
abbrev pub IsUnclaimed : Text → List BackgroundJob → Type 0
IsUnclaimed k jobs = All (λ j. text_eq (key_of j) k ≡ false) jobs

abbrev pub StartsAlone : World → Call → Type 0
StartsAlone w (enqueued job now) = is_keyed job ≡ true → IsUnclaimed (key_of job) w.awaited
StartsAlone w _ = Unit {0}

-- No `enqueue` begins while another one with its key is under way.
abbrev pub NoOverlap : World → List Call → Type 0
NoOverlap w [] = Unit {0}
NoOverlap w (c ∷ cs) = StartsAlone w c × NoOverlap (step w c) cs

-- The pending timers that wait under a replace key.
abbrev pub waiting : Text → List Timer → List Timer
waiting k timers = select (λ t. is_keyed t.job && text_eq (key t) k) timers

-- The pending timer that a job is started as.
abbrev pub timer_of : Queue → BackgroundJob → ℕ → Timer
timer_of q job now = record { id = q.next_id; job = job; delay = delay_of job.available_at now }
