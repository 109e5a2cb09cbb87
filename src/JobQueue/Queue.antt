-- ===== src/JobQueue/Queue.antt =====
-- packages/adapters/src/wakeup.ts, `InMemoryJobQueue`. A timer is a number with the job that its
-- callback closes over; `setTimeout` hands out numbers in turn, and a cleared timer never fires. The
-- queue has handlers or not, and what they do with a job is the caller's. `enqueue` awaits the cancellation
-- of the job that it replaces: `begin_enqueue` is the part before, `start_timer` the part after.
pub mod Invariant
pub mod Histories
mod Tests
use rakazo.Common.{
  ℕ, suc, ◌+◌, ◌-◌, ◌==◌, Bool, true, false, not, ◌&&◌, List, [], ◌∷◌, Option, none, some, Text,
  truthy, or_empty, select, if◌then◌else◌, Dict, get, put, delete, Result, ok, err,
}
use rakazo.JobQueue.Jobs.{BackgroundJob}

pub record Timer : Type 0 where
  pub id : ℕ
  pub job : BackgroundJob
  pub delay : ℕ

pub record Queue : Type 0 where
  pub started : Bool
  pub timers : List Timer
  pub keyed : Dict ℕ
  pub closed : Bool
  pub next_id : ℕ

pub data QueueError : Type 0 where
  publisher_closed : QueueError

pub empty_queue : Queue
empty_queue = record { started = false; timers = []; keyed = []; closed = false; next_id = 0 }

-- `timers.delete(timer)`
abbrev pub without : ℕ → List Timer → List Timer
without id timers = select (λ t. not (t.id == id)) timers

pub cancel_timer : Queue → Text → Option ℕ → Queue
cancel_timer q key none = q
cancel_timer q key (some id) = record q { timers = without id q.timers; keyed = delete key q.keyed }

pub cancel : Queue → Text → Queue
unfolding cancel_timer
cancel q key = cancel_timer q key (get key q.keyed)

abbrev pub is_keyed : BackgroundJob → Bool
is_keyed job = truthy job.replace_key

-- `Math.max(0, availableAt - now)`, or 0
abbrev pub delay_of : Option ℕ → ℕ → ℕ
delay_of none now = 0
delay_of (some at) now = at - now

pub start_timer : Queue → BackgroundJob → ℕ → Queue
start_timer q job now =
    let timer : Timer = record {
      id = q.next_id;
      job = job;
      delay = delay_of job.available_at now;
    } in
    record q {
      timers = timer ∷ q.timers;
      keyed = if is_keyed job then put (or_empty job.replace_key) q.next_id q.keyed else q.keyed;
      next_id = suc q.next_id;
    }

-- What `enqueue` has done when it gives up control: it has started the timer, or, for a job with a
-- replace key, it awaits the cancellation and starts the timer when it is resumed.
pub data Enqueuing : Type 0 where
  finished awaiting : Queue → Enqueuing

pub begin_enqueue : Queue → BackgroundJob → ℕ → Result QueueError Enqueuing
unfolding start_timer cancel
begin_enqueue q job now =
    if q.closed
    then err publisher_closed
    else if is_keyed job
    then ok (awaiting (cancel q (or_empty job.replace_key)))
    else ok (finished (start_timer q job now))

abbrev pub is_id : Option ℕ → ℕ → Bool
is_id none id = false
is_id (some other) id = other == id

-- The callback of a timer: the queue after it, and the job that is dispatched if handlers are set.
pub fire : Queue → Timer → Queue × Option BackgroundJob
fire q t = (
  record q {
    timers = without t.id q.timers;
    keyed =
        if is_keyed t.job && is_id (get (or_empty t.job.replace_key) q.keyed) t.id
        then delete (or_empty t.job.replace_key) q.keyed
        else q.keyed;
  },
  if q.started then some t.job else none,
)

pub start : Queue → Queue
start q = record q { started = true }

pub stop : Queue → Queue
stop q = record q { started = false; timers = []; keyed = [] }

pub close : Queue → Queue
unfolding stop
close q = if q.closed then q else record (stop q) { closed = true }
