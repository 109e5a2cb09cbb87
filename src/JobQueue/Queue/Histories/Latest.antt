-- ===== src/JobQueue/Queue/Histories/Latest.antt =====
-- What is pending under a key, when no `enqueue` begins while another one with its key is under way.
use rakazo.Common.{
  ℕ, ◌==◌, ◌≤◌, true, false, ◌&&◌, List, [], ◌∷◌, none, some, Text, text_eq, text_eq_iff,
  text_eq_refl, length, get, ◌≡◌, refl, arith, All, Bool-cases, inl, inr,
}
use rakazo.JobQueue.Jobs.{BackgroundJob}
use rakazo.JobQueue.Queue.{Timer, Queue, is_keyed, start_timer}
use rakazo.JobQueue.Queue.Invariant.{key, IsNamed, HasDistinctIds}
use rakazo.JobQueue.Queue.Histories.{
  new_world, Call, resumed, nth_awaited, step, run, key_of, NoOverlap, waiting, timer_of,
}
use rakazo.JobQueue.Queue.Histories.Apart.{IsFree, nth-All, reached-WorldInv}

none-waiting :
    (k : Text) (keyed : List (Text × ℕ)) (ts : List Timer)
    → get k keyed ≡ none
    → All (IsNamed keyed) ts
    → waiting k ts ≡ []
none-waiting k keyed [] e h = refl
none-waiting k keyed (t ∷ ts) e h = elim (Bool-cases (is_keyed t.job && text_eq (key t) k)) [
  | inl w ↦ ground (arith, text_eq_iff (key t) k, h.0 (ground arith))
  | inr w ↦ rw w (none-waiting k keyed ts e h.1)
]

other_waiting :
    (k : Text) (id : ℕ) (keyed : List (Text × ℕ)) (ts : List Timer)
    → get k keyed ≡ some id
    → All (λ u. (u.id == id) ≡ false) ts
    → All (IsNamed keyed) ts
    → waiting k ts ≡ []
other_waiting k id keyed [] e d h = refl
other_waiting k id keyed (t ∷ ts) e d h = elim (Bool-cases (is_keyed t.job && text_eq (key t) k)) [
  | inl w ↦ ground (arith, text_eq_iff (key t) k, h.0 (ground arith), d.0)
  | inr w ↦ rw w (other_waiting k id keyed ts e d.1 h.1)
]

one_waiting :
    (k : Text) (keyed : List (Text × ℕ)) (ts : List Timer)
    → HasDistinctIds ts
    → All (IsNamed keyed) ts
    → length (waiting k ts) ≤ 1
one_waiting k keyed [] d h = omega arith
one_waiting k keyed (t ∷ ts) d h = elim (Bool-cases (is_keyed t.job && text_eq (key t) k)) [
  | inl w ↦
      rw
        (
          w,
          other_waiting k t.id keyed ts (ground (arith, text_eq_iff (key t) k, h.0 (ground arith)))
              d.0 h.1,
        )
        (omega arith)
  | inr w ↦ rw w (one_waiting k keyed ts d.1 h.1)
]

-- In every sequence of calls on a new queue, in which an `enqueue` that awaits a cancellation is resumed
-- at any later step, at most one timer is pending for each replace key, provided no `enqueue` begins
-- while another one with its key is under way.
pub one_timer_per_key :
    (cs : List Call) (k : Text)
    → NoOverlap new_world cs
    → length (waiting k (run new_world cs).queue.timers) ≤ 1
one_timer_per_key cs k alone =
    let v = (reached-WorldInv cs alone).inv in
    one_waiting k (run new_world cs).queue.keyed (run new_world cs).queue.timers v.ids v.named

latest_on :
    (q : Queue) (job : BackgroundJob) (now : ℕ)
    → is_keyed job ≡ true
    → waiting (key_of job) q.timers ≡ []
    → waiting (key_of job) (start_timer q job now).timers ≡ timer_of q job now ∷ []
unfolding start_timer
latest_on q job now e w = rw (e, text_eq_refl (key_of job), w) refl

-- After every sequence of calls on a new queue, when an `enqueue` that has awaited the cancellation of its
-- key is resumed, the timer of its job is the only one pending for the key, whatever was called since it
-- began, provided no `enqueue` began while another one with its key was under way.
pub latest_wins :
    (cs : List Call) (n now : ℕ) (job : BackgroundJob)
    → NoOverlap new_world cs
    → nth_awaited n (run new_world cs).awaited ≡ some job
    → waiting (key_of job) (step (run new_world cs) (resumed n now)).queue.timers
      ≡ timer_of (run new_world cs).queue job now ∷ []
latest_wins cs n now job alone e =
    let w = run new_world cs in
    let v = reached-WorldInv cs alone in
    let (k, f) = nth-All (IsFree w.queue.keyed) n w.awaited job v.free e in
    rw e (
      latest_on w.queue job now k
        (none-waiting (key_of job) w.queue.keyed w.queue.timers f v.inv.named))
