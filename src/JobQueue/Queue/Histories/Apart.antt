-- ===== src/JobQueue/Queue/Histories/Apart.antt =====
-- The invariant of the queue and of the jobs whose `enqueue` is under way, when no two of these jobs have
-- one key.
use rakazo.Common.{
  ℕ, zero, suc, ◌==◌, true, false, ◌&&◌, List, [], ◌∷◌, Option, none, some, Text, text_eq,
  text_eq_iff, text_eq_refl, Dict, get, put, delete, get-put, get-delete, HasDistinctKeys, ok, err,
  ◌≡◌, refl, subst, arith, All, All-map, Bool-cases, Option-cases, find_first, inl, inr,
}
use rakazo.JobQueue.Jobs.{BackgroundJob}
use rakazo.JobQueue.Queue.{
  publisher_closed, Timer, Queue, finished, awaiting, cancel_timer, cancel, is_keyed, is_id,
  start_timer, begin_enqueue, fire, start, stop, close,
}
use rakazo.JobQueue.Queue.Invariant.{
  Inv, key, cancel-Inv, cancel_forgets, start_timer-Inv, fire-Inv, start-Inv, stop-Inv, close-Inv,
  empty_queue-Inv,
}
use rakazo.JobQueue.Queue.Histories.{
  World, new_world, Call, enqueued, resumed, cancelled, fired, started, stopped, closed,
  nth_awaited, without_nth, begun, resume_with, fire_pending, step, run, key_of, IsUnclaimed,
  StartsAlone, NoOverlap,
}

-- A job whose `enqueue` is under way has a key, and no timer is named by it.
abbrev pub IsFree : Dict ℕ → BackgroundJob → Type 0
IsFree keyed job = (is_keyed job ≡ true) × (get (key_of job) keyed ≡ none)

abbrev pub HasDistinctJobs : List BackgroundJob → Type 0
HasDistinctJobs [] = Unit {0}
HasDistinctJobs (j ∷ js) = IsUnclaimed (key_of j) js × HasDistinctJobs js

pub record WorldInv (w : World) : Type 0 where
  pub inv : Inv w.queue
  pub free : All (IsFree w.queue.keyed) w.awaited
  pub apart : HasDistinctJobs w.awaited

-- A queue whose keys are some of another's.
abbrev IsLess : Dict ℕ → Dict ℕ → Type 0
IsLess less keyed = (k : Text) → get k keyed ≡ none → get k less ≡ none

fewer_keys :
    (w : World) (q : Queue)
    → Inv q
    → IsLess q.keyed w.queue.keyed
    → WorldInv w
    → WorldInv (record w { queue = q })
fewer_keys w q i less v = record {
  inv = i;
  free = All-map _ _ w.awaited (λ j (k, f). (k, less (key_of j) f)) v.free;
  apart = v.apart;
}

delete-IsLess : (k : Text) (keyed : Dict ℕ) → HasDistinctKeys keyed → IsLess (delete k keyed) keyed
delete-IsLess k keyed d j e = ground (arith, get-delete k j keyed d)

cancel-IsLess : (q : Queue) (k : Text) → Inv q → IsLess (cancel q k).keyed q.keyed
unfolding cancel
cancel-IsLess q k v = elim (Option-cases (get k q.keyed)) [
  | inl missing ↦ rw (missing, cancel_timer) (λ j e. e)
  | inr (id, found) ↦ rw (found, cancel_timer) (delete-IsLess k q.keyed v.keys)
]

fire-IsLess : (q : Queue) (t : Timer) → Inv q → IsLess (fire q t).0.keyed q.keyed
unfolding fire
fire-IsLess q t v = elim (Bool-cases (is_keyed t.job && is_id (get (key t) q.keyed) t.id)) [
  | inl e ↦ rw e (delete-IsLess (key t) q.keyed v.keys)
  | inr e ↦ rw e (λ j h. h)
]

fire_pending-WorldInv :
    (w : World) (o : Option Timer)
    → WorldInv w
    → WorldInv (record w { queue = fire_pending w.queue o })
fire_pending-WorldInv w none v = v
fire_pending-WorldInv w (some t) v =
    fewer_keys w (fire w.queue t).0 (fire-Inv w.queue t v.inv) (fire-IsLess w.queue t v.inv) v

close-IsLess : (q : Queue) → IsLess (close q).keyed q.keyed
unfolding close stop get
close-IsLess q = elim (Bool-cases q.closed) [ inl e ↦ rw e (λ j h. h) | inr e ↦ rw e (λ j h. refl) ]

pub nth-All :
    (P : BackgroundJob → Type 0) (n : ℕ) (js : List BackgroundJob) (j : BackgroundJob)
    → All P js
    → nth_awaited n js ≡ some j
    → P j
nth-All P n [] j h e = absurd (ground arith)
nth-All P zero (x ∷ js) j h e = subst P (ground arith) h.0
nth-All P (suc n) (x ∷ js) j h e = nth-All P n js j h.1 e

without_nth-All :
    (P : BackgroundJob → Type 0) (n : ℕ) (js : List BackgroundJob)
    → All P js
    → All P (without_nth n js)
without_nth-All P n [] h = tt
without_nth-All P zero (x ∷ js) h = h.1
without_nth-All P (suc n) (x ∷ js) h = (h.0, without_nth-All P n js h.1)

text_eq-false_sym : (a b : Text) → text_eq a b ≡ false → text_eq b a ≡ false
text_eq-false_sym a b h = ground (arith, text_eq_iff a b, text_eq_iff b a, text_eq_refl a)

apart_nth :
    (n : ℕ) (js : List BackgroundJob) (j : BackgroundJob)
    → HasDistinctJobs js
    → nth_awaited n js ≡ some j
    → IsUnclaimed (key_of j) (without_nth n js)
apart_nth n [] j h e = tt
apart_nth zero (x ∷ js) j h e =
    let same : x ≡ j = ground arith in subst (λ y. IsUnclaimed (key_of y) js) same h.0
apart_nth (suc n) (x ∷ js) j h e = (
  text_eq-false_sym (key_of j) (key_of x)
      (nth-All (λ y. text_eq (key_of y) (key_of x) ≡ false) n js j h.0 e),
  apart_nth n js j h.1 e,
)

without_nth-HasDistinctJobs :
    (n : ℕ) (js : List BackgroundJob) → HasDistinctJobs js → HasDistinctJobs (without_nth n js)
without_nth-HasDistinctJobs n [] h = tt
without_nth-HasDistinctJobs zero (x ∷ js) h = h.1
without_nth-HasDistinctJobs (suc n) (x ∷ js) h =
    (without_nth-All _ n js h.0, without_nth-HasDistinctJobs n js h.1)

still-IsFree :
    (k : Text) (id : ℕ) (keyed : Dict ℕ) (js : List BackgroundJob)
    → All (IsFree keyed) js
    → IsUnclaimed k js
    → All (IsFree (put k id keyed)) js
still-IsFree k id keyed [] f u = tt
still-IsFree k id keyed (j ∷ js) ((h, f), fs) (d, ds) = (
  (h, ground (arith, get-put k (key_of j) id keyed, text_eq-false_sym (key_of j) k d)),
  still-IsFree k id keyed js fs ds,
)

resume_with-WorldInv :
    (w : World) (n now : ℕ) (o : Option BackgroundJob)
    → nth_awaited n w.awaited ≡ o
    → WorldInv w
    → WorldInv (resume_with w n now o)
unfolding start_timer
resume_with-WorldInv w n now none e v = v
resume_with-WorldInv w n now (some job) e v =
    let (keyed, free) = nth-All (IsFree w.queue.keyed) n w.awaited job v.free e in
    record {
      inv = start_timer-Inv w.queue job now v.inv (λ _. free);
      free = rw keyed (
          still-IsFree (key_of job) w.queue.next_id w.queue.keyed (without_nth n w.awaited)
            (without_nth-All _ n w.awaited v.free) (apart_nth n w.awaited job v.apart e));
      apart = without_nth-HasDistinctJobs n w.awaited v.apart;
    }

begin_refused :
    (q : Queue) (job : BackgroundJob) (now : ℕ)
    → q.closed ≡ true
    → begin_enqueue q job now ≡ err publisher_closed
unfolding begin_enqueue
begin_refused q job now e = rw e refl

begin_awaiting :
    (q : Queue) (job : BackgroundJob) (now : ℕ)
    → q.closed ≡ false
    → is_keyed job ≡ true
    → begin_enqueue q job now ≡ ok (awaiting (cancel q (key_of job)))
unfolding begin_enqueue
begin_awaiting q job now e k = rw (e, k) refl

begin_finished :
    (q : Queue) (job : BackgroundJob) (now : ℕ)
    → q.closed ≡ false
    → is_keyed job ≡ false
    → begin_enqueue q job now ≡ ok (finished (start_timer q job now))
unfolding begin_enqueue
begin_finished q job now e k = rw (e, k) refl

unkeyed_start :
    (q : Queue) (job : BackgroundJob) (now : ℕ)
    → is_keyed job ≡ false
    → (start_timer q job now).keyed ≡ q.keyed
unfolding start_timer
unkeyed_start q job now k = rw k refl

awaiting-WorldInv :
    (w : World) (job : BackgroundJob)
    → is_keyed job ≡ true
    → IsUnclaimed (key_of job) w.awaited
    → WorldInv w
    → WorldInv (record { queue = cancel w.queue (key_of job); awaited = job ∷ w.awaited })
awaiting-WorldInv w job k alone v = record {
  inv = cancel-Inv w.queue (key_of job) v.inv;
  free = (
    (k, cancel_forgets w.queue (key_of job) v.inv),
    All-map _ _ w.awaited (λ j (b, f). (b, cancel-IsLess w.queue (key_of job) v.inv (key_of j) f))
        v.free,
  );
  apart = (alone, v.apart);
}

begun-WorldInv :
    (w : World) (job : BackgroundJob) (now : ℕ)
    → (is_keyed job ≡ true → IsUnclaimed (key_of job) w.awaited)
    → WorldInv w
    → WorldInv (begun w job (begin_enqueue w.queue job now))
begun-WorldInv w job now alone v = elim (Bool-cases w.queue.closed) [
  | inl e ↦ rw (begin_refused w.queue job now e) v
  | inr e ↦ elim (Bool-cases (is_keyed job)) [
    | inl k ↦ rw (begin_awaiting w.queue job now e k) (awaiting-WorldInv w job k (alone k) v)
    | inr k ↦ rw (begin_finished w.queue job now e k) (
        fewer_keys w (start_timer w.queue job now)
          (start_timer-Inv w.queue job now v.inv (λ k'. absurd (ground arith)))
          (λ j h. rw (unkeyed_start w.queue job now k) h) v)
  ]
]

step-WorldInv : (w : World) (c : Call) → StartsAlone w c → WorldInv w → WorldInv (step w c)
unfolding start stop get
step-WorldInv w (enqueued job now) alone v = begun-WorldInv w job now alone v
step-WorldInv w (resumed n now) alone v =
    resume_with-WorldInv w n now (nth_awaited n w.awaited) refl v
step-WorldInv w (cancelled k) alone v =
    fewer_keys w (cancel w.queue k) (cancel-Inv w.queue k v.inv) (cancel-IsLess w.queue k v.inv) v
step-WorldInv w (fired id) alone v =
    fire_pending-WorldInv w (find_first (λ t. t.id == id) w.queue.timers) v
step-WorldInv w started alone v =
    fewer_keys w (start w.queue) (start-Inv w.queue v.inv) (λ j h. h) v
step-WorldInv w stopped alone v =
    fewer_keys w (stop w.queue) (stop-Inv w.queue v.inv) (λ j h. refl) v
step-WorldInv w closed alone v =
    fewer_keys w (close w.queue) (close-Inv w.queue v.inv) (close-IsLess w.queue) v

run-WorldInv : (w : World) (cs : List Call) → NoOverlap w cs → WorldInv w → WorldInv (run w cs)
run-WorldInv w [] alone v = v
run-WorldInv w (c ∷ cs) alone v = run-WorldInv (step w c) cs alone.1 (step-WorldInv w c alone.0 v)

pub reached-WorldInv : (cs : List Call) → NoOverlap new_world cs → WorldInv (run new_world cs)
unfolding new_world
reached-WorldInv cs alone =
    run-WorldInv new_world cs alone (record { inv = empty_queue-Inv; free = tt; apart = tt })
