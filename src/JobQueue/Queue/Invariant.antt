-- ===== src/JobQueue/Queue/Invariant.antt =====
-- The invariant of the in-memory queue: each pending keyed timer is the one that its key names.
use rakazo.Common.{
  ℕ, suc, ◌==◌, ◌<◌, Bool, true, false, not, ◌&&◌, List, [], ◌∷◌, Option, none, some, Text,
  text_eq_iff, text_eq_refl, or_empty, select, if◌then◌else◌, Dict, get, put, delete, get-put,
  get-delete, HasDistinctKeys, put-HasDistinctKeys, delete-HasDistinctKeys, ◌≡◌, refl, arith, All,
  Bool-cases, Option-cases, inl, inr,
}
use rakazo.JobQueue.Jobs.{BackgroundJob}
use rakazo.JobQueue.Queue.{
  Timer, Queue, empty_queue, without, cancel_timer, cancel, is_keyed, start_timer, fire, start,
  stop, close, is_id, delay_of,
}

abbrev pub key : Timer → Text
key t = or_empty t.job.replace_key

abbrev pub IsNamed : Dict ℕ → Timer → Type 0
IsNamed keyed t = is_keyed t.job ≡ true → get (key t) keyed ≡ some t.id

abbrev pub HasDistinctIds : List Timer → Type 0
HasDistinctIds [] = Unit {0}
HasDistinctIds (t ∷ ts) = All (λ u. (u.id == t.id) ≡ false) ts × HasDistinctIds ts

pub record Inv (q : Queue) : Type 0 where
  pub keys : HasDistinctKeys q.keyed
  pub fresh : All (λ t. t.id < q.next_id) q.timers
  pub ids : HasDistinctIds q.timers
  pub named : All (IsNamed q.keyed) q.timers

module _ {κ ι} {A : Type 0} (P : A → Type κ) (Q : A → Type ι) (p : A → Bool) where
  pub All-select :
      (xs : List A) → ((x : A) → P x → p x ≡ true → Q x) → All P xs → All Q (select p xs)
  All-select [] f h = tt
  All-select (x ∷ xs) f h = elim (Bool-cases (p x)) [
    | inl e ↦ rw e (f x h.0 e, All-select xs f h.1)
    | inr e ↦ rw e (All-select xs f h.1)
  ]

select-HasDistinctIds :
    (p : Timer → Bool) (ts : List Timer) → HasDistinctIds ts → HasDistinctIds (select p ts)
select-HasDistinctIds p [] h = tt
select-HasDistinctIds p (t ∷ ts) h = elim (Bool-cases (p t)) [
  | inl e ↦ rw e (
    All-select (λ u. (u.id == t.id) ≡ false) (λ u. (u.id == t.id) ≡ false) p ts (λ u d _. d) h.0,
    select-HasDistinctIds p ts h.1,
  )
  | inr e ↦ rw e (select-HasDistinctIds p ts h.1)
]

-- Dropping a timer with its key, if the key names it, keeps the invariant.
drop_named :
    (q : Queue) (k : Text) (id : ℕ)
    → Inv q
    → get k q.keyed ≡ some id
    → Inv (record q { timers = without id q.timers; keyed = delete k q.keyed })
drop_named q k id v e = record {
  keys = delete-HasDistinctKeys k q.keyed v.keys;
  fresh =
      All-select _ (λ t. t.id < q.next_id) (λ t. not (t.id == id)) q.timers (λ t l _. l) v.fresh;
  ids = select-HasDistinctIds (λ t. not (t.id == id)) q.timers v.ids;
  named =
      All-select (IsNamed q.keyed) (IsNamed (delete k q.keyed)) (λ t. not (t.id == id)) q.timers
        (λ t n other keyed.
          ground (arith, get-delete k (key t) q.keyed v.keys, text_eq_iff k (key t), n keyed))
        v.named;
}

pub cancel-Inv : (q : Queue) (k : Text) → Inv q → Inv (cancel q k)
unfolding cancel
cancel-Inv q k v = elim (Option-cases (get k q.keyed)) [
  | inl missing ↦ rw (missing, cancel_timer) v
  | inr (id, found) ↦ rw (found, cancel_timer) (drop_named q k id v found)
]

pub cancel_forgets : (q : Queue) (k : Text) → Inv q → get k (cancel q k).keyed ≡ none
unfolding cancel
cancel_forgets q k v = elim (Option-cases (get k q.keyed)) [
  | inl missing ↦ rw (missing, cancel_timer) missing
  | inr (id, found) ↦
      rw (found, cancel_timer) (ground (arith, get-delete k k q.keyed v.keys, text_eq_refl k))
]

fresh_id : (n : ℕ) (ts : List Timer) → All (λ t. t.id < n) ts → All (λ t. (t.id == n) ≡ false) ts
fresh_id n [] h = tt
fresh_id n (t ∷ ts) h = (ground arith, fresh_id n ts h.1)

All-weaken : (n : ℕ) (ts : List Timer) → All (λ t. t.id < n) ts → All (λ t. t.id < suc n) ts
All-weaken n [] h = tt
All-weaken n (t ∷ ts) h = (omega arith, All-weaken n ts h.1)

still-IsNamed :
    (k : Text) (id : ℕ) (keyed : Dict ℕ) (ts : List Timer)
    → get k keyed ≡ none
    → All (IsNamed keyed) ts
    → All (IsNamed (put k id keyed)) ts
still-IsNamed k id keyed [] e h = tt
still-IsNamed k id keyed (t ∷ ts) e h = (
  λ named. ground (arith, get-put k (key t) id keyed, text_eq_iff k (key t), h.0 named),
  still-IsNamed k id keyed ts e h.1,
)

keyed-HasDistinctKeys :
    (b : Bool) (k : Text) (id : ℕ) (keyed : Dict ℕ)
    → HasDistinctKeys keyed
    → HasDistinctKeys (if b then put k id keyed else keyed)
keyed-HasDistinctKeys true k id keyed h = put-HasDistinctKeys k id keyed h
keyed-HasDistinctKeys false k id keyed h = h

keyed-IsNamed :
    (b : Bool) (t : Timer) (keyed : Dict ℕ) (ts : List Timer)
    → is_keyed t.job ≡ b
    → (b ≡ true → get (key t) keyed ≡ none)
    → All (IsNamed keyed) ts
    → All (IsNamed (if b then put (key t) t.id keyed else keyed)) (t ∷ ts)
keyed-IsNamed true t keyed ts e free h = (
  λ _. ground (arith, get-put (key t) (key t) t.id keyed, text_eq_refl (key t)),
  still-IsNamed (key t) t.id keyed ts (free refl) h,
)
keyed-IsNamed false t keyed ts e free h = (λ k. absurd (ground arith), h)

pub start_timer-Inv :
    (q : Queue) (job : BackgroundJob) (now : ℕ)
    → Inv q
    → (is_keyed job ≡ true → get (or_empty job.replace_key) q.keyed ≡ none)
    → Inv (start_timer q job now)
unfolding start_timer
start_timer-Inv q job now v free = record {
  keys = keyed-HasDistinctKeys (is_keyed job) (or_empty job.replace_key) q.next_id q.keyed v.keys;
  fresh = (omega arith, All-weaken q.next_id q.timers v.fresh);
  ids = (fresh_id q.next_id q.timers v.fresh, v.ids);
  named =
      keyed-IsNamed (is_keyed job)
        (record { id = q.next_id; job = job; delay = delay_of job.available_at now }) q.keyed
        q.timers refl free v.named;
}

-- Dropping a timer alone keeps the invariant.
drop_plain : (q : Queue) (id : ℕ) → Inv q → Inv (record q { timers = without id q.timers })
drop_plain q id v = record {
  keys = v.keys;
  fresh =
      All-select _ (λ t. t.id < q.next_id) (λ t. not (t.id == id)) q.timers (λ t l _. l) v.fresh;
  ids = select-HasDistinctIds (λ t. not (t.id == id)) q.timers v.ids;
  named =
      All-select (IsNamed q.keyed) (IsNamed q.keyed) (λ t. not (t.id == id)) q.timers (λ t n _. n)
        v.named;
}

is_id-some : (o : Option ℕ) (id : ℕ) → is_id o id ≡ true → o ≡ some id
is_id-some none id e = absurd (ground arith)
is_id-some (some x) id e = ground arith

pub fire-Inv : (q : Queue) (t : Timer) → Inv q → Inv (fire q t).0
unfolding fire
fire-Inv q t v = elim (Bool-cases (is_keyed t.job && is_id (get (key t) q.keyed) t.id)) [
  | inl e ↦
      rw e (drop_named q (key t) t.id v (is_id-some (get (key t) q.keyed) t.id (ground arith)))
  | inr e ↦ rw e (drop_plain q t.id v)
]

pub stop-Inv : (q : Queue) → Inv q → Inv (stop q)
unfolding stop
stop-Inv q v = record { keys = tt; fresh = tt; ids = tt; named = tt }

pub start-Inv : (q : Queue) → Inv q → Inv (start q)
unfolding start
start-Inv q v = record { keys = v.keys; fresh = v.fresh; ids = v.ids; named = v.named }

close_if-Inv :
    (b : Bool) (q : Queue) → Inv q → Inv (if b then q else record (stop q) { closed = true })
unfolding stop
close_if-Inv true q v = v
close_if-Inv false q v = record { keys = tt; fresh = tt; ids = tt; named = tt }

pub close-Inv : (q : Queue) → Inv q → Inv (close q)
unfolding close
close-Inv q v = close_if-Inv q.closed q v

pub empty_queue-Inv : Inv empty_queue
unfolding empty_queue
empty_queue-Inv = record { keys = tt; fresh = tt; ids = tt; named = tt }
