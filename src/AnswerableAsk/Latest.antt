-- ===== src/AnswerableAsk/Latest.antt =====
-- The message found is open, and none after it is, where a message is open by what the snapshot says of
-- its run and of its blocks.
use rakazo.Common.{
  Bool, true, false, ◌&&◌, List, [], ◌∷◌, ◌++◌, map, select, Option, none, some, Text, lit, text_eq,
  text_eq_iff, has, truthy, or_empty, any, ◌≡◌, ◌≢◌, ◌↔◌, refl, ap, arith, All, Exists, any-Exists,
  Exists-any, Bool-cases, inl, inr,
}
use rakazo.AnswerableAsk.{
  AskedBlock, AskedMessage, RunRef, AskSnapshot, runs_of, is_open_ask, is_answered, waiting_run_ids,
  is_answerable, later_or, latest_from, latest_answerable_ask_message_id,
}

-- A question without an answer.
abbrev pub IsOpenAsk : AskedBlock → Type 0
IsOpenAsk block = (block.kind ≡ lit "ask") × (block.status ≢ some (lit "answered"))

-- The run of this id waits for input.
abbrev pub IsWaiting : Text → RunRef → Type 0
IsWaiting id run = (run.status ≡ lit "waiting_input") × (run.id ≡ id)

-- The message has a run, which waits for input, and a question without an answer.
abbrev pub IsOpen : List RunRef → AskedMessage → Type 0
IsOpen runs message =
    (id : Text) × (message.run_id ≡ some id)
    × (id ≢ [])
    × Exists (IsWaiting id) runs
    × Exists IsOpenAsk message.blocks

waiting_ids : List RunRef → List Text
waiting_ids runs =
    map (λ run. run.id) (select (λ run. text_eq run.status (lit "waiting_input")) runs)

has-IsWaiting :
    (id : Text) (runs : List RunRef) → has (waiting_ids runs) id ≡ true → Exists (IsWaiting id) runs
unfolding waiting_ids has
has-IsWaiting id [] h = absurd (ground arith)
has-IsWaiting id (run ∷ runs) h = elim (Bool-cases (text_eq run.status (lit "waiting_input"))) [
  | inl w ↦ elim (Bool-cases (text_eq run.id id)) [
    | inl e ↦ inl ((text_eq_iff run.status _).0 w, (text_eq_iff run.id id).0 e)
    | inr e ↦ inr (has-IsWaiting id runs (rw (w, e) at h))
  ]
  | inr w ↦ inr (has-IsWaiting id runs (rw w at h))
]

IsWaiting-has :
    (id : Text) (runs : List RunRef) → Exists (IsWaiting id) runs → has (waiting_ids runs) id ≡ true
unfolding waiting_ids has
IsWaiting-has id [] h = absurd h
IsWaiting-has id (run ∷ runs) (inl (w, e)) =
    rw ((text_eq_iff run.status (lit "waiting_input")).1 w, (text_eq_iff run.id id).1 e) refl
IsWaiting-has id (run ∷ runs) (inr h) =
    elim (Bool-cases (text_eq run.status (lit "waiting_input"))) [
      | inl w ↦ rw w (ground (arith, IsWaiting-has id runs h))
      | inr w ↦ rw w (IsWaiting-has id runs h)
    ]

is_answered_iff :
    (status : Option Text) → (is_answered status ≡ true) ↔ (status ≡ some (lit "answered"))
is_answered_iff none = ground arith
is_answered_iff (some status) = ground (arith, text_eq_iff status (lit "answered"))

is_open_ask_iff : (b : AskedBlock) → (is_open_ask b ≡ true) ↔ IsOpenAsk b
is_open_ask_iff b = ground (arith, text_eq_iff b.kind (lit "ask"), is_answered_iff b.status)

module _ (runs : List RunRef) where
  answerable_of :
      (run_id : Option Text) (blocks : List AskedBlock)
      → (truthy run_id && has (waiting_ids runs) (or_empty run_id) && any is_open_ask blocks) ≡ true
      → (id : Text) × (run_id ≡ some id)
        × (id ≢ [])
        × Exists (IsWaiting id) runs
        × Exists IsOpenAsk blocks
  answerable_of none blocks h = absurd (ground arith)
  answerable_of (some []) blocks h = absurd (ground arith)
  answerable_of (some (c ∷ id)) blocks h = (
    c ∷ id,
    refl,
    (λ e. ground arith),
    has-IsWaiting (c ∷ id) runs (ground arith),
    any-Exists is_open_ask IsOpenAsk blocks (λ b e. (is_open_ask_iff b).0 e) (ground arith),
  )

  of_answerable :
      (run_id : Option Text) (id : Text) (blocks : List AskedBlock)
      → run_id ≡ some id
      → id ≢ []
      → Exists (IsWaiting id) runs
      → Exists IsOpenAsk blocks
      → (truthy run_id && has (waiting_ids runs) (or_empty run_id) && any is_open_ask blocks) ≡ true
  of_answerable run_id [] blocks e n w o = absurd (n refl)
  of_answerable run_id (c ∷ id) blocks e n w o =
      rw
        (
          e,
          IsWaiting-has (c ∷ id) runs w,
          Exists-any is_open_ask IsOpenAsk blocks (λ b h. (is_open_ask_iff b).1 h) o,
        )
        refl

  is_answerable-IsOpen :
      (m : AskedMessage) → is_answerable (waiting_ids runs) m ≡ true → IsOpen runs m
  unfolding is_answerable
  is_answerable-IsOpen m h = answerable_of m.run_id m.blocks h

  IsOpen-is_answerable :
      (m : AskedMessage) → IsOpen runs m → is_answerable (waiting_ids runs) m ≡ true
  unfolding is_answerable
  IsOpen-is_answerable m (id, e, n, w, o) = of_answerable m.run_id id m.blocks e n w o

  not_answerable : (m : AskedMessage) → is_answerable (waiting_ids runs) m ≡ false → ¬ IsOpen runs m
  not_answerable m h o = ground (arith, IsOpen-is_answerable m o)

-- How the messages divide at the one that is found
pub record Found (runs : List RunRef) (messages : List AskedMessage) (id : Text) : Type 0 where
  pub before : List AskedMessage
  pub message : AskedMessage
  pub after : List AskedMessage
  pub whole : messages ≡ before ++ message ∷ after
  pub unanswered : IsOpen runs message
  pub named : message.id ≡ id
  pub last : All (λ m. ¬ IsOpen runs m) after

-- How the search ends
abbrev pub Ends : List RunRef → List AskedMessage → Option Text → Type 0
Ends runs messages none = All (λ m. ¬ IsOpen runs m) messages
Ends runs messages (some id) = Found runs messages id

Ends-cons :
    (runs : List RunRef) (m : AskedMessage) (messages : List AskedMessage) (o : Option Text)
    (b : Bool)
    → is_answerable (waiting_ids runs) m ≡ b
    → Ends runs messages o
    → Ends runs (m ∷ messages) (later_or o b m.id)
Ends-cons runs m messages (some id) b e f = record {
  before = m ∷ f.before;
  message = f.message;
  after = f.after;
  whole = ap (◌∷◌ m) f.whole;
  unanswered = f.unanswered;
  named = f.named;
  last = f.last;
}
Ends-cons runs m messages none true e n = record {
  before = [];
  message = m;
  after = messages;
  whole = refl;
  unanswered = is_answerable-IsOpen runs m e;
  named = refl;
  last = n;
}
Ends-cons runs m messages none false e n = (not_answerable runs m e, n)

latest_from-Ends :
    (runs : List RunRef) (messages : List AskedMessage)
    → Ends runs messages (latest_from (waiting_ids runs) messages)
unfolding latest_from
latest_from-Ends runs [] = tt
latest_from-Ends runs (m ∷ messages) =
    Ends-cons runs m messages (latest_from (waiting_ids runs) messages)
      (is_answerable (waiting_ids runs) m) refl (latest_from-Ends runs messages)

-- The message that is offered for an answer has a run that is waiting for input, among the active runs
-- or else the run of the snapshot, and a question that is not answered, and no message after it has
-- both; if none is offered, no message has both.
pub latest_is_last_open :
    (snapshot : AskSnapshot)
    → Ends
        (runs_of snapshot.active_runs snapshot.run)
        snapshot.messages
        (latest_answerable_ask_message_id (some snapshot))
unfolding latest_answerable_ask_message_id waiting_run_ids waiting_ids
latest_is_last_open snapshot =
    latest_from-Ends (runs_of snapshot.active_runs snapshot.run) snapshot.messages
