-- ===== src/Live/Projection/Subagents.antt =====
-- The invariant of the projection's variables, and what it says of runs that ended and of subagents
-- whose last word is stored.
mod Tests
use rakazo.Common.{
  true, List, [], ◌∷◌, Option, none, Text, truthy, has, All, All-map, All-append, ◌≡◌, ◌≢◌, refl,
  ◌∙◌, ◌⊎◌, inl, inr, arith, get, delete, text_eq_iff, text_eq_refl, get-put, get-delete,
  HasDistinctKeys, put-HasDistinctKeys, delete-HasDistinctKeys, Bool-cases,
}
use rakazo.Live.Blocks.{MessageBlock, subagent, Subagent, progressed, tool, LiveMessageUpdate}
use rakazo.Live.Projection.{
  Event, EventBody, message_created, thread_progress, tool_called, thread_cleared, thread_subagent,
  run_completed, run_failed, run_cancelled, other_event, State, empty, Role, progress_message_id,
  clear_live, live_update, settle_subagents, store_message, show_subagent, apply, apply_all,
}

-- A subagent that stands in the list of blocks is one of the ids.
abbrev IsRecorded : List Text → MessageBlock → Type 0
IsRecorded ids (subagent a) = has ids a.agent_id ≡ true
IsRecorded ids _ = Unit {0}

-- A subagent of a stored block is not among those that are shown live.
abbrev pub IsNotLive : State → MessageBlock → Type 0
IsNotLive s (subagent a) = get a.agent_id s.live_subagents ≡ none
IsNotLive s _ = Unit {0}

pub record Inv (s : State) : Type 0 where
  pub stored : All (λ m. All (IsRecorded s.durable_subagents) m.blocks) s.messages
  pub live_keys : HasDistinctKeys s.live_by_id
  pub subagent_keys : HasDistinctKeys s.live_subagents
  pub settled : (a : Text) → has s.durable_subagents a ≡ true → get a s.live_subagents ≡ none

clear_live-Inv : (s : State) (e : Event) → Inv s → Inv (clear_live s e)
unfolding clear_live
clear_live-Inv s e v = elim (Bool-cases (truthy e.run_id)) [
  | inl named ↦ rw named (record {
    stored = v.stored;
    live_keys = delete-HasDistinctKeys (progress_message_id e) s.live_by_id v.live_keys;
    subagent_keys = v.subagent_keys;
    settled = v.settled;
  })
  | inr anonymous ↦ rw anonymous (record {
    stored = v.stored;
    live_keys = tt;
    subagent_keys = v.subagent_keys;
    settled = v.settled;
  })
]

settled_after :
    (s : State) (a b : Text)
    → Inv s
    → has (a ∷ s.durable_subagents) b ≡ true
    → get b (delete a s.live_subagents) ≡ none
unfolding has
settled_after s a b v h =
    ground (arith, get-delete a b s.live_subagents v.subagent_keys, v.settled b)

IsRecorded-more :
    (a : Text) (ids : List Text) (b : MessageBlock) → IsRecorded ids b → IsRecorded (a ∷ ids) b
unfolding has
IsRecorded-more a ids (subagent c) h = ground arith
IsRecorded-more a ids b h = tt

settle_subagents-Inv :
    (s : State) (blocks : List MessageBlock) → Inv s → Inv (settle_subagents s blocks)
unfolding settle_subagents
settle_subagents-Inv s [] v = v
settle_subagents-Inv s (subagent a ∷ blocks) v =
    settle_subagents-Inv
      (record s {
        durable_subagents = a.agent_id ∷ s.durable_subagents;
        live_subagents = delete a.agent_id s.live_subagents;
      })
      blocks
      (record {
        stored =
            All-map _ _ s.messages
              (λ m h.
                All-map _ _ m.blocks (λ b g. IsRecorded-more a.agent_id s.durable_subagents b g) h)
              v.stored;
        live_keys = v.live_keys;
        subagent_keys = delete-HasDistinctKeys a.agent_id s.live_subagents v.subagent_keys;
        settled = λ b h. settled_after s a.agent_id b v h;
      })
settle_subagents-Inv s (b ∷ blocks) v = settle_subagents-Inv s blocks v

-- The state of the loop after a block with this subagent.
abbrev with_settled : State → Text → State
with_settled s a = record s {
  durable_subagents = a ∷ s.durable_subagents;
  live_subagents = delete a s.live_subagents;
}

settle_keeps :
    (blocks : List MessageBlock) (s : State) (a : Text)
    → has s.durable_subagents a ≡ true
    → has (settle_subagents s blocks).durable_subagents a ≡ true
unfolding settle_subagents has
settle_keeps [] s a h = h
settle_keeps (subagent c ∷ blocks) s a h =
    settle_keeps blocks (with_settled s c.agent_id) a (ground arith)
settle_keeps (b ∷ blocks) s a h = settle_keeps blocks s a h

settle_records :
    (blocks : List MessageBlock) (s : State)
    → All (IsRecorded (settle_subagents s blocks).durable_subagents) blocks
unfolding settle_subagents has
settle_records [] s = tt
settle_records (subagent c ∷ blocks) s = (
  settle_keeps blocks (with_settled s c.agent_id) c.agent_id (rw (text_eq_refl c.agent_id) refl),
  settle_records blocks (with_settled s c.agent_id),
)
settle_records (b ∷ blocks) s = (tt, settle_records blocks s)

module _ (to_lower to_upper : Text → Text) where
  live_update-Inv :
      (s : State) (e : Event) (u : LiveMessageUpdate)
      → Inv s
      → Inv (live_update to_lower to_upper s e u)
  unfolding live_update
  live_update-Inv s e u v = record {
    stored = v.stored;
    live_keys = put-HasDistinctKeys (progress_message_id e) _ s.live_by_id v.live_keys;
    subagent_keys = v.subagent_keys;
    settled = v.settled;
  }

  store_message-Inv :
      (s : State) (e : Event) (message_id : Option Text) (role : Option Role)
      (blocks : List MessageBlock)
      → Inv s
      → Inv (store_message to_lower to_upper s e message_id role blocks)
  unfolding store_message
  store_message-Inv s e message_id role blocks v =
      let w = settle_subagents-Inv (clear_live s e) blocks (clear_live-Inv s e v) in
      record {
        stored = All-append _ _ _ w.stored (settle_records blocks (clear_live s e), tt);
        live_keys = w.live_keys;
        subagent_keys = w.subagent_keys;
        settled = w.settled;
      }

  show_subagent-Inv :
      (s : State) (e : Event) (a : Subagent) → Inv s → Inv (show_subagent to_lower to_upper s e a)
  unfolding show_subagent
  show_subagent-Inv s e a v = elim (Bool-cases (has s.durable_subagents a.agent_id)) [
    | inl old ↦ rw old v
    | inr new ↦ rw new (record {
      stored = v.stored;
      live_keys = v.live_keys;
      subagent_keys = put-HasDistinctKeys a.agent_id _ s.live_subagents v.subagent_keys;
      settled = λ b h.
          get-put a.agent_id b _ s.live_subagents
          ∙ ground (arith, text_eq_iff a.agent_id b, v.settled b h);
    })
  ]

  apply-Inv : (s : State) (e : Event) (b : EventBody) → Inv s → Inv (apply to_lower to_upper s e b)
  unfolding apply get
  apply-Inv s e (message_created message_id role blocks) v =
      store_message-Inv s e message_id role blocks v
  apply-Inv s e (thread_progress payload) v = live_update-Inv s e (progressed payload) v
  apply-Inv s e (tool_called name) v = live_update-Inv s e (tool name) v
  apply-Inv s e thread_cleared v = record {
    stored = tt;
    live_keys = tt;
    subagent_keys = tt;
    settled = λ a h. refl;
  }
  apply-Inv s e (thread_subagent a) v = show_subagent-Inv s e a v
  apply-Inv s e run_completed v = clear_live-Inv s e v
  apply-Inv s e run_failed v = clear_live-Inv s e v
  apply-Inv s e run_cancelled v = clear_live-Inv s e v
  apply-Inv s e other_event v = v

  apply_all-Inv : (s : State) (es : List Event) → Inv s → Inv (apply_all to_lower to_upper s es)
  unfolding apply_all
  apply_all-Inv s [] v = v
  apply_all-Inv s (e ∷ es) v =
      apply_all-Inv (apply to_lower to_upper s e e.body) es (apply-Inv s e e.body v)

  abbrev pub state_after : List Event → State
  state_after es = apply_all to_lower to_upper empty es

  pub reached-Inv : (es : List Event) → Inv (state_after es)
  unfolding get
  reached-Inv es =
      apply_all-Inv empty es
        (record { stored = tt; live_keys = tt; subagent_keys = tt; settled = λ a h. refl })

  recorded-IsNotLive :
      (s : State) (b : MessageBlock) → Inv s → IsRecorded s.durable_subagents b → IsNotLive s b
  recorded-IsNotLive s (subagent a) v h = v.settled a.agent_id h
  recorded-IsNotLive s b v h = tt

  -- Whatever the events, no subagent that stands in a block of a stored message is shown as live
  -- beside it.
  pub durable_subagent-IsNotLive :
      (es : List Event)
      → All (λ m. All (IsNotLive (state_after es)) m.blocks) (state_after es).messages
  durable_subagent-IsNotLive es =
      let v = reached-Inv es in
      All-map _ _ (state_after es).messages
        (λ m h. All-map _ _ m.blocks (λ b g. recorded-IsNotLive (state_after es) b v g) h) v.stored

  -- An event by which a run ends.
  abbrev EndsRun : EventBody → Type 0
  EndsRun b = (b ≡ run_completed) ⊎ (b ≡ run_failed) ⊎ (b ≡ run_cancelled)

  -- When a run ends its live message is gone, the live messages of all other runs stay as they are,
  -- and no stored message changes.
  pub run_end_clears :
      (es : List Event) (e : Event) (key : Text)
      → EndsRun e.body
      → truthy e.run_id ≡ true
      → let before = state_after es in
        let after = apply to_lower to_upper before e e.body in
        (get (progress_message_id e) after.live_by_id ≡ none)
        × (progress_message_id e ≢ key → get key after.live_by_id ≡ get key before.live_by_id)
        × (after.messages ≡ before.messages)
  unfolding apply clear_live
  run_end_clears es e key ends named =
      let s = state_after es in
      let id = progress_message_id e in
      let keys = (reached-Inv es).live_keys in
      ground (
        arith,
        get-delete id id s.live_by_id keys,
        get-delete id key s.live_by_id keys,
        text_eq_refl id,
        text_eq_iff id key,
      )
