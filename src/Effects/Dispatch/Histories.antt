-- ===== src/Effects/Dispatch/Histories.antt =====
-- The calls of the workers of one run, interleaved (packages/adapters/src/executor.ts), and the answers
-- of the user (packages/db/src/events.ts, where the answer to an ask is one transaction). A worker
-- begins a call, which records the effect and decides; later it goes on, if it has not crashed; later
-- still it may store a result. A history is any order of such moves, so a call may also be left pending
-- for ever, or begun again by another worker. `executed` lists the keys of the calls whose tool ran.
pub mod Rows
mod Queued
mod Unapproved
pub mod Once
pub mod Asked
pub mod Answered
mod Tests
use rakazo.Common.{
  ℕ, zero, suc, Bool, true, false, not, ◌||◌, ◌&&◌, List, [], ◌∷◌, ◌++◌, Option, none, some, Text,
  lit, text_eq, any, if◌then◌else◌, get, put, ◌≡◌,
}
use rakazo.Effects.{
  EffectStatus, intended, approved, denied, executing, EffectResult, Effect, Store, status_eq,
  with_status, complete_external_effect, replace_completed_external_effect_result,
}
use rakazo.Effects.Dispatch.{is_request_secret, Call, Action, Outcome, runs, begin_call, perform}

-- A press on a button of the ask: its id, whether the presser owns the run, and whether the run waits.
pub record Answer : Type 0 where
  pub answer : Text
  pub actions : List Text
  pub by_owner : Bool
  pub run_waits : Bool

pub record Pending (V : Type 0) : Type 0 where
  pub call : Call
  pub action : Action V

pub record World (V : Type 0) : Type 0 where
  pub store : Store V
  pub pending : List (Pending V)
  pub executed : List Text

pub data Move (V : Type 0) : Type 0 where
  begins : Call → Move V
  goes_on : ℕ → Move V
  answers : Text → Answer → Move V
  submits_secret : Move V
  completes : Text → Bool → EffectResult V → Move V
  replaces : Text → EffectResult V → Move V

abbrev is_always : Text → Bool
is_always answer = text_eq answer (lit "always")

abbrev pub is_allowed : Answer → Bool
is_allowed a = text_eq a.answer (lit "allow") || is_always a.answer

abbrev is_refused : Answer → Bool
is_refused a =
    not (any (λ id. text_eq id a.answer) a.actions)
    || is_always a.answer && not a.by_owner
    || not a.run_waits

-- A claimed call completes from `executing`, another from `intended`.
abbrev expected : Bool → EffectStatus
expected claimed = if claimed then executing else intended

-- How often the tool of the key ran.
pub runs_of : Text → List Text → ℕ
runs_of k [] = 0
runs_of k (j ∷ executed) = let more = runs_of k executed in if text_eq j k then suc more else more

-- The calls of `k` are consequential: each asks, or bypasses by a rule or a judge, and none only reads.
abbrev pub Gated : Text → Call → Type 0
Gated k call =
    text_eq call.key k ≡ true
    → (call.is_read_only ≡ false)
      × ((call.needs_approval || call.bypass_approval) ≡ true)
      × (is_request_secret call.name ≡ false)

module _ {V : Type 0} where
  abbrev pub fresh_world : Store V → World V
  fresh_world s = record { store = s; pending = []; executed = [] }

  pub answered : Option (Effect V) → Text → Answer → Store V → Store V
  answered none key a store = store
  answered (some e) key a store =
      if is_refused a || not (status_eq e.status intended)
      then store
      else put key (with_status (if is_allowed a then approved else denied) e) store

  -- The answer to an approval ask; one that is refused changes nothing.
  pub answer_approval : Text → Answer → Store V → Store V
  unfolding answered
  answer_approval key a store = answered (get key store) key a store

  abbrev pub approve_secret : Effect V → Effect V
  approve_secret e =
      if text_eq e.kind (lit "request_secret") && status_eq e.status intended
      then with_status approved e
      else e

  -- The answer to a secret ask: every intended `request_secret` of the run is approved.
  pub answer_secret : Store V → Store V
  answer_secret [] = []
  answer_secret ((key, e) ∷ store) = (key, approve_secret e) ∷ answer_secret store

  pub nth_pending : ℕ → List (Pending V) → Option (Pending V)
  nth_pending n [] = none
  nth_pending zero (p ∷ ps) = some p
  nth_pending (suc n) (p ∷ ps) = nth_pending n ps

  pub without_nth : ℕ → List (Pending V) → List (Pending V)
  without_nth n [] = []
  without_nth zero (p ∷ ps) = ps
  without_nth (suc n) (p ∷ ps) = p ∷ without_nth n ps

  abbrev ran : Outcome V → Text → List Text → List Text
  ran (runs c) key executed = key ∷ executed
  ran _ key executed = executed

  go_on_with : Option (Pending V) → ℕ → World V → World V
  go_on_with none n w = w
  go_on_with (some p) n w =
      let (after, outcome) = perform p.call.key p.call.name p.action w.store in
      record {
        store = after;
        pending = without_nth n w.pending;
        executed = ran outcome p.call.key w.executed;
      }

  begun : Call → World V → World V
  begun call w =
      let (action, after) = begin_call call w.store in
      record w { store = after; pending = (record { call = call; action = action }) ∷ w.pending }

  step : Move V → World V → World V
  unfolding answer_approval answer_secret go_on_with begun
  step (begins call) w = begun call w
  step (goes_on n) w = go_on_with (nth_pending n w.pending) n w
  step (answers key a) w = record w { store = answer_approval key a w.store }
  step submits_secret w = record w { store = answer_secret w.store }
  step (completes key claimed r) w = record w {
    store = (complete_external_effect key (expected claimed) r w.store).1;
  }
  step (replaces key r) w = record w {
    store = (replace_completed_external_effect_result key r w.store).1;
  }

  pub history : List (Move V) → World V → World V
  unfolding step
  history [] w = w
  history (m ∷ ms) w = history ms (step m w)

  abbrev pub GatedMove : Text → Move V → Type 0
  GatedMove k (begins call) = Gated k call
  GatedMove k _ = Unit {0}
