-- ===== src/Effects/Dispatch/Histories/Asked.antt =====
-- A call that asks is not run before the user allows it, in any interleaving.
use mathlib.Core.Bool.{false≢true}
use rakazo.Common.{
  ℕ, Bool, true, false, List, [], ◌∷◌, Option, none, some, Text, text_eq, text_eq_iff,
  if◌then◌else◌, get, All, ◌≡◌, refl, sym, ◌∙◌, subst, inl, inr, Bool-cases,
}
use rakazo.Effects.{
  intended, approved, executing, Effect, Store, DuplicateEffectGate, execute, return, paused,
  unclear, update_row, update_many, with_status, is_one, claim_approved_effect,
  claim_intended_effect, resolve_duplicate_effect_gate,
}
use rakazo.Effects.Dispatch.{
  is_request_secret, Call, Recorded, from_approved, from_intended, Action, return_result,
  drop_secret, pause_for_secret, pause_for_approval, request_approval, settle, claim_or_return,
  go_on, Outcome, duplicate_action, first_action, recorded_action, record_effect, begin_call,
  lost_by, lost_claim, claimed, perform,
}
use rakazo.Effects.Dispatch.Histories.{
  is_allowed, answer_approval, Pending, World, fresh_world, Move, begins, goes_on, answers,
  submits_secret, completes, replaces, runs_of, ran, nth_pending, go_on_with, begun, expected, step,
  history,
}
use rakazo.Effects.Dispatch.Histories.Queued.{nth-All, without_nth-All}
use rakazo.Effects.Dispatch.Histories.Unapproved.{
  Unapproved, complete-Unapproved, replace-Unapproved, settle-Unapproved, claim-Unapproved,
  record_row-Unapproved, answered-Unapproved, answer_secret-Unapproved,
}

-- The calls of `k` are of a tool that asks: none only reads and none is `request_secret`.
abbrev pub Asking : Text → Call → Type 0
Asking k call =
    text_eq call.key k ≡ true
    → (call.is_read_only ≡ false)
      × (call.needs_approval ≡ true)
      × (is_request_secret call.name ≡ false)

module _ {V : Type 0} where
  -- A move that neither makes another kind of call of `k` nor allows it.
  abbrev pub AskingMove : Text → Move V → Type 0
  AskingMove k (begins call) = Asking k call
  AskingMove k (answers key a) = text_eq key k ≡ true → is_allowed a ≡ false
  AskingMove k _ = Unit {0}

  -- The action is neither to run the tool nor to claim it without an answer.
  abbrev Asks : Action V → Type 0
  Asks go_on = false ≡ true
  Asks (claim_or_return from_intended) = false ≡ true
  Asks _ = Unit {0}

  if-Asks : (b : Bool) (x y : Action V) → Asks x → Asks y → Asks (if b then x else y)
  if-Asks true x y u v = u
  if-Asks false x y u v = v

  duplicate_action-Asks :
      (call : Call) (g : DuplicateEffectGate V)
      → is_request_secret call.name ≡ false
      → call.needs_approval ≡ true
      → Asks (duplicate_action call g)
  unfolding duplicate_action
  duplicate_action-Asks call (return r) h n = rw h tt
  duplicate_action-Asks call paused h n =
      rw (h, n) (if-Asks call.waiting_input pause_for_approval request_approval tt tt)
  duplicate_action-Asks call (unclear t) h n = tt
  duplicate_action-Asks call execute h n = tt

  recorded_action-Asks :
      (call : Call) (r : Recorded V)
      → is_request_secret call.name ≡ false
      → call.needs_approval ≡ true
      → Asks (recorded_action call r)
  unfolding recorded_action first_action
  recorded_action-Asks call r h n = elim (Bool-cases r.duplicate) [
    | inl again ↦
        rw again (duplicate_action-Asks call (resolve_duplicate_effect_gate r.effect call.name) h n)
    | inr first ↦ rw (first, n) tt
  ]

  begin_call-Asks :
      (k : Text) (call : Call) (s : Store V)
      → Asking k call
      → text_eq call.key k ≡ true
      → Asks (begin_call call s).0
  unfolding begin_call
  begin_call-Asks k call s g same =
      let (reads, needs, no_secret) = g same in
      rw reads (recorded_action-Asks call _ no_secret needs)

  begin_call-Unapproved :
      (k : Text) (call : Call) (s : Store V)
      → Asking k call
      → Unapproved (get k s)
      → Unapproved (get k (begin_call call s).1)
  unfolding begin_call record_effect
  begin_call-Unapproved k call s g u = elim (Bool-cases call.is_read_only) [
    | inl reads ↦ rw reads u
    | inr writes ↦
        rw writes
          (record_row-Unapproved k call.key call.name s (get call.key s) (λ same. (g same).2) u)
  ]

  -- The tool of `k` did not run, and its row is not approved.
  abbrev Quiet : Text → Text → List Text → Store V × Outcome V → Type 0
  Quiet k id xs (after, outcome) =
      (runs_of k (ran outcome id xs) ≡ runs_of k xs) × Unapproved (get k after)

  lost_by-Quiet :
      (k id name : Text) (xs : List Text) (s : Store V) (g : DuplicateEffectGate V)
      → Unapproved (get k s)
      → Quiet k id xs (lost_by g id name s)
  unfolding lost_by
  lost_by-Quiet k id name xs s (return r) u = (refl, u)
  lost_by-Quiet k id name xs s (unclear t) u = (refl, settle-Unapproved k id name s u)
  lost_by-Quiet k id name xs s paused u = (refl, u)
  lost_by-Quiet k id name xs s execute u = (refl, u)

  lost_claim-Quiet :
      (k id name : Text) (xs : List Text) (s : Store V) (o : Option (Effect V))
      → Unapproved (get k s)
      → Quiet k id xs (lost_claim o id name s)
  unfolding lost_claim
  lost_claim-Quiet k id name xs s none u = (refl, u)
  lost_claim-Quiet k id name xs s (some e) u =
      lost_by-Quiet k id name xs s (resolve_duplicate_effect_gate e name) u

  claimed-Quiet :
      (k id name : Text) (xs : List Text) (got : Bool) (s : Store V)
      → (text_eq id k ≡ true → got ≡ false)
      → Unapproved (get k s)
      → Quiet k id xs (claimed id name (got, s))
  unfolding claimed runs_of
  claimed-Quiet k id name xs true s n u = elim (Bool-cases (text_eq id k)) [
    | inl same ↦ absurd (false≢true (sym (n same)))
    | inr other ↦ (rw other, u)
  ]
  claimed-Quiet k id name xs false s n u = lost_claim-Quiet k id name xs s (get id s) u

  approved_not_claimed :
      (id : Text) (s : Store V) (o : Option (Effect V))
      → Unapproved o
      → (is_one (update_row o id approved (with_status executing) s)).0 ≡ false
  unfolding update_row
  approved_not_claimed id s none u = refl
  approved_not_claimed id s (some e) u = rw u.0

  perform-Quiet :
      (k id name : Text) (xs : List Text) (a : Action V) (s : Store V)
      → (text_eq id k ≡ true → Asks a)
      → Unapproved (get k s)
      → Quiet k id xs (perform id name a s)
  unfolding perform runs_of claim_approved_effect claim_intended_effect update_many
  perform-Quiet k id name xs (return_result r) s h u = (refl, u)
  perform-Quiet k id name xs (drop_secret r) s h u = (refl, u)
  perform-Quiet k id name xs pause_for_secret s h u = (refl, u)
  perform-Quiet k id name xs pause_for_approval s h u = (refl, u)
  perform-Quiet k id name xs request_approval s h u = (refl, u)
  perform-Quiet k id name xs (settle t) s h u = (refl, settle-Unapproved k id t s u)
  perform-Quiet k id name xs (claim_or_return from_approved) s h u =
      claimed-Quiet k id name xs _ _
        (λ same.
          approved_not_claimed id s (get id s)
            (subst (λ j. Unapproved (get j s)) (sym ((text_eq_iff id k).0 same)) u))
        (claim-Unapproved k id approved s u)
  perform-Quiet k id name xs (claim_or_return from_intended) s h u =
      claimed-Quiet k id name xs _ _ (λ same. absurd (false≢true (h same)))
        (claim-Unapproved k id intended s u)
  perform-Quiet k id name xs go_on s h u = elim (Bool-cases (text_eq id k)) [
    | inl same ↦ absurd (false≢true (h same))
    | inr other ↦ (rw other, u)
  ]

  -- Every pending call of `k` asks.
  abbrev AllAsk : Text → List (Pending V) → Type 0
  AllAsk k = All (λ p. text_eq p.call.key k ≡ true → Asks p.action)

  nth-AllAsk :
      (k : Text) (n : ℕ) (ps : List (Pending V)) (p : Pending V)
      → nth_pending n ps ≡ some p
      → AllAsk k ps
      → text_eq p.call.key k ≡ true
      → Asks p.action
  nth-AllAsk k n ps p = nth-All (λ q. text_eq q.call.key k ≡ true → Asks q.action) n ps p

  abbrev Silent : Text → World V → World V → Type 0
  Silent k w after =
      AllAsk k after.pending
      × Unapproved (get k after.store)
      × (runs_of k after.executed ≡ runs_of k w.executed)

  go_on_with-Silent :
      (k : Text) (n : ℕ) (w : World V) (o : Option (Pending V))
      → nth_pending n w.pending ≡ o
      → AllAsk k w.pending
      → Unapproved (get k w.store)
      → Silent k w (go_on_with o n w)
  unfolding go_on_with
  go_on_with-Silent k n w none e r u = (r, u, refl)
  go_on_with-Silent k n w (some p) e r u =
      let (same, still) =
        perform-Quiet k p.call.key p.call.name w.executed p.action w.store
          (nth-AllAsk k n w.pending p e r) u in
      (
        without_nth-All (λ q. text_eq q.call.key k ≡ true → Asks q.action) n w.pending r,
        still,
        same,
      )

  step-Silent :
      (k : Text) (m : Move V) (w : World V)
      → AskingMove k m
      → AllAsk k w.pending
      → Unapproved (get k w.store)
      → Silent k w (step m w)
  unfolding step begun answer_approval
  step-Silent k (begins call) w g r u =
      ((begin_call-Asks k call w.store g, r), begin_call-Unapproved k call w.store g u, refl)
  step-Silent k (goes_on n) w g r u = go_on_with-Silent k n w (nth_pending n w.pending) refl r u
  step-Silent k (answers id a) w g r u =
      (r, answered-Unapproved k id a w.store (get id w.store) refl g u, refl)
  step-Silent k submits_secret w g r u = (r, answer_secret-Unapproved k w.store u, refl)
  step-Silent k (completes id c v) w g r u =
      (r, complete-Unapproved k id (expected c) v w.store u, refl)
  step-Silent k (replaces id v) w g r u = (r, replace-Unapproved k id v w.store u, refl)

  history-Silent :
      (k : Text) (ms : List (Move V)) (w : World V)
      → All (AskingMove k) ms
      → AllAsk k w.pending
      → Unapproved (get k w.store)
      → Silent k w (history ms w)
  unfolding history
  history-Silent k [] w g r u = (r, u, refl)
  history-Silent k (m ∷ ms) w (g, gs) r u =
      let (after, row, same) = step-Silent k m w g r u in
      let (last, end_row, still) = history-Silent k ms (step m w) gs after row in
      (last, end_row, still ∙ same)

  -- A tool that asks never runs before it is allowed: in every history that starts with no call
  -- pending, none run and no row for the key, and in which no answer allows that key, it runs no time,
  -- whatever else happens in whatever order; the calls of the key all ask, none is read-only and none
  -- is `request_secret`.
  pub not_run_before_allowed :
      (k : Text) (ms : List (Move V)) (s : Store V)
      → get k s ≡ none
      → All (AskingMove k) ms
      → runs_of k (history ms (fresh_world s)).executed ≡ 0
  unfolding runs_of
  not_run_before_allowed k ms s e g =
      (history-Silent k ms (fresh_world s) g tt (subst Unapproved (sym e) tt)).2
