-- ===== src/Effects/Dispatch/Histories/Once.antt =====
-- However the workers' calls interleave with one another and with the answers, a consequential call runs
-- its tool at most once.
use rakazo.Common.{
  ℕ, ◌+◌, ◌≤◌, Bool, true, false, ◌||◌, List, [], ◌∷◌, Option, none, some, Text, text_eq, get, All,
  ◌≡◌, refl, inl, inr, Bool-cases, arith,
}
use mathlib.Core.Bool.{false≢true}
use rakazo.Effects.{
  EffectStatus, intended, approved, Effect, Store, DuplicateEffectGate, execute, return, paused,
  unclear, resolve_duplicate_effect_gate,
}
use rakazo.Effects.Dispatch.{
  is_request_secret, Call, Recorded, from_approved, from_intended, Action, return_result,
  drop_secret, pause_for_secret, pause_for_approval, request_approval, settle, claim_or_return,
  go_on, Outcome, duplicate_action, first_action, recorded_action, begin_call, lost_by, lost_claim,
  claimed, perform,
}
use rakazo.Effects.Dispatch.Histories.{
  Pending, World, fresh_world, Move, begins, goes_on, answers, submits_secret, completes, replaces,
  Gated, GatedMove, runs_of, ran, nth_pending, go_on_with, begun, expected, step, history,
}
use rakazo.Effects.Dispatch.Histories.Queued.{nth-All, without_nth-All}
use rakazo.Effects.Dispatch.Histories.Rows.{
  left_of, left, hit, complete-left, replace-left, settle-left, record_effect-left,
  answer_approval-left, answer_secret-left, claim_approved-left, claim_intended-left,
}

bypass_of :
    (call : Call)
    → (call.needs_approval || call.bypass_approval) ≡ true
    → call.needs_approval ≡ false
    → call.bypass_approval ≡ true
bypass_of call h n = ground arith

left_of-le : (t : EffectStatus) → left_of t ≤ 1
left_of-le t = ground arith

abbrev pub is_claimable : EffectStatus → Bool
is_claimable intended = true
is_claimable approved = true
is_claimable _ = false

left_of_unclaimable : (t : EffectStatus) → is_claimable t ≡ false → left_of t ≡ 0
left_of_unclaimable t h = ground arith

unclaimed-runs :
    (k id : Text) (xs : List Text) → text_eq id k ≡ false → runs_of k (id ∷ xs) ≡ runs_of k xs
unfolding runs_of
unclaimed-runs k id xs h = rw h

module _ {V : Type 0} where
  -- The action is not to run the tool without a claim.
  abbrev Claims : Action V → Type 0
  Claims go_on = false ≡ true
  Claims _ = Unit {0}

  duplicate_action-Claims :
      (call : Call) (g : DuplicateEffectGate V)
      → is_request_secret call.name ≡ false
      → Claims (duplicate_action call g)
  unfolding duplicate_action
  duplicate_action-Claims call (return r) h = rw h tt
  duplicate_action-Claims call paused h = rw h (ground arith)
  duplicate_action-Claims call (unclear t) h = tt
  duplicate_action-Claims call execute h = tt

first_action-Claims :
    (V : Type 0) (call : Call)
    → (call.needs_approval || call.bypass_approval) ≡ true
    → Claims (first_action {V = V} call)
unfolding first_action
first_action-Claims V call h = elim (Bool-cases call.needs_approval) [
  | inl needs ↦ rw needs tt
  | inr bypasses ↦ rw (bypasses, bypass_of call h bypasses) tt
]

module _ {V : Type 0} where
  recorded_action-Claims :
      (call : Call) (r : Recorded V)
      → is_request_secret call.name ≡ false
      → (call.needs_approval || call.bypass_approval) ≡ true
      → Claims (recorded_action call r)
  unfolding recorded_action
  recorded_action-Claims call r h g = elim (Bool-cases r.duplicate) [
    | inl again ↦
        rw again (duplicate_action-Claims call (resolve_duplicate_effect_gate r.effect call.name) h)
    | inr first ↦ rw first (first_action-Claims V call g)
  ]

  begin_call-Claims :
      (k : Text) (call : Call) (s : Store V)
      → Gated k call
      → text_eq call.key k ≡ true
      → Claims (begin_call call s).0
  unfolding begin_call
  begin_call-Claims k call s g same =
      let (reads, gated, no_secret) = g same in
      rw reads (recorded_action-Claims call _ no_secret gated)

  begin_call-left :
      (k : Text) (call : Call) (s : Store V) → left (get k (begin_call call s).1) ≤ left (get k s)
  unfolding begin_call
  begin_call-left k call s = elim (Bool-cases call.is_read_only) [
    | inl reads ↦ rw reads (omega arith)
    | inr writes ↦ rw writes (record_effect-left k call.key call.name s)
  ]

  -- The runs of `k` so far with the one of this outcome, and the claims of its row that are left.
  abbrev weight : Text → Text → List Text → Store V × Outcome V → ℕ
  weight k id executed (after, outcome) = runs_of k (ran outcome id executed) + left (get k after)

  lost_by-weight :
      (k id name : Text) (xs : List Text) (s : Store V) (g : DuplicateEffectGate V)
      → weight k id xs (lost_by g id name s) ≤ runs_of k xs + left (get k s)
  unfolding lost_by
  lost_by-weight k id name xs s (return r) = omega arith
  lost_by-weight k id name xs s (unclear t) = omega (arith, settle-left k id name s)
  lost_by-weight k id name xs s paused = omega arith
  lost_by-weight k id name xs s execute = omega arith

  lost_claim-weight :
      (k id name : Text) (xs : List Text) (s : Store V) (o : Option (Effect V))
      → weight k id xs (lost_claim o id name s) ≤ runs_of k xs + left (get k s)
  unfolding lost_claim
  lost_claim-weight k id name xs s none = omega arith
  lost_claim-weight k id name xs s (some e) =
      lost_by-weight k id name xs s (resolve_duplicate_effect_gate e name)

  claimed-weight :
      (k id name : Text) (xs : List Text) (n : ℕ) (got : Bool) (s : Store V)
      → hit k got id + left (get k s) ≤ n
      → weight k id xs (claimed id name (got, s)) ≤ runs_of k xs + n
  unfolding claimed runs_of
  claimed-weight k id name xs n true s h = ground arith
  claimed-weight k id name xs n false s h =
      omega (arith, lost_claim-weight k id name xs s (get id s))

  perform-weight :
      (k id name : Text) (xs : List Text) (a : Action V) (s : Store V)
      → (text_eq id k ≡ true → Claims a)
      → weight k id xs (perform id name a s) ≤ runs_of k xs + left (get k s)
  unfolding perform
  perform-weight k id name xs (return_result r) s h = omega arith
  perform-weight k id name xs (drop_secret r) s h = omega arith
  perform-weight k id name xs pause_for_secret s h = omega arith
  perform-weight k id name xs pause_for_approval s h = omega arith
  perform-weight k id name xs request_approval s h = omega arith
  perform-weight k id name xs (settle t) s h = omega (arith, settle-left k id t s)
  perform-weight k id name xs (claim_or_return from_approved) s h =
      claimed-weight k id name xs (left (get k s)) _ _ (claim_approved-left k id s)
  perform-weight k id name xs (claim_or_return from_intended) s h =
      claimed-weight k id name xs (left (get k s)) _ _ (claim_intended-left k id s)
  perform-weight k id name xs go_on s h = elim (Bool-cases (text_eq id k)) [
    | inl same ↦ absurd (false≢true (h same))
    | inr other ↦ omega (arith, unclaimed-runs k id xs other)
  ]

  -- Every pending call of `k` is to claim before it runs.
  abbrev Ready : Text → List (Pending V) → Type 0
  Ready k = All (λ p. text_eq p.call.key k ≡ true → Claims p.action)

  abbrev total : Text → World V → ℕ
  total k w = runs_of k w.executed + left (get k w.store)

  abbrev Kept : Text → World V → World V → Type 0
  Kept k w after = Ready k after.pending × (total k after ≤ total k w)

  go_on_with-Kept :
      (k : Text) (n : ℕ) (w : World V) (o : Option (Pending V))
      → nth_pending n w.pending ≡ o
      → Ready k w.pending
      → Kept k w (go_on_with o n w)
  unfolding go_on_with
  go_on_with-Kept k n w none e r = (r, omega arith)
  go_on_with-Kept k n w (some p) e r = (
    without_nth-All (λ q. text_eq q.call.key k ≡ true → Claims q.action) n w.pending r,
    perform-weight k p.call.key p.call.name w.executed p.action w.store
        (nth-All (λ q. text_eq q.call.key k ≡ true → Claims q.action) n w.pending p e r),
  )

  step-Kept :
      (k : Text) (m : Move V) (w : World V)
      → GatedMove k m
      → Ready k w.pending
      → Kept k w (step m w)
  unfolding step begun
  step-Kept k (begins call) w g r =
      ((begin_call-Claims k call w.store g, r), omega (arith, begin_call-left k call w.store))
  step-Kept k (goes_on n) w g r = go_on_with-Kept k n w (nth_pending n w.pending) refl r
  step-Kept k (answers id a) w g r = (r, omega (arith, answer_approval-left k id a w.store))
  step-Kept k submits_secret w g r = (r, omega (arith, answer_secret-left k w.store))
  step-Kept k (completes id c v) w g r =
      (r, omega (arith, complete-left k id (expected c) v w.store))
  step-Kept k (replaces id v) w g r = (r, omega (arith, replace-left k id v w.store))

  history-Kept :
      (k : Text) (ms : List (Move V)) (w : World V)
      → All (GatedMove k) ms
      → Ready k w.pending
      → Kept k w (history ms w)
  unfolding history
  history-Kept k [] w g r = (r, omega arith)
  history-Kept k (m ∷ ms) w (g, gs) r =
      let (after, less) = step-Kept k m w g r in
      let (last, still) = history-Kept k ms (step m w) gs after in
      (last, omega (arith, less, still))

  left-le : (o : Option (Effect V)) → left o ≤ 1
  left-le none = omega arith
  left-le (some e) = left_of-le e.status

  left_of_row :
      (k : Text) (s : Store V) (e : Effect V)
      → get k s ≡ some e
      → left_of e.status ≡ 0
      → left (get k s) ≡ 0
  left_of_row k s e h z = rw h z

  -- In every history that starts with no call pending and none run, with any table of effects, the
  -- tool of a key runs at most once, whatever the order of the workers' calls, answers and results,
  -- provided the calls of that key are consequential: each asks or bypasses, none is read-only and
  -- none is `request_secret`.
  pub executed_once :
      (k : Text) (ms : List (Move V)) (s : Store V)
      → All (GatedMove k) ms
      → runs_of k (history ms (fresh_world s)).executed ≤ 1
  unfolding runs_of
  executed_once k ms s g =
      omega (arith, (history-Kept k ms (fresh_world s) g tt).1, left-le (get k s))

  -- An effect that is recorded as neither intended nor approved is never run again: no history that
  -- starts with it, with no call pending and none run, runs the tool of its key, provided the calls of
  -- that key are consequential: each asks or bypasses, none is read-only and none is `request_secret`.
  settled_never_runs :
      (k : Text) (ms : List (Move V)) (s : Store V) (e : Effect V)
      → get k s ≡ some e
      → is_claimable e.status ≡ false
      → All (GatedMove k) ms
      → runs_of k (history ms (fresh_world s)).executed ≡ 0
  unfolding runs_of
  settled_never_runs k ms s e h z g =
      let (r, less) = history-Kept k ms (fresh_world s) g tt in
      omega (arith, less, left_of_row k s e h (left_of_unclaimable e.status z))
