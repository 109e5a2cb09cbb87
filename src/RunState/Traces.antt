-- ===== src/RunState/Traces.antt =====
-- Histories of a run: the statuses that a sequence of `assertTransition` calls lets it take.
use rakazo.Common.{
  true, List, [], ◌∷◌, ◌++◌, ap, ◌≡◌, ◌≢◌, refl, sym, subst, ◌⊎◌, arith, Result, ok, ◌>>◌,
}
use rakazo.RunState.{
  RunStatus, running, waiting_input, waiting_takeover, completed, failed, cancelled,
  IllegalTransition, can_transition, assert_transition,
}
use rakazo.RunState.Table.{outcome_from_running}

-- A run that is asked to take the statuses of the list in turn; the first refusal stops it.
unfoldable pub follow : RunStatus → List RunStatus → Result IllegalTransition RunStatus
follow s [] = ok s
follow s (t ∷ ts) = do assert_transition s t; follow t ts

pub data Step : RunStatus → RunStatus → Type 0 where
  move : {s t : RunStatus} → can_transition s t ≡ true → Step s t

pub data Reach (s : RunStatus) : RunStatus → Type 0 where
  here : Reach s s
  next : {t u : RunStatus} → Reach s t → Step t u → Reach s u

assert_true :
    (s t : RunStatus) (r : Result IllegalTransition RunStatus) (u : RunStatus)
    → (assert_transition s t >> r) ≡ ok u
    → (can_transition s t ≡ true) × (r ≡ ok u)
unfolding assert_transition can_transition
assert_true s t r u h = ground arith

extend : {s t u : RunStatus} → Step s t → Reach t u → Reach s u
extend st here = next here st
extend st (next r st') = next (extend st r) st'

-- What `assertTransition` lets pass one after the other is reachable by the table.
follow-Reach : (s u : RunStatus) (ts : List RunStatus) → follow s ts ≡ ok u → Reach s u
unfolding follow
follow-Reach s u [] h = subst (Reach s) (ground arith) here
follow-Reach s u (t ∷ ts) h =
    let (can, rest) = assert_true s t (follow t ts) u h in
    extend (move can) (follow-Reach t u ts rest)

stuck-Step : {s t : RunStatus} → (s ≡ completed) ⊎ (s ≡ cancelled) → Step s t → ⊥
unfolding can_transition
stuck-Step e (move {s = s} h) = ground arith

-- A completed or cancelled run keeps its status in every history.
pub final-Reach : {s t : RunStatus} → (s ≡ completed) ⊎ (s ≡ cancelled) → Reach s t → t ≡ s
final-Reach e here = refl
final-Reach e (next r st) =
    absurd
      (stuck-Step (subst (λ x. (x ≡ completed) ⊎ (x ≡ cancelled)) (sym (final-Reach e r)) e) st)

last_move :
    (s x t : RunStatus) (ts : List RunStatus)
    → (t ≡ completed) ⊎ (t ≡ failed) ⊎ (t ≡ waiting_input) ⊎ (t ≡ waiting_takeover)
    → follow s (x ∷ ts) ≡ ok t
    → (before : List RunStatus) × (s ∷ x ∷ ts ≡ before ++ running ∷ t ∷ [])
unfolding follow
last_move s x t [] w h =
    let (can, rest) = assert_true s x (follow x []) t h in
    let e : x ≡ t = ground arith in
    let r = outcome_from_running s t w (subst (λ y. can_transition s y ≡ true) e can) in
    ([], rw (r, e) refl)
last_move s x t (y ∷ ts) w h =
    let (can, rest) = assert_true s x (follow x (y ∷ ts)) t h in
    let (before, e) = last_move x y t ts w rest in (s ∷ before, ap (◌∷◌ s) e)

-- When a run is asked to take the statuses of a list in turn, none is refused, and it ends completed,
-- failed or waiting, in a status other than the one it began with, then the status right before the
-- last one is running.
pub outcome_follows_running :
    (s t : RunStatus) (ts : List RunStatus)
    → s ≢ t
    → (t ≡ completed) ⊎ (t ≡ failed) ⊎ (t ≡ waiting_input) ⊎ (t ≡ waiting_takeover)
    → follow s ts ≡ ok t
    → (before : List RunStatus) × (s ∷ ts ≡ before ++ running ∷ t ∷ [])
unfolding follow
outcome_follows_running s t [] n w h = absurd (n (ground arith))
outcome_follows_running s t (x ∷ ts) n w h = last_move s x t ts w h
