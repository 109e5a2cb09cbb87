-- ===== src/RunState/Tests.antt =====
-- A run's statuses at concrete inputs.
use rakazo.Common.{List, [], ◌∷◌, ◌++◌, ◌≡◌, ◌≢◌, inl, refl, arith, ok}
use rakazo.RunState.{
  RunStatus, queued, leased, running, completed, can_transition, assert_transition,
}
use rakazo.RunState.Traces.{follow, outcome_follows_running}

abbrev statuses : List RunStatus
statuses = leased ∷ queued ∷ leased ∷ running ∷ completed ∷ []

queued_not_completed : queued ≢ completed
queued_not_completed e = ground arith

all_allowed : follow queued statuses ≡ ok completed
unfolding follow assert_transition can_transition
all_allowed = refl

outcome_follows_running_example :
    (before : List RunStatus) × (queued ∷ statuses ≡ before ++ running ∷ completed ∷ [])
outcome_follows_running_example =
    outcome_follows_running queued completed statuses queued_not_completed (inl refl) all_allowed
