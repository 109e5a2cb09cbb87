-- ===== src/Live/Projection/Reset.antt =====
-- What clearing a thread and ending a run do to the messages that a thread shows.
use rakazo.Common.{List, [], ◌∷◌, ◌++◌, Text, ◌≡◌, refl, ap, ◌∙◌}
use rakazo.Live.Projection.{
  Event, thread_cleared, State, empty, apply, apply_all, collect, project_messages,
}

module _ (to_lower to_upper : Text → Text) where
  apply_all-append :
      (s : State) (es fs : List Event)
      → apply_all to_lower to_upper s (es ++ fs)
        ≡ apply_all to_lower to_upper (apply_all to_lower to_upper s es) fs
  unfolding apply_all
  apply_all-append s [] fs = refl
  apply_all-append s (e ∷ es) fs = apply_all-append (apply to_lower to_upper s e e.body) es fs

  -- Clearing a thread hides all that came before: what it shows is what the later events add up to.
  pub project_messages-cleared :
      (es fs : List Event) (e : Event)
      → e.body ≡ thread_cleared
      → project_messages to_lower to_upper (es ++ e ∷ fs) ≡ project_messages to_lower to_upper fs
  unfolding project_messages apply_all
  project_messages-cleared es fs e h = ap (collect to_lower to_upper) (
      apply_all-append empty es (e ∷ fs)
      ∙ ap (λ s. apply_all to_lower to_upper s fs) (cleared (apply_all to_lower to_upper empty es)))
    where
      cleared : (s : State) → apply to_lower to_upper s e e.body ≡ empty
      cleared s = rw h refl
