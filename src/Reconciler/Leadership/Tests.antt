-- ===== src/Reconciler/Leadership/Tests.antt =====
-- A process that leads, loses its connection, is refused, and leads again until it stops.
use rakazo.Common.{true, false, List, [], ◌∷◌}
use rakazo.Reconciler.Leadership.{
  answered, failed, LeaderMove, tries, loses, releases, fresh_leadership, leader_history,
}
use rakazo.Reconciler.Leadership.Connections.{IsClean, no_lock_goes_back}

abbrev leader_moves : List LeaderMove
leader_moves =
    tries (answered true)
    ∷ loses 0
    ∷ tries (answered false)
    ∷ tries failed
    ∷ tries (answered true)
    ∷ releases (answered true)
    ∷ []

no_lock_goes_back_example : IsClean (leader_history leader_moves fresh_leadership)
no_lock_goes_back_example = no_lock_goes_back leader_moves
