-- ===== src/Reconciler/Leadership.antt =====
-- packages/adapters/src/job-reconciler.ts, `createPostgresReconciliationLeadership`: the connection on
-- which a process holds the lock, and the connections of the pool. What the pool and the server answer
-- is an argument of each step. `out` lists the connections that are checked out, `returned` those given
-- back with whether they are destroyed, and `may_hold` those whose session the server may have given the
-- lock and not surely taken it back.
pub mod Connections
mod Tests
use rakazo.Common.{
  ℕ, suc, ◌==◌, Bool, true, false, not, List, [], ◌∷◌, Option, none, some, select, if◌then◌else◌,
}

-- What a query gives: a truth value, or it fails.
pub data Answer : Type 0 where
  answered : Bool → Answer
  failed : Answer

pub record Leadership : Type 0 where
  pub leader_client : Option ℕ
  pub next_client : ℕ
  pub out : List ℕ
  pub returned : List (ℕ × Bool)
  pub may_hold : List ℕ

pub fresh_leadership : Leadership
fresh_leadership = record {
  leader_client = none;
  next_client = 0;
  out = [];
  returned = [];
  may_hold = [];
}

abbrev pub without : ℕ → List ℕ → List ℕ
without client = select (λ c. not (c == client))

-- `client.release(destroy)`
give_back : ℕ → Bool → Leadership → Leadership
give_back client destroy s = record s {
  out = without client s.out;
  returned = (client, destroy) ∷ s.returned;
}

-- `pool.connect()`: a connection that is not in use.
connect : Leadership → Leadership
connect s = record s { next_client = suc s.next_client; out = s.next_client ∷ s.out }

locked : ℕ → Answer → Leadership → Leadership
unfolding give_back
locked candidate (answered true) s = record s {
  leader_client = some candidate;
  may_hold = candidate ∷ s.may_hold;
}
locked candidate (answered false) s = give_back candidate false s
locked candidate failed s =
    give_back candidate true (record s { may_hold = candidate ∷ s.may_hold })

acquire : Option ℕ → Answer → Leadership → Leadership
unfolding locked connect
acquire (some client) answer s = s
acquire none answer s = locked s.next_client answer (connect s)

pub try_acquire : Answer → Leadership → Leadership
unfolding acquire
try_acquire answer s = acquire s.leader_client answer s

lose : Option ℕ → ℕ → Leadership → Leadership
unfolding give_back
lose none client s = s
lose (some leader) client s =
    if leader == client then give_back client true (record s { leader_client = none }) else s

-- The error event of a connection.
pub lose_client : ℕ → Leadership → Leadership
unfolding lose
lose_client client s = lose s.leader_client client s

unlocked : ℕ → Answer → Leadership → Leadership
unfolding give_back
unlocked client (answered true) s =
    give_back client false (record s { may_hold = without client s.may_hold })
unlocked client (answered false) s = give_back client true s
unlocked client failed s = give_back client true s

let_go : Option ℕ → Answer → Leadership → Leadership
unfolding unlocked
let_go none answer s = s
let_go (some client) answer s = unlocked client answer (record s { leader_client = none })

pub release : Answer → Leadership → Leadership
unfolding let_go
release answer s = let_go s.leader_client answer s

pub data LeaderMove : Type 0 where
  tries : Answer → LeaderMove
  loses : ℕ → LeaderMove
  releases : Answer → LeaderMove

leader_step : LeaderMove → Leadership → Leadership
leader_step (tries a) s = try_acquire a s
leader_step (loses c) s = lose_client c s
leader_step (releases a) s = release a s

pub leader_history : List LeaderMove → Leadership → Leadership
unfolding leader_step
leader_history [] s = s
leader_history (m ∷ ms) s = leader_history ms (leader_step m s)
