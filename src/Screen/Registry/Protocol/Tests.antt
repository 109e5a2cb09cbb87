-- ===== src/Screen/Registry/Protocol/Tests.antt =====
-- Screens and their leases at concrete inputs.
use rakazo.Common.{
  ℕ, ◌<◌, ◌≤◌, true, false, List, [], ◌∷◌, Option, none, some, Text, lit, get, put, text_eq, err,
  ◌≡◌, ◌≢◌, refl, arith,
}
use rakazo.Screen.Lease.{
  screen_lease_id, parse_screen_lease_id, can_take_screen_lease, can_release_screen_lease,
}
use rakazo.Screen.Lease.Laws.{fence_at, parse-screen_lease_id}
use rakazo.Screen.Registry.{
  ScreenAssignment, Assigned, team_screen_limit, next_screen_index, release_assigned_screen,
  complete_released_screen, next_at, allocate, first_free, take_over, release_at, complete_at,
  still_being_released,
}
use rakazo.Screen.Registry.Invariant.{Inv}
use rakazo.Screen.Registry.Protocol.{Call, acquire, release, complete, run, step, run_exclusive}
use rakazo.Screen.Registry.Protocol.Releases.{release_protocol}
use rakazo.Screen.Registry.Protocol.Fences.{StaysAssigned, fence_monotone}

abbrev no_number : Text → Option ℕ
no_number s = none

nonempty : {c : ℕ} {s : Text} → (c ∷ s) ≢ []
nonempty e = ground arith

parse-screen_lease_id_example :
    parse_screen_lease_id no_number (screen_lease_id (lit "run:1") 12)
    ≡ record { owner_id = lit "run:1"; fence = 12 }
parse-screen_lease_id_example = parse-screen_lease_id no_number (lit "run:1") 12 nonempty

abbrev two_calls : List Call
two_calls = acquire (lit "a") (some (lit "r:1")) ∷ acquire (lit "b") (some (lit "s:1")) ∷ []

abbrev slot : ℕ → Text → ScreenAssignment
slot index lease = record { index = index; lease_id = some lease; releasing = false }

abbrev two_screens : Assigned
two_screens = (lit "a", slot 0 (lit "r:1")) ∷ (lit "b", slot 1 (lit "s:1")) ∷ []

got_a : get (lit "a") (run no_number [] two_calls) ≡ some (slot 0 (lit "r:1"))
unfolding get run step next_screen_index put text_eq
got_a = refl

got_b : get (lit "b") (run no_number [] two_calls) ≡ some (slot 1 (lit "s:1"))
unfolding get run step next_screen_index put text_eq next_at allocate first_free
got_b = refl

run_exclusive_example : (0 < team_screen_limit) × (◌≡◌ {A = ℕ} 0 1 → lit "a" ≡ lit "b")
run_exclusive_example =
    run_exclusive no_number two_calls (lit "a") (lit "b") (slot 0 (lit "r:1")) (slot 1 (lit "s:1"))
      got_a got_b

assigned_a : get (lit "a") two_screens ≡ some (slot 0 (lit "r:1"))
unfolding get text_eq
assigned_a = refl

-- A take-over, a request without a lease, a release and a completion of an index that it does not have.
abbrev calls_on_a : List Call
calls_on_a =
    acquire (lit "a") (some (lit "r:2"))
    ∷ acquire (lit "a") none
    ∷ release (lit "a") none
    ∷ complete (lit "a") 3
    ∷ []

abbrev last_slot : ScreenAssignment
last_slot = record { index = 0; lease_id = some (lit "r:2"); releasing = true }

ends_with : get (lit "a") (run no_number two_screens calls_on_a) ≡ some last_slot
unfolding get text_eq put run step next_screen_index next_at take_over can_take_screen_lease
    parse_screen_lease_id release_assigned_screen release_at complete_released_screen complete_at
    can_release_screen_lease
ends_with = refl

stays : StaysAssigned no_number (lit "a") two_screens calls_on_a
unfolding get text_eq put step next_screen_index next_at take_over can_take_screen_lease
    parse_screen_lease_id release_assigned_screen release_at complete_released_screen complete_at
    can_release_screen_lease
stays = (refl, (refl, (refl, (refl, tt))))

abbrev releasing : Assigned
releasing =
    (lit "a", record { index = 0; lease_id = some (lit "r:1"); releasing = true })
    ∷ (lit "b", slot 1 (lit "s:1"))
    ∷ []

two_screens-Inv : Inv 8 two_screens
unfolding text_eq
two_screens-Inv = record {
  keys = ((refl, tt), (tt, tt));
  below = ground arith;
  distinct = ground arith;
}

released :
    release_assigned_screen no_number two_screens (lit "a") (some (lit "r:1")) ≡ (some 0, releasing)
unfolding get text_eq put release_assigned_screen release_at can_release_screen_lease
released = refl

-- Nothing of these completes the release: a stale completion, one of another screen, and requests.
abbrev calls_after : List Call
calls_after =
    complete (lit "a") 3
    ∷ complete (lit "b") 0
    ∷ acquire (lit "a") (some (lit "r:9"))
    ∷ release (lit "a") none
    ∷ acquire (lit "c") none
    ∷ []

release_protocol_example :
    let now = run no_number releasing calls_after in
    (next_screen_index no_number now (lit "a") (some (lit "r:2")) 8 ≡ err still_being_released)
    × (release_assigned_screen no_number now (lit "a") none ≡ (none, now))
    × (get (lit "a") (complete_released_screen now (lit "a") 0) ≡ none)
unfolding text_eq
release_protocol_example =
    release_protocol no_number two_screens releasing (lit "a") (some (lit "r:1")) (some (lit "r:2"))
      none 0 calls_after two_screens-Inv released (refl, (refl, (tt, (tt, (tt, tt)))))

fence_monotone_example :
    (l : Text) × (some (lit "r:2") ≡ some l)
    × (fence_at no_number (lit "r:1") ≤ fence_at no_number l)
fence_monotone_example =
    fence_monotone no_number two_screens calls_on_a (lit "a") (lit "r:1") (slot 0 (lit "r:1"))
      last_slot two_screens-Inv assigned_a refl nonempty stays ends_with
