-- ===== src/Screen/Registry/Protocol.antt =====
-- Histories of calls on the screen registry of a Team Computer: what they keep, when a request is
-- refused, and that a call about one screen leaves the others as they are.
mod Releases
mod Fences
mod Tests
use rakazo.Common.{
  ℕ, suc, ◌<◌, ◌≤◌, true, false, ◌||◌, not, List, [], ◌∷◌, Option, none, some, Text, text_eq,
  text_eq_refl, Option-cases, get-delete, get, put, get-put, get-delete, HasDistinctKeys,
  put-HasDistinctKeys, err, ◌≡◌, ◌≢◌, refl, sym, inl, inr, arith, length, Bool-cases, ap, subst,
  truthy,
}
use rakazo.Screen.Lease.{can_take_screen_lease}
use rakazo.Screen.Lease.Laws.{fence_at, can_take-fence}
use rakazo.Screen.Registry.{
  ScreenAssignment, ScreenError, cannot_allocate, still_being_released, Assigned, used, first_free,
  take_over, allocate, next_at, next_screen_index, release_at, release_assigned_screen, complete_at,
  complete_released_screen, team_screen_limit,
}
use rakazo.Screen.Registry.Invariant.{
  Inv, after, next_screen_index-Inv, release_assigned_screen-Inv, complete_released_screen-Inv,
  index_determines_screen, first_free-none, below_of_get, pigeonhole,
}

pub data Call : Type 0 where
  acquire : Text → Option Text → Call
  release : Text → Option Text → Call
  complete : Text → ℕ → Call

abbrev pub screen_of : Call → Text
screen_of (acquire screen lease) = screen
screen_of (release screen lease) = screen
screen_of (complete screen index) = screen

length-used : (m : Assigned) → length (used m) ≡ length m
length-used [] = refl
length-used (e ∷ m) = ap suc (length-used m)

module _ (other : Text → Option ℕ) where
  pub step : Assigned → Call → Assigned
  step m (acquire screen lease) = after m (next_screen_index other m screen lease team_screen_limit)
  step m (release screen lease) = (release_assigned_screen other m screen lease).1
  step m (complete screen index) = complete_released_screen m screen index

  pub run : Assigned → List Call → Assigned
  run m [] = m
  run m (c ∷ cs) = run (step m c) cs

  step-Inv : (m : Assigned) (c : Call) → Inv team_screen_limit m → Inv team_screen_limit (step m c)
  unfolding step
  step-Inv m (acquire screen lease) v =
      next_screen_index-Inv other team_screen_limit m screen lease v
  step-Inv m (release screen lease) v =
      release_assigned_screen-Inv other team_screen_limit m screen lease v
  step-Inv m (complete screen index) v =
      complete_released_screen-Inv other team_screen_limit m screen index v

  pub run-Inv :
      (m : Assigned) (cs : List Call) → Inv team_screen_limit m → Inv team_screen_limit (run m cs)
  unfolding run
  run-Inv m [] v = v
  run-Inv m (c ∷ cs) v = run-Inv (step m c) cs (step-Inv m c v)

  -- After any calls on an empty registry every assigned screen has an index below the limit of 8,
  -- and no two screens have the same one.
  pub run_exclusive :
      (cs : List Call) (a b : Text) (x y : ScreenAssignment)
      → get a (run [] cs) ≡ some x
      → get b (run [] cs) ≡ some y
      → (x.index < team_screen_limit) × (x.index ≡ y.index → a ≡ b)
  run_exclusive cs a b x y p q =
      let v = run-Inv [] cs (record { keys = tt; below = tt; distinct = tt }) in
      (
        below_of_get team_screen_limit a x (run [] cs) v.below p,
        index_determines_screen (run [] cs) a b x y v.distinct p q,
      )

  allocate-err :
      (m : Assigned) (screen : Text) (lease : Option Text) (free : Option ℕ) (e : ScreenError)
      → allocate other m screen lease free ≡ err e
      → (free ≡ none) × (e ≡ cannot_allocate)
  unfolding allocate
  allocate-err m screen lease none e h = ground arith
  allocate-err m screen lease (some i) e h = ground arith

  -- A request for a screen that is not assigned throws only if every index below the limit is in
  -- use, so that at least `limit` screens are assigned.
  pub refused_only_when_full :
      (m : Assigned) (screen : Text) (lease : Option Text) (limit : ℕ) (e : ScreenError)
      → get screen m ≡ none
      → next_screen_index other m screen lease limit ≡ err e
      → (e ≡ cannot_allocate) × (limit ≤ length m)
  unfolding next_screen_index
  refused_only_when_full m screen lease limit e missing h =
      let (full, what) =
        allocate-err m screen lease (first_free (used m) 0 limit) e (rw (missing, next_at) at h) in
      (
        what,
        omega (
          arith,
          length-used m,
          pigeonhole limit (used m)
              (λ j lt. first_free-none (used m) 0 limit j full (omega arith) (omega arith)),
        ),
      )

  take_over-other :
      (m : Assigned) (screen s : Text) (lease : Option Text) (slot : ScreenAssignment)
      → text_eq s screen ≡ false
      → get screen (after m (take_over other m s lease slot)) ≡ get screen m
  unfolding take_over
  take_over-other m screen s lease slot d =
      ground (arith, get-put s screen (record slot { lease_id = lease }) m)

  next_at-other :
      (m : Assigned) (screen s : Text) (lease : Option Text) (limit : ℕ)
      (o : Option ScreenAssignment)
      → text_eq s screen ≡ false
      → get screen (after m (next_at other m s lease limit o)) ≡ get screen m
  unfolding next_at allocate
  next_at-other m screen s lease limit (some slot) d = take_over-other m screen s lease slot d
  next_at-other m screen s lease limit none d = elim (Option-cases (first_free (used m) 0 limit)) [
    | inl e ↦ rw e refl
    | inr (i, e) ↦
        rw (e, get-put s screen (record { index = i; lease_id = lease; releasing = false }) m, d)
          refl
  ]

  release_at-other :
      (m : Assigned) (screen s : Text) (lease : Option Text) (o : Option ScreenAssignment)
      → text_eq s screen ≡ false
      → get screen (release_at other m s lease o).1 ≡ get screen m
  unfolding release_at
  release_at-other m screen s lease none d = refl
  release_at-other m screen s lease (some slot) d =
      ground (arith, get-put s screen (record slot { releasing = true }) m)

  complete_at-other :
      (m : Assigned) (screen s : Text) (index : ℕ) (o : Option ScreenAssignment)
      → HasDistinctKeys m
      → text_eq s screen ≡ false
      → get screen (complete_at m s index o) ≡ get screen m
  unfolding complete_at
  complete_at-other m screen s index none k d = refl
  complete_at-other m screen s index (some slot) k d = ground (arith, get-delete s screen m k)

  -- A call about another screen leaves this one as it is.
  pub step-other :
      (m : Assigned) (c : Call) (screen : Text)
      → HasDistinctKeys m
      → text_eq (screen_of c) screen ≡ false
      → get screen (step m c) ≡ get screen m
  unfolding step next_screen_index release_assigned_screen complete_released_screen
  step-other m (acquire s lease) screen k d =
      next_at-other m screen s lease team_screen_limit (get s m) d
  step-other m (release s lease) screen k d = release_at-other m screen s lease (get s m) d
  step-other m (complete s index) screen k d = complete_at-other m screen s index (get s m) k d
