-- ===== src/Screen/Registry/Protocol/Releases.antt =====
-- From the release of a screen to the completion of that release, whatever is called in between.
use rakazo.Common.{
  ℕ, ◌==◌, true, false, ◌&&◌, List, [], ◌∷◌, Option, none, some, Text, text_eq, text_eq_iff,
  text_eq_refl, get, get-put, get-delete, HasDistinctKeys, err, ◌≡◌, refl, sym, ap, arith, All,
  Bool-cases, subst, inl, inr,
}
use rakazo.Screen.Registry.{
  ScreenAssignment, still_being_released, Assigned, take_over, next_at, next_screen_index,
  release_at, release_assigned_screen, complete_at, complete_released_screen, team_screen_limit,
}
use rakazo.Screen.Registry.Invariant.{Inv, release_assigned_screen-Inv}
use rakazo.Screen.Registry.Protocol.{
  Call, acquire, release, complete, screen_of, step, run, step-Inv, run-Inv, step-other,
}

-- The call does not complete the release of this screen: it is no completion, or of another screen, or of
-- an index that the screen does not have.
abbrev pub IsNotCompletion : Text → ℕ → Call → Type 0
IsNotCompletion screen index (complete s i) = (text_eq s screen && i == index) ≡ false
IsNotCompletion screen index _ = Unit {0}

-- The screen is being released, from this index.
record IsReleasing (screen : Text) (index : ℕ) (m : Assigned) : Type 0 where
  slot : ScreenAssignment
  found : get screen m ≡ some slot
  busy : slot.releasing ≡ true
  at_index : slot.index ≡ index

module _ (other : Text → Option ℕ) where
  release_at-busy :
      (m : Assigned) (screen : Text) (lease : Option Text) (slot : ScreenAssignment)
      (o : Option ScreenAssignment)
      → o ≡ some slot
      → slot.releasing ≡ true
      → (release_at other m screen lease o).1 ≡ m
  unfolding release_at
  release_at-busy m screen lease slot o e b = rw e (rw b refl)

  kept_own :
      (m : Assigned) (index : ℕ) (c : Call)
      → IsReleasing (screen_of c) index m
      → IsNotCompletion (screen_of c) index c
      → step other m c ≡ m
  unfolding step next_screen_index release_assigned_screen complete_released_screen
  kept_own m index (acquire s lease) r n = rw (r.found, next_at) (rw (r.busy, take_over) refl)
  kept_own m index (release s lease) r n = release_at-busy m s lease r.slot (get s m) r.found r.busy
  kept_own m index (complete s i) r n =
      rw (r.found, complete_at) (ground (arith, r.at_index, text_eq_refl s))

  step-IsReleasing :
      (m : Assigned) (screen : Text) (index : ℕ) (c : Call)
      → HasDistinctKeys m
      → IsReleasing screen index m
      → IsNotCompletion screen index c
      → IsReleasing screen index (step other m c)
  step-IsReleasing m screen index c k r n = elim (Bool-cases (text_eq (screen_of c) screen)) [
    | inl e ↦
        subst (IsReleasing screen index)
          (sym (
            let same = sym ((text_eq_iff (screen_of c) screen).0 e) in
            kept_own m index c (subst (λ s. IsReleasing s index m) same r)
              (subst (λ s. IsNotCompletion s index c) same n)))
          r
    | inr d ↦ record {
      slot = r.slot;
      found = rw (step-other other m c screen k d) r.found;
      busy = r.busy;
      at_index = r.at_index;
    }
  ]

  run-IsReleasing :
      (m : Assigned) (screen : Text) (index : ℕ) (cs : List Call)
      → Inv team_screen_limit m
      → IsReleasing screen index m
      → All (IsNotCompletion screen index) cs
      → IsReleasing screen index (run other m cs)
  unfolding run
  run-IsReleasing m screen index [] v r n = r
  run-IsReleasing m screen index (c ∷ cs) v r n =
      run-IsReleasing (step other m c) screen index cs (step-Inv other m c v)
        (step-IsReleasing m screen index c v.keys r n.0) n.1

  released-IsReleasing :
      (m m' : Assigned) (screen : Text) (lease : Option Text) (index : ℕ)
      (o : Option ScreenAssignment)
      → release_at other m screen lease o ≡ (some index, m')
      → IsReleasing screen index m'
  unfolding release_at
  released-IsReleasing m m' screen lease index none h = absurd (ground arith)
  released-IsReleasing m m' screen lease index (some slot) h = record {
    slot = record slot { releasing = true };
    found =
        ground
          (arith, get-put screen screen (record slot { releasing = true }) m, text_eq_refl screen);
    busy = refl;
    at_index = ground arith;
  }

  -- When a screen is released, then after any further calls, none of which completes that release, the
  -- screen is handed to nobody and released by nobody else; and completing the release removes it.
  pub release_protocol :
      (m m' : Assigned) (screen : Text) (lease l l' : Option Text) (index : ℕ) (cs : List Call)
      → Inv team_screen_limit m
      → release_assigned_screen other m screen lease ≡ (some index, m')
      → All (IsNotCompletion screen index) cs
      → let now = run other m' cs in
        (next_screen_index other now screen l team_screen_limit ≡ err still_being_released)
        × (release_assigned_screen other now screen l' ≡ (none, now))
        × (get screen (complete_released_screen now screen index) ≡ none)
  unfolding release_assigned_screen next_screen_index complete_released_screen
  release_protocol m m' screen lease l l' index cs v h n =
      let now = run other m' cs in
      let v' : Inv team_screen_limit m' =
        subst (Inv team_screen_limit) (ap (λ p. p.1) h)
          (release_assigned_screen-Inv other team_screen_limit m screen lease v) in
      let r =
        run-IsReleasing m' screen index cs v'
          (released-IsReleasing m m' screen lease index (get screen m) h) n in
      (
        rw (r.found, next_at) (rw (r.busy, take_over) refl),
        rw (r.found, release_at) (rw r.busy refl),
        rw (r.found, complete_at)
            (ground (
              arith,
              r.busy,
              r.at_index,
              get-delete screen screen now (run-Inv other m' cs v').keys,
              text_eq_refl screen,
            )),
      )
