-- ===== src/Screen/Registry/Protocol/Fences.antt =====
-- The fence of a screen's lease over any calls, as long as the screen stays assigned.
use rakazo.Common.{
  ℕ, ◌≤◌, true, List, [], ◌∷◌, Option, none, some, Text, text_eq, text_eq_iff, text_eq_refl, get,
  get-put, get-delete, HasDistinctKeys, ◌≡◌, ◌≢◌, sym, arith, Bool-cases, Option-cases, subst, inl,
  inr, is_some,
}
use rakazo.Screen.Lease.{can_take_screen_lease}
use rakazo.Screen.Lease.Laws.{fence_at, can_take-fence}
use rakazo.Screen.Registry.{
  ScreenAssignment, Assigned, take_over, next_at, next_screen_index, release_at,
  release_assigned_screen, complete_at, complete_released_screen, team_screen_limit,
}
use rakazo.Screen.Registry.Invariant.{Inv, after}
use rakazo.Screen.Registry.Protocol.{
  Call, acquire, release, complete, screen_of, step, run, step-Inv, step-other,
}

module _ (other : Text → Option ℕ) where
  -- The screen is assigned after each of the calls.
  abbrev pub StaysAssigned : Text → Assigned → List Call → Type 0
  StaysAssigned screen m [] = Unit {0}
  StaysAssigned screen m (c ∷ cs) =
      (is_some (get screen (step other m c)) ≡ true) × StaysAssigned screen (step other m c) cs

  -- The slot has a lease that is not empty, whose fence is at least this.
  record IsFenced (bound : ℕ) (slot : ScreenAssignment) : Type 0 where
    lease : Text
    held : slot.lease_id ≡ some lease
    nonempty : lease ≢ []
    reached : bound ≤ fence_at other lease

  take_over-IsFenced :
      (bound : ℕ) (m : Assigned) (screen : Text) (new : Option Text) (slot slot' : ScreenAssignment)
      → get screen m ≡ some slot
      → IsFenced bound slot
      → get screen (after m (take_over other m screen new slot)) ≡ some slot'
      → IsFenced bound slot'
  unfolding take_over
  take_over-IsFenced bound m screen none slot slot' h f g = subst (IsFenced bound) (ground arith) f
  take_over-IsFenced bound m screen (some []) slot slot' h f g =
      subst (IsFenced bound) (ground arith) f
  take_over-IsFenced bound m screen (some (c ∷ new)) slot slot' h f g =
      let lease = f.lease in
      let held = f.held in
      let nonempty = f.nonempty in
      elim (Bool-cases (can_take_screen_lease other (some lease) (some (c ∷ new)))) [
        | inl can ↦ elim (Bool-cases slot.releasing) [
          | inl stays ↦ subst (IsFenced bound) (ground arith) f
          | inr taken ↦ record {
            lease = c ∷ new;
            held = ground (
              arith,
              get-put screen screen (record slot { lease_id = some (c ∷ new) }) m,
              text_eq_refl screen,
            );
            nonempty = λ e. ground arith;
            reached = ground (arith, can_take-fence other lease (c ∷ new) nonempty can, f.reached);
          }
        ]
        | inr kept ↦ subst (IsFenced bound) (ground arith) f
      ]

  release_at-IsFenced :
      (bound : ℕ) (m : Assigned) (screen : Text) (lease : Option Text)
      (slot slot' : ScreenAssignment) (o : Option ScreenAssignment)
      → get screen m ≡ some slot
      → o ≡ some slot
      → IsFenced bound slot
      → get screen (release_at other m screen lease o).1 ≡ some slot'
      → IsFenced bound slot'
  unfolding release_at
  release_at-IsFenced bound m screen lease slot slot' none h e f g = absurd (ground arith)
  release_at-IsFenced bound m screen lease slot slot' (some old) h e f g = record {
    lease = f.lease;
    held = ground (
      arith,
      f.held,
      get-put screen screen (record old { releasing = true }) m,
      text_eq_refl screen,
    );
    nonempty = f.nonempty;
    reached = f.reached;
  }

  complete_at-IsFenced :
      (bound : ℕ) (m : Assigned) (screen : Text) (index : ℕ) (slot slot' : ScreenAssignment)
      → HasDistinctKeys m
      → get screen m ≡ some slot
      → IsFenced bound slot
      → get screen (complete_at m screen index (some slot)) ≡ some slot'
      → IsFenced bound slot'
  unfolding complete_at
  complete_at-IsFenced bound m screen index slot slot' k h f g =
      subst (IsFenced bound) (ground (arith, get-delete screen screen m k, text_eq_refl screen)) f

  own-IsFenced :
      (bound : ℕ) (m : Assigned) (c : Call) (slot slot' : ScreenAssignment)
      → HasDistinctKeys m
      → get (screen_of c) m ≡ some slot
      → IsFenced bound slot
      → get (screen_of c) (step other m c) ≡ some slot'
      → IsFenced bound slot'
  unfolding step next_screen_index release_assigned_screen complete_released_screen next_at
  own-IsFenced bound m (acquire s new) slot slot' k h f g =
      take_over-IsFenced bound m s new slot slot' h f (rw h at g)
  own-IsFenced bound m (release s lease) slot slot' k h f g =
      release_at-IsFenced bound m s lease slot slot' (get s m) h h f g
  own-IsFenced bound m (complete s i) slot slot' k h f g =
      complete_at-IsFenced bound m s i slot slot' k h f (rw h at g)

  step-IsFenced :
      (bound : ℕ) (m : Assigned) (screen : Text) (c : Call) (slot slot' : ScreenAssignment)
      → HasDistinctKeys m
      → get screen m ≡ some slot
      → IsFenced bound slot
      → get screen (step other m c) ≡ some slot'
      → IsFenced bound slot'
  step-IsFenced bound m screen c slot slot' k h f g =
      elim (Bool-cases (text_eq (screen_of c) screen)) [
        | inl e ↦
            let same = sym ((text_eq_iff (screen_of c) screen).0 e) in
            own-IsFenced bound m c slot slot' k (subst (λ s. get s m ≡ some slot) same h) f
              (subst (λ s. get s (step other m c) ≡ some slot') same g)
        | inr d ↦ subst (IsFenced bound) (ground (arith, step-other other m c screen k d)) f
      ]

  run-IsFenced :
      (bound : ℕ) (cs : List Call) (m : Assigned) (screen : Text) (slot slot' : ScreenAssignment)
      → Inv team_screen_limit m
      → get screen m ≡ some slot
      → IsFenced bound slot
      → StaysAssigned screen m cs
      → get screen (run other m cs) ≡ some slot'
      → IsFenced bound slot'
  unfolding run
  run-IsFenced bound [] m screen slot slot' v h f a g =
      subst (IsFenced bound) (ground (arith, h, g)) f
  run-IsFenced bound (c ∷ cs) m screen slot slot' v h f a g =
      elim (Option-cases (get screen (step other m c))) [
        | inl gone ↦ absurd (ground (arith, a.0))
        | inr (now, e) ↦
            run-IsFenced bound cs (step other m c) screen now slot' (step-Inv other m c v) e
              (step-IsFenced bound m screen c slot now v.keys h f e) a.1 g
      ]

  -- While a screen that has a lease stays assigned, over any calls about it and about other screens, it
  -- keeps a lease, whose fence is at least the one that it had.
  pub fence_monotone :
      (m : Assigned) (cs : List Call) (screen lease : Text) (slot slot' : ScreenAssignment)
      → Inv team_screen_limit m
      → get screen m ≡ some slot
      → slot.lease_id ≡ some lease
      → lease ≢ []
      → StaysAssigned screen m cs
      → get screen (run other m cs) ≡ some slot'
      → (l : Text) × (slot'.lease_id ≡ some l) × (fence_at other lease ≤ fence_at other l)
  fence_monotone m cs screen lease slot slot' v h e n a g =
      let f =
        run-IsFenced (fence_at other lease) cs m screen slot slot' v h
          (record { lease = lease; held = e; nonempty = n; reached = omega arith }) a g in
      (f.lease, f.held, f.reached)
