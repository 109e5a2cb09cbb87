-- ===== src/Screen/Lease/Laws.antt =====
-- The round trip of a lease identifier, and the order that fences impose on leases.
use rakazo.Common.{
  ℕ, suc, ◌<◌, true, false, List, [], ◌∷◌, ◌++◌, Option, none, some, Text, text_eq_iff,
  text_eq_refl, ◌≡◌, ◌≢◌, refl, sym, ap, ◌∙◌, ◌⊎◌, arith, take, drop, length, show, number-show,
  IsDigits, show-IsDigits, truthy, is_empty,
}
use rakazo.Screen.Lease.{
  LeaseId, screen_lease_id, last_colon, fence_of, parse_at, parse_screen_lease_id,
  can_take_screen_lease, can_release_screen_lease,
}

colon_free : (s : Text) → IsDigits s → last_colon s ≡ none
unfolding last_colon
colon_free [] h = refl
colon_free (c ∷ s) h = rw (colon_free s h.1) (ground arith)

last_colon-append : (s d : Text) → IsDigits d → last_colon (s ++ b':' ∷ d) ≡ some (length s)
unfolding last_colon
last_colon-append [] d h = rw (colon_free d h) refl
last_colon-append (c ∷ s) d h = rw (last_colon-append s d h) refl

take-length_append {ℓ} : {A : Type ℓ} (xs ys : List A) → take (length xs) (xs ++ ys) ≡ xs
take-length_append [] ys = refl
take-length_append (x ∷ xs) ys = ap (◌∷◌ x) (take-length_append xs ys)

truthy-screen_lease_id : (s : Text) (n : ℕ) → truthy (some (screen_lease_id s n)) ≡ true
unfolding screen_lease_id
truthy-screen_lease_id [] n = refl
truthy-screen_lease_id (c ∷ s) n = refl

module _ (other : Text → Option ℕ) where
  parse_at-append :
      (s : Text) (n : ℕ)
      → is_empty s ≡ false
      → parse_at other (s ++ b':' ∷ show n) (some (length s)) ≡ record { owner_id = s; fence = n }
  unfolding parse_at fence_of
  parse_at-append [] n h = ground arith
  parse_at-append (c ∷ s) n h =
      rw (drop_colon s, number-show other n, take-length_append s (b':' ∷ show n)) refl
    where
      drop_colon : (t : Text) → drop (suc (length t)) (t ++ b':' ∷ show n) ≡ show n
      drop_colon [] = refl
      drop_colon (d ∷ t) = drop_colon t

  -- Reading a lease identifier gives back the run and the fence that it was made of, for every run
  -- identifier but the empty one, also one that holds colons itself.
  pub parse-screen_lease_id :
      (run_id : Text) (fence : ℕ)
      → run_id ≢ []
      → parse_screen_lease_id other (screen_lease_id run_id fence)
        ≡ record { owner_id = run_id; fence = fence }
  unfolding parse_screen_lease_id screen_lease_id
  parse-screen_lease_id [] fence h = absurd (h refl)
  parse-screen_lease_id (c ∷ s) fence h =
      rw (last_colon-append (c ∷ s) (show fence) (show-IsDigits fence))
        (parse_at-append (c ∷ s) fence refl)

  screen_lease_id-injective :
      (run_id : Text) (m n : ℕ)
      → run_id ≢ []
      → screen_lease_id run_id m ≡ screen_lease_id run_id n
      → m ≡ n
  screen_lease_id-injective run_id m n h e =
      ap (λ (l : LeaseId). l.fence)
        (sym (parse-screen_lease_id run_id m h)
          ∙ ap (parse_screen_lease_id other) e
          ∙ parse-screen_lease_id run_id n h)

  abbrev pub fence_at : Text → ℕ
  fence_at lease = (parse_screen_lease_id other lease).fence

  -- A lease that takes over from another one is the same lease or has a greater fence.
  pub can_take-fence :
      (existing incoming : Text)
      → existing ≢ []
      → can_take_screen_lease other (some existing) (some incoming) ≡ true
      → (existing ≡ incoming) ⊎ (fence_at existing < fence_at incoming)
  unfolding can_take_screen_lease
  can_take-fence [] incoming h e = absurd (h refl)
  can_take-fence (c ∷ s) [] h e = ground arith
  can_take-fence (c ∷ s) (d ∷ t) h e = ground (arith, text_eq_iff (c ∷ s) (d ∷ t))

  -- Two different leases never take over from each other: the newer one wins for good.
  pub can_take_antisym :
      (a b : Text)
      → a ≢ []
      → b ≢ []
      → can_take_screen_lease other (some a) (some b) ≡ true
      → can_take_screen_lease other (some b) (some a) ≡ true
      → a ≡ b
  can_take_antisym a b ha hb p q = grind (arith, can_take-fence a b ha p, can_take-fence b a hb q)

  -- Under one run, a newer execution may take the screen of an older one and may release it, and
  -- the older one may neither take nor release what the newer one holds.
  pub newer_execution :
      (run_id : Text) (old new : ℕ)
      → run_id ≢ []
      → old < new
      → let a = some (screen_lease_id run_id old) in
        let b = some (screen_lease_id run_id new) in
        (can_take_screen_lease other a b ≡ true)
        × (can_release_screen_lease other a b ≡ true)
        × (can_take_screen_lease other b a ≡ false)
        × (can_release_screen_lease other b a ≡ false)
  unfolding can_take_screen_lease can_release_screen_lease
  newer_execution run_id old new h lt =
      let a = screen_lease_id run_id old in
      let b = screen_lease_id run_id new in
      ground (
        arith,
        parse-screen_lease_id run_id old h,
        parse-screen_lease_id run_id new h,
        truthy-screen_lease_id run_id old,
        truthy-screen_lease_id run_id new,
        text_eq_iff a b,
        text_eq_iff b a,
        text_eq_refl run_id,
        screen_lease_id-injective run_id old new h,
        screen_lease_id-injective run_id new old h,
      )
