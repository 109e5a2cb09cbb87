-- ===== src/Screen/Registry/Invariant.antt =====
-- The invariant of the screen registry, and what it says of indices.
use rakazo.Common.{
  ℕ, zero, suc, ◌+◌, ◌==◌, ◌<◌, ◌≤◌, true, false, ◌||◌, List, [], ◌∷◌, ◌++◌, Option, none, some,
  Text, text_eq_iff, if◌then◌else◌, get, put, delete, HasDistinctKeys, put-HasDistinctKeys,
  delete-HasDistinctKeys, Result, ok, err, ◌≡◌, ◌≢◌, refl, inl, inr, arith, length, Bool-cases,
  Option-cases, All, All-append,
}
use rakazo.Screen.Registry.{
  ScreenAssignment, ScreenError, Assigned, used, is_used, first_free, take_over, allocate, next_at,
  next_screen_index, release_at, release_assigned_screen, complete_at, complete_released_screen,
}

-- No number stands twice in the list.
abbrev IsDistinct : List ℕ → Type 0
IsDistinct [] = Unit {0}
IsDistinct (x ∷ xs) = (is_used xs x ≡ false) × IsDistinct xs

abbrev pub IsBelow : ℕ → List ℕ → Type 0
IsBelow limit = All (λ i. i < limit)

pub record Inv (limit : ℕ) (m : Assigned) : Type 0 where
  pub keys : HasDistinctKeys m
  pub below : IsBelow limit (used m)
  pub distinct : IsDistinct (used m)

is_used-append : (xs : List ℕ) (x y : ℕ) → is_used (xs ++ y ∷ []) x ≡ (is_used xs x || (y == x))
is_used-append [] x y = ground arith
is_used-append (z ∷ xs) x y = ground (arith, is_used-append xs x y)

IsDistinct-append :
    (xs : List ℕ) (x : ℕ) → is_used xs x ≡ false → IsDistinct xs → IsDistinct (xs ++ x ∷ [])
IsDistinct-append [] x h d = (refl, tt)
IsDistinct-append (y ∷ xs) x h d =
    ground (arith, is_used-append xs y x, IsDistinct-append xs x, d.1)

used-put_same :
    (k : Text) (slot new : ScreenAssignment) (m : Assigned)
    → get k m ≡ some slot
    → new.index ≡ slot.index
    → used (put k new m) ≡ used m
unfolding get put
used-put_same k slot new [] h e = ground arith
used-put_same k slot new ((j, w) ∷ m) h e = ground (arith, used-put_same k slot new m)

used-put_new :
    (k : Text) (new : ScreenAssignment) (m : Assigned)
    → get k m ≡ none
    → used (put k new m) ≡ used m ++ new.index ∷ []
unfolding get put
used-put_new k new [] h = refl
used-put_new k new ((j, w) ∷ m) h = ground (arith, used-put_new k new m)

is_used-delete :
    (k : Text) (x : ℕ) (m : Assigned)
    → is_used (used m) x ≡ false
    → is_used (used (delete k m)) x ≡ false
unfolding delete
is_used-delete k x [] h = refl
is_used-delete k x ((j, w) ∷ m) h = ground (arith, is_used-delete k x m)

delete-IsDistinct : (k : Text) (m : Assigned) → IsDistinct (used m) → IsDistinct (used (delete k m))
unfolding delete
delete-IsDistinct k [] d = tt
delete-IsDistinct k ((j, w) ∷ m) d =
    ground (arith, is_used-delete k w.index m, delete-IsDistinct k m d.1)

delete-IsBelow :
    (limit : ℕ) (k : Text) (m : Assigned)
    → IsBelow limit (used m)
    → IsBelow limit (used (delete k m))
unfolding delete
delete-IsBelow limit k [] b = tt
delete-IsBelow limit k ((j, w) ∷ m) b = ground (arith, delete-IsBelow limit k m b.1)

first_free-some :
    (taken : List ℕ) (index rounds j : ℕ)
    → first_free taken index rounds ≡ some j
    → (is_used taken j ≡ false) × (j < index + rounds)
unfolding first_free
first_free-some taken index zero j h = ground arith
first_free-some taken index (suc rounds) j h =
    ground (arith, first_free-some taken (index + 1) rounds j)

pub first_free-none :
    (taken : List ℕ) (index rounds j : ℕ)
    → first_free taken index rounds ≡ none
    → index ≤ j
    → j < index + rounds
    → is_used taken j ≡ true
unfolding first_free
first_free-none taken index zero j h l u = absurd (omega arith)
first_free-none taken index (suc rounds) j h l u = elim (Bool-cases (index == j)) [
  | inl here ↦ ground arith
  | inr later ↦
      first_free-none taken (index + 1) rounds j (ground arith) (ground arith) (omega arith)
]

Inv-put_same :
    (limit : ℕ) (k : Text) (slot new : ScreenAssignment) (m : Assigned)
    → get k m ≡ some slot
    → new.index ≡ slot.index
    → Inv limit m
    → Inv limit (put k new m)
Inv-put_same limit k slot new m h e v = record {
  keys = put-HasDistinctKeys k new m v.keys;
  below = rw (used-put_same k slot new m h e) v.below;
  distinct = rw (used-put_same k slot new m h e) v.distinct;
}

Inv-put_new :
    (limit : ℕ) (k : Text) (new : ScreenAssignment) (m : Assigned)
    → get k m ≡ none
    → is_used (used m) new.index ≡ false
    → new.index < limit
    → Inv limit m
    → Inv limit (put k new m)
Inv-put_new limit k new m h free lt v = record {
  keys = put-HasDistinctKeys k new m v.keys;
  below = rw (used-put_new k new m h) (All-append (λ i. i < limit) (used m) _ v.below (lt, tt));
  distinct = rw (used-put_new k new m h) (IsDistinct-append (used m) new.index free v.distinct);
}

-- The map that a call leaves: a call that throws changes nothing.
abbrev pub after : Assigned → Result ScreenError (ℕ × Assigned) → Assigned
after m (ok (i, m')) = m'
after m (err e) = m

module _ (other : Text → Option ℕ) (limit : ℕ) where
  take_over-Inv :
      (m : Assigned) (k : Text) (lease : Option Text) (slot : ScreenAssignment)
      → get k m ≡ some slot
      → Inv limit m
      → Inv limit (after m (take_over other m k lease slot))
  unfolding take_over
  take_over-Inv m k lease slot h v =
      ground (arith, Inv-put_same limit k slot (record slot { lease_id = lease }) m h refl v)

  -- A request for a screen keeps the invariant, whether it succeeds or throws.
  pub next_screen_index-Inv :
      (m : Assigned) (k : Text) (lease : Option Text)
      → Inv limit m
      → Inv limit (after m (next_screen_index other m k lease limit))
  unfolding next_screen_index
  next_screen_index-Inv m k lease v = elim (Option-cases (get k m)) [
    | inr (slot, found) ↦ rw (found, next_at) (take_over-Inv m k lease slot found v)
    | inl missing ↦ elim (Option-cases (first_free (used m) 0 limit)) [
      | inl full ↦ rw (missing, next_at) (rw (full, allocate) v)
      | inr (i, free) ↦
          let (unused, below) = first_free-some (used m) 0 limit i free in
          rw (missing, next_at)
            (rw (free, allocate) (Inv-put_new limit k _ m missing unused (omega arith) v))
    ]
  ]

  -- So does a release, and the completion of one.
  pub release_assigned_screen-Inv :
      (m : Assigned) (k : Text) (lease : Option Text)
      → Inv limit m
      → Inv limit (release_assigned_screen other m k lease).1
  unfolding release_assigned_screen
  release_assigned_screen-Inv m k lease v = elim (Option-cases (get k m)) [
    | inl missing ↦ rw (missing, release_at) v
    | inr (slot, found) ↦
        rw (found, release_at)
          (ground
            (arith, Inv-put_same limit k slot (record slot { releasing = true }) m found refl v))
  ]

  Inv-delete : (m : Assigned) (k : Text) → Inv limit m → Inv limit (delete k m)
  Inv-delete m k v = record {
    keys = delete-HasDistinctKeys k m v.keys;
    below = delete-IsBelow limit k m v.below;
    distinct = delete-IsDistinct k m v.distinct;
  }

  pub complete_released_screen-Inv :
      (m : Assigned) (k : Text) (index : ℕ)
      → Inv limit m
      → Inv limit (complete_released_screen m k index)
  unfolding complete_released_screen
  complete_released_screen-Inv m k index v = elim (Option-cases (get k m)) [
    | inl missing ↦ rw (missing, complete_at) v
    | inr (slot, found) ↦ rw (found, complete_at) (ground (arith, Inv-delete m k v))
  ]

used_of_get :
    (k : Text) (slot : ScreenAssignment) (m : Assigned)
    → get k m ≡ some slot
    → is_used (used m) slot.index ≡ true
unfolding get
used_of_get k slot [] h = ground arith
used_of_get k slot ((j, w) ∷ m) h = ground (arith, used_of_get k slot m)

-- Two entries with one index are one entry.
pub index_determines_screen :
    (m : Assigned) (a b : Text) (x y : ScreenAssignment)
    → IsDistinct (used m)
    → get a m ≡ some x
    → get b m ≡ some y
    → x.index ≡ y.index
    → a ≡ b
unfolding get
index_determines_screen [] a b x y d p q e = ground arith
index_determines_screen ((j, w) ∷ m) a b x y d p q e = ground (
  arith,
  text_eq_iff j a,
  text_eq_iff j b,
  used_of_get a x m,
  used_of_get b y m,
  index_determines_screen m a b x y d.1,
)

pub below_of_get :
    (limit : ℕ) (k : Text) (slot : ScreenAssignment) (m : Assigned)
    → IsBelow limit (used m)
    → get k m ≡ some slot
    → slot.index < limit
unfolding get
below_of_get limit k slot [] b h = ground arith
below_of_get limit k slot ((j, w) ∷ m) b h = ground (arith, below_of_get limit k slot m b.1)

remove : ℕ → List ℕ → List ℕ
remove x [] = []
remove x (y ∷ ys) = if y == x then ys else y ∷ remove x ys

length-remove : (x : ℕ) (ys : List ℕ) → is_used ys x ≡ true → length ys ≡ suc (length (remove x ys))
unfolding remove
length-remove x [] h = ground arith
length-remove x (y ∷ ys) h = ground (arith, length-remove x ys)

remove-is_used :
    (x j : ℕ) (ys : List ℕ) → x ≢ j → is_used ys j ≡ true → is_used (remove x ys) j ≡ true
unfolding remove
remove-is_used x j [] n h = ground arith
remove-is_used x j (y ∷ ys) n h = ground (arith, remove-is_used x j ys n)

-- A list that holds every number below `n` has at least `n` entries.
pub pigeonhole : (n : ℕ) (ys : List ℕ) → ((j : ℕ) → j < n → is_used ys j ≡ true) → n ≤ length ys
pigeonhole zero ys all = omega arith
pigeonhole (suc n) ys all = omega (
  arith,
  length-remove n ys (all n (omega arith)),
  pigeonhole n (remove n ys) (λ j h. remove-is_used n j ys (omega arith) (all j (omega arith))),
)
