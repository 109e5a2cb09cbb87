-- ===== src/Redaction/Values.antt =====
-- The list of secrets that the streaming redactor looks for.
use rakazo.Common.{
  ℕ, ◌≤◌, true, false, ◌||◌, ◌&&◌, not, List, [], ◌∷◌, none, some, Text, text_eq, text_eq_iff,
  is_empty, starts_with, has, unique, unique_from, ◌≡◌, refl, ap, ◌∙◌, inl, inr, arith, length,
  select, find_first, Bool-cases,
}
use rakazo.Redaction.{insert_longest, sort_longest, secret_values, max_length}

has-insert_longest :
    (v w : Text) (ws : List Text) → has (insert_longest v ws) w ≡ (text_eq v w || has ws w)
unfolding insert_longest has
has-insert_longest v w [] = refl
has-insert_longest v w (u ∷ ws) = ground (arith, has-insert_longest v w ws)

has-sort_longest : (vs : List Text) (w : Text) → has (sort_longest vs) w ≡ has vs w
unfolding sort_longest has
has-sort_longest [] w = refl
has-sort_longest (v ∷ vs) w =
    has-insert_longest v w (sort_longest vs) ∙ ap (λ b. text_eq v w || b) (has-sort_longest vs w)

has-unique_from :
    (seen xs : List Text) (w : Text)
    → (has (unique_from seen xs) w || has seen w) ≡ (has xs w || has seen w)
unfolding unique_from has
has-unique_from seen [] w = refl
has-unique_from seen (x ∷ xs) w =
    ground (arith, has-unique_from seen xs w, has-unique_from (x ∷ seen) xs w, text_eq_iff x w)

has-unique : (xs : List Text) (w : Text) → has (unique xs) w ≡ has xs w
unfolding unique has
has-unique xs w = ground (arith, has-unique_from [] xs w)

has-select :
    (xs : List Text) (w : Text)
    → has (select (λ s. not (is_empty s)) xs) w ≡ (has xs w && not (is_empty w))
unfolding has
has-select [] w = refl
has-select (x ∷ xs) w = ground (arith, has-select xs w, text_eq_iff x w)

-- The redactor looks for the secrets that are not empty, and for nothing else.
pub has-secret_values :
    (secrets : List Text) (w : Text)
    → has (secret_values secrets) w ≡ (has secrets w && not (is_empty w))
unfolding secret_values
has-secret_values secrets w =
    has-sort_longest (unique (select (λ s. not (is_empty s)) secrets)) w
    ∙ has-unique (select (λ s. not (is_empty s)) secrets) w
    ∙ has-select secrets w

-- No entry is longer than `n`, and each is at most as long as those before it.
abbrev IsFalling : ℕ → List Text → Type 0
IsFalling n [] = Unit {0}
IsFalling n (v ∷ vs) = (length v ≤ n) × IsFalling (length v) vs

abbrev IsSorted : List Text → Type 0
IsSorted vs = IsFalling (max_length vs) vs

insert_longest-IsFalling :
    (n : ℕ) (v : Text) (vs : List Text)
    → length v ≤ n
    → IsFalling n vs
    → IsFalling n (insert_longest v vs)
unfolding insert_longest
insert_longest-IsFalling n v [] h f = (h, tt)
insert_longest-IsFalling n v (w ∷ ws) h f = ground (arith, insert_longest-IsFalling (length w) v ws)

max_length-insert_longest :
    (v : Text) (vs : List Text)
    → (length v ≤ max_length (insert_longest v vs))
      × (max_length vs ≤ max_length (insert_longest v vs))
unfolding insert_longest
max_length-insert_longest v [] = omega arith
max_length-insert_longest v (w ∷ ws) = ground arith

IsFalling-mono : (m n : ℕ) (vs : List Text) → m ≤ n → IsFalling m vs → IsFalling n vs
IsFalling-mono m n [] h f = tt
IsFalling-mono m n (v ∷ vs) h f = (omega arith, f.1)

sort_longest-IsSorted : (vs : List Text) → IsSorted (sort_longest vs)
unfolding sort_longest
sort_longest-IsSorted [] = tt
sort_longest-IsSorted (v ∷ vs) =
    let (a, b) = max_length-insert_longest v (sort_longest vs) in
    insert_longest-IsFalling _ v (sort_longest vs) a
      (IsFalling-mono _ _ (sort_longest vs) b (sort_longest-IsSorted vs))

pub secret_values-IsSorted : (secrets : List Text) → IsSorted (secret_values secrets)
unfolding secret_values
secret_values-IsSorted secrets =
    sort_longest-IsSorted (unique (select (λ s. not (is_empty s)) secrets))

pub length-le_of_has :
    (n : ℕ) (w : Text) (vs : List Text) → IsFalling n vs → has vs w ≡ true → length w ≤ n
unfolding has
length-le_of_has n w [] f h = ground arith
length-le_of_has n w (v ∷ vs) f h =
    ground (arith, length-le_of_has (length v) w vs f.1, text_eq_iff v w)

-- The first match is a secret, and no match is longer.
pub find_first-longest :
    (n : ℕ) (rest v : Text) (vs : List Text)
    → IsFalling n vs
    → find_first (starts_with rest) vs ≡ some v
    → (has vs v ≡ true)
      × (starts_with rest v ≡ true)
      × ((w : Text) → has vs w ≡ true → starts_with rest w ≡ true → length w ≤ length v)
unfolding has
find_first-longest n rest v [] f h = absurd (ground arith)
find_first-longest n rest v (u ∷ vs) f h = elim (Bool-cases (starts_with rest u)) [
  | inl hit ↦ (
    ground (arith, text_eq_iff u v),
    ground arith,
    λ w m s. ground (arith, length-le_of_has (length u) w vs f.1, text_eq_iff u w),
  )
  | inr miss ↦
      let (a, b, c) = find_first-longest (length u) rest v vs f.1 (ground arith) in
      (ground arith, b, λ w m s. ground (arith, c w, text_eq_iff u w))
]

pub find_first-none :
    (rest w : Text) (vs : List Text)
    → find_first (starts_with rest) vs ≡ none
    → has vs w ≡ true
    → starts_with rest w ≡ false
unfolding has
find_first-none rest w [] h m = ground arith
find_first-none rest w (u ∷ vs) h m = ground (arith, find_first-none rest w vs, text_eq_iff u w)
