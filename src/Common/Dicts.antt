-- ===== src/Common/Dicts.antt =====
-- A JavaScript `Map` with string keys: an association list in insertion order. `set` keeps the
-- place of a key that is present and appends one that is not.
use mathlib.Core.Path.{◌≡◌, refl}
use mathlib.Core.Bool.{false}
use mathlib.Core.List.{List, [], ◌∷◌, map}
use mathlib.Core.Option.{Option, none, some}
use native.Mathlib.Omega.{arith}
use rakazo.Common.Tests.{if◌then◌else◌}
use rakazo.Common.Texts.{Text, text_eq, text_eq_iff}

abbrev pub Dict {ℓ} : Type ℓ → Type ℓ
Dict V = List (Text × V)

module _ {ℓ} {V : Type ℓ} where
  unfoldable pub get : Text → Dict V → Option V
  get k [] = none
  get k ((j, v) ∷ m) = if text_eq j k then some v else get k m

  unfoldable pub put : Text → V → Dict V → Dict V
  put k v [] = (k, v) ∷ []
  put k v ((j, w) ∷ m) = if text_eq j k then (j, v) ∷ m else (j, w) ∷ put k v m

  unfoldable pub delete : Text → Dict V → Dict V
  delete k [] = []
  delete k ((j, w) ∷ m) = if text_eq j k then m else (j, w) ∷ delete k m

  abbrev pub values : Dict V → List V
  values = map (λ e. e.1)

  pub get-put :
      (k j : Text) (v : V) (m : Dict V)
      → get j (put k v m) ≡ (if text_eq k j then some v else get j m)
  unfolding get put
  get-put k j v [] = refl
  get-put k j v ((i, w) ∷ m) =
      ground (arith, text_eq_iff k j, text_eq_iff i k, text_eq_iff i j, get-put k j v m)

  -- No key stands after itself: what every map built by `put` and `delete` satisfies.
  abbrev IsFresh : Text → Dict V → Type 0
  IsFresh k [] = Unit {0}
  IsFresh k ((j, v) ∷ m) = (text_eq j k ≡ false) × IsFresh k m

  abbrev pub HasDistinctKeys : Dict V → Type 0
  HasDistinctKeys [] = Unit {0}
  HasDistinctKeys ((j, v) ∷ m) = IsFresh j m × HasDistinctKeys m

  pub put-IsFresh :
      (i k : Text) (v : V) (m : Dict V) → text_eq k i ≡ false → IsFresh i m → IsFresh i (put k v m)
  unfolding put
  put-IsFresh i k v [] h f = (h, tt)
  put-IsFresh i k v ((j, w) ∷ m) h f = ground (arith, put-IsFresh i k v m h f.1)

  pub delete-IsFresh : (i k : Text) (m : Dict V) → IsFresh i m → IsFresh i (delete k m)
  unfolding delete
  delete-IsFresh i k [] f = tt
  delete-IsFresh i k ((j, w) ∷ m) f = ground (arith, delete-IsFresh i k m f.1)

  pub get_of_IsFresh : (k : Text) (m : Dict V) → IsFresh k m → get k m ≡ none
  unfolding get
  get_of_IsFresh k [] f = refl
  get_of_IsFresh k ((j, v) ∷ m) f = ground (arith, get_of_IsFresh k m f.1)

  pub put-HasDistinctKeys :
      (k : Text) (v : V) (m : Dict V) → HasDistinctKeys m → HasDistinctKeys (put k v m)
  unfolding put
  put-HasDistinctKeys k v [] h = (tt, tt)
  put-HasDistinctKeys k v ((j, w) ∷ m) h =
      ground (
        arith,
        put-HasDistinctKeys k v m h.1,
        put-IsFresh j k v m,
        text_eq_iff j k,
        text_eq_iff k j,
      )

  pub delete-HasDistinctKeys :
      (k : Text) (m : Dict V) → HasDistinctKeys m → HasDistinctKeys (delete k m)
  unfolding delete
  delete-HasDistinctKeys k [] h = tt
  delete-HasDistinctKeys k ((j, w) ∷ m) h =
      ground (arith, delete-HasDistinctKeys k m h.1, delete-IsFresh j k m h.0)

  pub get-delete :
      (k j : Text) (m : Dict V)
      → HasDistinctKeys m
      → get j (delete k m) ≡ (if text_eq k j then none else get j m)
  unfolding get delete
  get-delete k j [] h = ground arith
  get-delete k j ((i, w) ∷ m) h = ground (
    arith,
    text_eq_iff k j,
    text_eq_iff i k,
    text_eq_iff i j,
    get-delete k j m h.1,
    get_of_IsFresh i m h.0,
  )
