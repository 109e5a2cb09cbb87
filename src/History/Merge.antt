-- ===== src/History/Merge.antt =====
-- Merging messages by id: no id twice, none lost, and the first copy of each kept.
use rakazo.Common.{
  true, false, ◌||◌, List, [], ◌∷◌, ◌++◌, Option, none, Text, text_eq, text_eq_iff, text_eq_refl,
  has, find_first, if◌then◌else◌, ◌≡◌, refl, ap, ◌∙◌, sym, subst, arith, Bool-cases, inl, inr,
}
use rakazo.History.{MessageIdentity, fresh_ids, merge_messages_by_id}

module _ {M : Type 0} (m : MessageIdentity M) where
  -- `messages.find(x => x.id === id)`
  abbrev pub with_id : Text → List M → Option M
  with_id id xs = find_first (λ x. text_eq (m.id x) id) xs

  abbrev pub HasDistinctIds : List M → Type 0
  HasDistinctIds [] = Unit {0}
  HasDistinctIds (x ∷ xs) = (with_id (m.id x) xs ≡ none) × HasDistinctIds xs

  fresh_ids-seen :
      (seen : List Text) (x : M) (xs : List M)
      → has seen (m.id x) ≡ true
      → fresh_ids m seen (x ∷ xs) ≡ fresh_ids m seen xs
  unfolding fresh_ids
  fresh_ids-seen seen x xs e = rw e refl

  fresh_ids-new :
      (seen : List Text) (x : M) (xs : List M)
      → has seen (m.id x) ≡ false
      → fresh_ids m seen (x ∷ xs) ≡ x ∷ fresh_ids m (m.id x ∷ seen) xs
  unfolding fresh_ids
  fresh_ids-new seen x xs e = rw e refl

  has-cons : (b a : Text) (bs : List Text) → has (b ∷ bs) a ≡ (text_eq b a || has bs a)
  unfolding has
  has-cons b a bs = refl

  -- An id that was seen is found in the kept messages never, any other id where it was first.
  find-fresh_ids :
      (seen : List Text) (xs : List M) (id : Text)
      → with_id id (fresh_ids m seen xs) ≡ (if has seen id then none else with_id id xs)
  unfolding fresh_ids
  find-fresh_ids seen [] id = elim (Bool-cases (has seen id)) [
    | inl e ↦ rw e refl
    | inr e ↦ rw e refl
  ]
  find-fresh_ids seen (x ∷ xs) id = elim (Bool-cases (has seen (m.id x))) [
    | inl e ↦
        ap (with_id id) (fresh_ids-seen seen x xs e)
        ∙ find-fresh_ids seen xs id
        ∙ ground (arith, text_eq_iff (m.id x) id)
    | inr e ↦
        ap (with_id id) (fresh_ids-new seen x xs e)
        ∙ find_new id seen x xs e (find-fresh_ids (m.id x ∷ seen) xs id)
  ]
    where
      find_new :
          (id : Text) (seen : List Text) (x : M) (xs : List M)
          → has seen (m.id x) ≡ false
          → with_id id (fresh_ids m (m.id x ∷ seen) xs)
            ≡ (if has (m.id x ∷ seen) id then none else with_id id xs)
          → with_id id (x ∷ fresh_ids m (m.id x ∷ seen) xs)
            ≡ (if has seen id then none else with_id id (x ∷ xs))
      find_new id seen x xs e h = ground (arith, text_eq_iff (m.id x) id, has-cons (m.id x) id seen)

  distinct-fresh_ids : (seen : List Text) (xs : List M) → HasDistinctIds (fresh_ids m seen xs)
  unfolding fresh_ids
  distinct-fresh_ids seen [] = tt
  distinct-fresh_ids seen (x ∷ xs) = elim (Bool-cases (has seen (m.id x))) [
    | inl e ↦ subst HasDistinctIds (sym (fresh_ids-seen seen x xs e)) (distinct-fresh_ids seen xs)
    | inr e ↦ subst HasDistinctIds (sym (fresh_ids-new seen x xs e)) (
      find-fresh_ids (m.id x ∷ seen) xs (m.id x)
          ∙ rw (has-cons (m.id x) (m.id x) seen, text_eq_refl (m.id x)) refl,
      distinct-fresh_ids (m.id x ∷ seen) xs,
    )
  ]

  -- Merging two pages gives each id at most once, and finds for every id the message that the first
  -- page has under it, else the second page's.
  pub merge_keeps_first :
      (first second : List M) (id : Text)
      → HasDistinctIds (merge_messages_by_id m first second)
        × (with_id id (merge_messages_by_id m first second) ≡ with_id id (first ++ second))
  unfolding merge_messages_by_id has
  merge_keeps_first first second id =
      (distinct-fresh_ids [] (first ++ second), find-fresh_ids [] (first ++ second) id)
