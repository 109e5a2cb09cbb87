-- ===== src/Effects/Dispatch/Histories/Unapproved.antt =====
-- What keeps the row of a key from being approved: every operation but an answer that allows.
use rakazo.Common.{
  Bool, true, false, [], ◌∷◌, Option, none, some, Text, lit, text_eq, text_eq_iff, if◌then◌else◌,
  get, put, get-put, ◌≡◌, refl, sym, subst, inl, inr, Bool-cases,
}
use rakazo.Effects.{
  EffectStatus, approved, executing, uncertain, completed, EffectResult, Effect, Store, status_eq,
  update_row, update_many, with_status, with_result, uncertain_effect_result,
  complete_external_effect, replace_completed_external_effect_result, settle_uncertain_effect,
  settled,
}
use rakazo.Effects.Dispatch.{record_row}
use rakazo.Effects.Dispatch.Histories.{Answer, is_allowed, answered, answer_secret, approve_secret}

module _ {V : Type 0} where
  -- The row is not approved, and no submitted secret approves it.
  abbrev pub Unapproved : Option (Effect V) → Type 0
  Unapproved none = Unit {0}
  Unapproved (some e) =
      (status_eq e.status approved ≡ false) × (text_eq e.kind (lit "request_secret") ≡ false)

  pub put-Unapproved :
      (k id : Text) (e : Effect V) (s : Store V)
      → (Unapproved (get id s) → text_eq id k ≡ true → Unapproved (some e))
      → Unapproved (get k s)
      → Unapproved (get k (put id e s))
  put-Unapproved k id e s g u = rw (get-put id k e s) (elim (Bool-cases (text_eq id k)) [
    | inl same ↦
        rw same (g (subst (λ j. Unapproved (get j s)) (sym ((text_eq_iff id k).0 same)) u) same)
    | inr other ↦ rw other u
  ])

  pub update_row-Unapproved :
      (k id : Text) (status t : EffectStatus) (f : Effect V → Effect V) (s : Store V)
      (o : Option (Effect V))
      → get id s ≡ o
      → ((e : Effect V) → Unapproved (some e) → Unapproved (some (f e)))
      → Unapproved (get k s)
      → Unapproved (get k (update_row o id status f s).1)
  unfolding update_row
  update_row-Unapproved k id status t f s none h g u = u
  update_row-Unapproved k id status t f s (some e) h g u =
      elim (Bool-cases (status_eq e.status status)) [
        | inl found ↦
            rw found (put-Unapproved k id (f e) s (λ v same. g e (subst Unapproved h v)) u)
        | inr not_found ↦ rw not_found u
      ]

  pub update_many-Unapproved :
      (k id : Text) (status : EffectStatus) (f : Effect V → Effect V) (s : Store V)
      → ((e : Effect V) → Unapproved (some e) → Unapproved (some (f e)))
      → Unapproved (get k s)
      → Unapproved (get k (update_many id status f s).1)
  unfolding update_many
  update_many-Unapproved k id status f s g u =
      update_row-Unapproved k id status status f s (get id s) refl g u

  pub complete-Unapproved :
      (k id : Text) (status : EffectStatus) (r : EffectResult V) (s : Store V)
      → Unapproved (get k s)
      → Unapproved (get k (complete_external_effect id status r s).1)
  unfolding complete_external_effect status_eq
  complete-Unapproved k id status r s =
      update_many-Unapproved k id status (with_result completed r) s (λ e v. (refl, v.1))

  pub replace-Unapproved :
      (k id : Text) (r : EffectResult V) (s : Store V)
      → Unapproved (get k s)
      → Unapproved (get k (replace_completed_external_effect_result id r s).1)
  unfolding replace_completed_external_effect_result status_eq
  replace-Unapproved k id r s =
      update_many-Unapproved k id completed (with_result completed r) s (λ e v. (refl, v.1))

  pub settle-Unapproved :
      (k id name : Text) (s : Store V)
      → Unapproved (get k s)
      → Unapproved (get k (settle_uncertain_effect id name s).1)
  unfolding settle_uncertain_effect settled status_eq
  settle-Unapproved k id name s =
      update_many-Unapproved k id executing (with_result uncertain (uncertain_effect_result name)) s
        (λ e v. (refl, v.1))

  pub claim-Unapproved :
      (k id : Text) (status : EffectStatus) (s : Store V)
      → Unapproved (get k s)
      → Unapproved (get k (update_many id status (with_status executing) s).1)
  unfolding status_eq
  claim-Unapproved k id status s =
      update_many-Unapproved k id status (with_status executing) s (λ e v. (refl, v.1))

  pub if-Unapproved :
      (b : Bool) (k : Text) (x y : Store V)
      → Unapproved (get k x)
      → Unapproved (get k y)
      → Unapproved (get k (if b then x else y))
  if-Unapproved true k x y u v = u
  if-Unapproved false k x y u v = v

  pub approve_secret-Unapproved :
      (b : Bool) (e : Effect V) (o after : Option (Effect V))
      → (Unapproved o → Unapproved after)
      → Unapproved (if b then some e else o)
      → Unapproved (if b then some (approve_secret e) else after)
  approve_secret-Unapproved true e o after f u = rw u.1 u
  approve_secret-Unapproved false e o after f u = f u

  pub record_row-Unapproved :
      (k id kind : Text) (s : Store V) (o : Option (Effect V))
      → (text_eq id k ≡ true → text_eq kind (lit "request_secret") ≡ false)
      → Unapproved (get k s)
      → Unapproved (get k (record_row o id kind s).1)
  unfolding record_row status_eq
  record_row-Unapproved k id kind s none h u = put-Unapproved k id _ s (λ v same. (refl, h same)) u
  record_row-Unapproved k id kind s (some e) h u = u

  pub answered-Unapproved :
      (k id : Text) (a : Answer) (s : Store V) (o : Option (Effect V))
      → get id s ≡ o
      → (text_eq id k ≡ true → is_allowed a ≡ false)
      → Unapproved (get k s)
      → Unapproved (get k (answered o id a s))
  unfolding answered status_eq
  answered-Unapproved k id a s none h n u = u
  answered-Unapproved k id a s (some e) h n u =
      if-Unapproved _ k s (put id _ s) u
        (put-Unapproved k id _ s (λ v same. rw (n same) (refl, (subst Unapproved h v).1)) u)

  pub answer_secret-Unapproved :
      (k : Text) (s : Store V) → Unapproved (get k s) → Unapproved (get k (answer_secret s))
  unfolding answer_secret get
  answer_secret-Unapproved k [] u = u
  answer_secret-Unapproved k ((j, e) ∷ s) u =
      approve_secret-Unapproved (text_eq j k) e (get k s) (get k (answer_secret s))
        (answer_secret-Unapproved k s) u
