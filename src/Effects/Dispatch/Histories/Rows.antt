-- ===== src/Effects/Dispatch/Histories/Rows.antt =====
-- What each operation does to the row of one key: a row that is neither recorded, intended nor approved
-- never becomes so again.
use rakazo.Common.{
  ℕ, ◌+◌, ◌≤◌, Bool, true, ◌&&◌, [], ◌∷◌, Option, none, some, Text, text_eq, text_eq_iff,
  if◌then◌else◌, get, put, get-put, ◌≡◌, refl, sym, inl, inr, Bool-cases, arith,
}
use rakazo.Effects.{
  EffectStatus, intended, approved, denied, executing, uncertain, completed, EffectResult, Effect,
  Store, status_eq, update_row, update_many, claim_approved_effect, claim_intended_effect,
  complete_external_effect, replace_completed_external_effect_result, settle_uncertain_effect,
  settled, uncertain_effect_result, is_one, with_status, with_result,
}
use rakazo.Effects.Dispatch.{record_effect, record_row}
use rakazo.Effects.Dispatch.Histories.{is_allowed, Answer, answer_approval, answered, answer_secret}

-- How many claims of the row may still succeed.
abbrev pub left_of : EffectStatus → ℕ
left_of intended = 1
left_of approved = 1
left_of _ = 0

-- 1 for a claim of the row of `k` that succeeds.
abbrev pub hit : Text → Bool → Text → ℕ
hit k got id = if got && text_eq id k then 1 else 0

left_of-status_eq : (s t : EffectStatus) → status_eq s t ≡ true → left_of s ≡ left_of t
unfolding status_eq
left_of-status_eq s t h = ground arith

module _ {V : Type 0} where
  abbrev pub left : Option (Effect V) → ℕ
  left none = 1
  left (some e) = left_of e.status

  -- A row that is written over the row `o` of its key, and may be claimed no more often.
  put-left :
      (k id : Text) (e : Effect V) (s : Store V) (o : Option (Effect V))
      → get id s ≡ o
      → left (some e) ≤ left o
      → left (get k (put id e s)) ≤ left (get k s)
  put-left k id e s o h g = rw (get-put id k e s) (elim (Bool-cases (text_eq id k)) [
    | inl same ↦ rw (same, sym ((text_eq_iff id k).0 same), h) g
    | inr other ↦ rw other (omega arith)
  ])

  update_row-left :
      (k id : Text) (status : EffectStatus) (f : Effect V → Effect V) (s : Store V)
      (o : Option (Effect V))
      → get id s ≡ o
      → ((e : Effect V) → status_eq e.status status ≡ true → left (some (f e)) ≤ left (some e))
      → left (get k (update_row o id status f s).1) ≤ left (get k s)
  unfolding update_row
  update_row-left k id status f s none h g = omega arith
  update_row-left k id status f s (some e) h g = elim (Bool-cases (status_eq e.status status)) [
    | inl found ↦ rw found (put-left k id (f e) s (some e) h (g e found))
    | inr not_found ↦ rw not_found (omega arith)
  ]

  update_many-left :
      (k id : Text) (status : EffectStatus) (f : Effect V → Effect V) (s : Store V)
      → ((e : Effect V) → status_eq e.status status ≡ true → left (some (f e)) ≤ left (some e))
      → left (get k (update_many id status f s).1) ≤ left (get k s)
  unfolding update_many
  update_many-left k id status f s g = update_row-left k id status f s (get id s) refl g

  left-completed :
      (e : Effect V) (r : EffectResult V) (t : EffectStatus)
      → left_of t ≡ 0
      → left (some (with_result t r e)) ≤ left (some e)
  left-completed e r t z = rw z (omega arith)

  pub complete-left :
      (k id : Text) (status : EffectStatus) (r : EffectResult V) (s : Store V)
      → left (get k (complete_external_effect id status r s).1) ≤ left (get k s)
  unfolding complete_external_effect
  complete-left k id status r s =
      update_many-left k id status (with_result completed r) s
        (λ e h. left-completed e r completed refl)

  pub replace-left :
      (k id : Text) (r : EffectResult V) (s : Store V)
      → left (get k (replace_completed_external_effect_result id r s).1) ≤ left (get k s)
  unfolding replace_completed_external_effect_result
  replace-left k id r s =
      update_many-left k id completed (with_result completed r) s
        (λ e h. left-completed e r completed refl)

  pub settle-left :
      (k id name : Text) (s : Store V)
      → left (get k (settle_uncertain_effect id name s).1) ≤ left (get k s)
  unfolding settle_uncertain_effect settled
  settle-left k id name s =
      update_many-left k id executing (with_result uncertain (uncertain_effect_result name)) s
        (λ e h. left-completed e (uncertain_effect_result name) uncertain refl)

  claim_row-left :
      (k id : Text) (status : EffectStatus) (s : Store V) (o : Option (Effect V))
      → get id s ≡ o
      → left_of status ≡ 1
      → let (got, after) = is_one (update_row o id status (with_status executing) s) in
        hit k got id + left (get k after) ≤ left (get k s)
  unfolding update_row
  claim_row-left k id status s none h g = omega arith
  claim_row-left k id status s (some e) h g = elim (Bool-cases (status_eq e.status status)) [
    | inl found ↦ rw found (
        ground (
          arith,
          get-put id k (with_status executing e) s,
          text_eq_iff id k,
          left_of-status_eq e.status status,
        ))
    | inr not_found ↦ rw not_found (omega arith)
  ]

  record_row-left :
      (k id kind : Text) (s : Store V) (o : Option (Effect V))
      → get id s ≡ o
      → left (get k (record_row o id kind s).1) ≤ left (get k s)
  unfolding record_row
  record_row-left k id kind s none h = put-left k id _ s none h (omega arith)
  record_row-left k id kind s (some e) h = omega arith

  pub record_effect-left :
      (k id kind : Text) (s : Store V) → left (get k (record_effect id kind s).1) ≤ left (get k s)
  unfolding record_effect
  record_effect-left k id kind s = record_row-left k id kind s (get id s) refl

  answered-left :
      (k id : Text) (a : Answer) (s : Store V) (o : Option (Effect V))
      → get id s ≡ o
      → left (get k (answered o id a s)) ≤ left (get k s)
  unfolding answered
  answered-left k id a s none h = omega arith
  answered-left k id a s (some e) h = elim (Bool-cases (status_eq e.status intended)) [
    | inl found ↦ ground (
      arith,
      put-left k id (with_status (if is_allowed a then approved else denied) e) s (some e) h,
      left_of-status_eq e.status intended found,
    )
    | inr not_found ↦ ground arith
  ]

  pub answer_approval-left :
      (k id : Text) (a : Answer) (s : Store V)
      → left (get k (answer_approval id a s)) ≤ left (get k s)
  unfolding answer_approval
  answer_approval-left k id a s = answered-left k id a s (get id s) refl

  pub answer_secret-left :
      (k : Text) (s : Store V) → left (get k (answer_secret s)) ≤ left (get k s)
  unfolding answer_secret get
  answer_secret-left k [] = omega arith
  answer_secret-left k ((j, e) ∷ s) =
      ground (arith, answer_secret-left k s, left_of-status_eq e.status intended)

  pub claim_approved-left :
      (k id : Text) (s : Store V)
      → let (got, after) = claim_approved_effect id s in
        hit k got id + left (get k after) ≤ left (get k s)
  unfolding claim_approved_effect update_many
  claim_approved-left k id s = claim_row-left k id approved s (get id s) refl refl

  pub claim_intended-left :
      (k id : Text) (s : Store V)
      → let (got, after) = claim_intended_effect id s in
        hit k got id + left (get k after) ≤ left (get k s)
  unfolding claim_intended_effect update_many
  claim_intended-left k id s = claim_row-left k id intended s (get id s) refl refl
