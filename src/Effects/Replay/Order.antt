-- ===== src/Effects/Replay/Order.antt =====
-- The tools that run after an approval: the approved requests first, as they were approved, in order.
use rakazo.Common.{
  Bool, true, false, ◌&&◌, List, [], ◌∷◌, ◌++◌, append-nil, map, some, Text, is_empty, text_eq,
  text_eq_iff, truthy, All, ◌≡◌, ◌⊎◌, refl, sym, ap, ◌∙◌, inl, inr, Bool-cases,
}
use rakazo.Effects.Replay.{
  object, ApprovedEffectReplay, Started, must_replay_first, runs_with, next_tool_name, request_of,
  take_replay, start_tool,
}

and_false : (b : Bool) → (b && false) ≡ false
and_false true = refl
and_false false = refl

truthy-some : (s : Text) → is_empty s ≡ false → truthy (some s) ≡ true
truthy-some [] h = sym h
truthy-some (c ∷ s) h = refl

module _ {V : Type 0} where
  -- An approved call of a tool, with its arguments.
  abbrev pub replay : Text × V → ApprovedEffectReplay V
  replay (kind, args) = record { kind = kind; request = object args }

  abbrev ran_tool : Text → Started V → List (Text × V) → List (Text × V)
  ran_tool name (runs_with args) more = (name, args) ∷ more
  ran_tool name _ more = more

  abbrev continued :
      (List (ApprovedEffectReplay V) → List (Text × V) × List (ApprovedEffectReplay V))
      → Text
      → Started V × List (ApprovedEffectReplay V)
      → List (Text × V) × List (ApprovedEffectReplay V)
  continued go name (outcome, rest) = let (ran, last) = go rest in (ran_tool name outcome ran, last)

  -- The calls of the model one after another: the tools that ran with their arguments, and what is
  -- pending at the end.
  unfoldable pub call_tools :
      List (Text × V)
      → List (ApprovedEffectReplay V)
      → List (Text × V) × List (ApprovedEffectReplay V)
  unfolding start_tool
  call_tools [] pending = ([], pending)
  call_tools ((name, args) ∷ calls) pending =
      continued (call_tools calls) name (start_tool name args pending)

  abbrev pub Named : List (Text × V) → Type 0
  Named = All (λ e. is_empty e.0 ≡ false)

  call_nothing_pending : (calls : List (Text × V)) → call_tools calls [] ≡ (calls, [])
  unfolding call_tools start_tool take_replay next_tool_name
  call_nothing_pending [] = refl
  call_nothing_pending ((name, args) ∷ calls) = simp (call_nothing_pending calls)

  start_same :
      (name : Text) (args : V) (kind : Text) (req : V) (es : List (Text × V))
      → text_eq kind name ≡ true
      → start_tool name args (map replay ((kind, req) ∷ es)) ≡ (runs_with req, map replay es)
  unfolding start_tool take_replay next_tool_name request_of
  start_same name args kind req es h = rw (h, and_false (truthy (some kind))) refl

  start_other :
      (name : Text) (args : V) (kind : Text) (req : V) (es : List (Text × V))
      → text_eq kind name ≡ false
      → is_empty kind ≡ false
      → start_tool name args (map replay ((kind, req) ∷ es))
        ≡ (must_replay_first kind, map replay ((kind, req) ∷ es))
  unfolding start_tool take_replay next_tool_name request_of
  start_other name args kind req es h n = rw (h, truthy-some kind n) refl

  -- What ran and what is still pending are together the approved calls and others after them; there
  -- are none of these while one is pending.
  abbrev pub Replayed : List (Text × V) → List (Text × V) × List (ApprovedEffectReplay V) → Type 0
  Replayed approved outcome =
      (ran : List (Text × V)) × (rest : List (Text × V)) × (others : List (Text × V)) × (outcome
        ≡ (ran, map replay rest))
      × (ran ++ rest ≡ approved ++ others)
      × ((rest ≡ []) ⊎ (others ≡ []))

  -- Whatever the model calls after an approval, the tools that run are first the approved ones, in the
  -- order of the approvals and with the approved arguments, and only then others: what ran and what is
  -- still pending are together the approved calls and others after them, and there are no others while
  -- one is pending. The approved tools have names, and their requests are objects.
  pub replays_in_order :
      (calls approved : List (Text × V))
      → Named approved
      → Replayed approved (call_tools calls (map replay approved))
  unfolding call_tools
  replays_in_order [] approved named = ([], approved, [], refl, sym (append-nil approved), inr refl)
  replays_in_order (c ∷ calls) [] named =
      (c ∷ calls, [], c ∷ calls, call_nothing_pending (c ∷ calls), append-nil (c ∷ calls), inl refl)
  replays_in_order ((name, args) ∷ calls) ((kind, req) ∷ approved) (n, named) =
      elim (Bool-cases (text_eq kind name)) [
        | inl same ↦
            (let (ran, rest, others, e, o, u) = replays_in_order calls approved named in
              (
                (name, req) ∷ ran,
                rest,
                others,
                ap (continued (call_tools calls) name) (start_same name args kind req approved same)
                    ∙ ap (λ p. ((name, req) ∷ p.0, p.1)) e,
                rw ((text_eq_iff kind name).0 same) (ap (◌∷◌ (name, req)) o),
                u,
              ))
        | inr other ↦
            (let (ran, rest, others, e, o, u) =
                replays_in_order calls ((kind, req) ∷ approved) (n, named) in
              (
                ran,
                rest,
                others,
                ap (continued (call_tools calls) name)
                      (start_other name args kind req approved other n)
                    ∙ e,
                o,
                u,
              ))
      ]
