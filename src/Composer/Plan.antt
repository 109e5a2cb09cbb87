-- ===== src/Composer/Plan.antt =====
-- What the plan of a send contains: the routines that run, and the entries of the payload.
use rakazo.Common.{
  Bool, true, false, not, ◌&&◌, ◌||◌, List, [], ◌∷◌, ◌++◌, map, Text, lit, text_eq, has, has-unique,
  starts_with, is_empty, any, select, if◌then◌else◌, truthy, append_assoc, append-nil, ◌≡◌, ◌⊎◌,
  refl, sym, ap, ◌∙◌, arith, All, All-append, Bool-cases, inl, inr,
}
use rakazo.Composer.{
  ComposerMention, ComposerMentionKind, bot_kind, group_kind, routine_kind, connector_kind,
  everyone_kind, is_kind, Partition, sort_mention, partition_from, partition_composer_mentions,
  PayloadEntry, payload_entry, connector_entry, connection_of, is_needs_auth,
  to_thread_mention_payload, resolve_composer_send_plan,
}

-- The mentions of a kind, in order
abbrev pub of_kind : ComposerMentionKind → List ComposerMention → List ComposerMention
unfolding is_kind
of_kind kind mentions = select (λ mention. is_kind mention.kind kind) mentions

-- A list after one turn of the loop
abbrev kept : Bool → List ComposerMention → ComposerMention → List ComposerMention
kept b xs mention = if b then xs ++ mention ∷ [] else xs

kept-append :
    (b : Bool) (xs : List ComposerMention) (mention : ComposerMention) (rest : List ComposerMention)
    → kept b xs mention ++ rest ≡ xs ++ (if b then mention ∷ rest else rest)
kept-append true xs mention rest = append_assoc xs (mention ∷ []) rest
kept-append false xs mention rest = refl

one_turn :
    (k : ComposerMentionKind) (mention : ComposerMention) (p : Partition)
    → ((sort_mention k mention p).bots ≡ kept (is_kind k bot_kind) p.bots mention)
      × ((sort_mention k mention p).groups ≡ kept (is_kind k group_kind) p.groups mention)
      × ((sort_mention k mention p).routines ≡ kept (is_kind k routine_kind) p.routines mention)
      × ((sort_mention k mention p).connectors
          ≡ kept (is_kind k connector_kind) p.connectors mention)
      × ((sort_mention k mention p).everyone ≡ (is_kind k everyone_kind || p.everyone))
unfolding sort_mention is_kind
one_turn bot_kind mention p = (refl, refl, refl, refl, refl)
one_turn group_kind mention p = (refl, refl, refl, refl, refl)
one_turn routine_kind mention p = (refl, refl, refl, refl, refl)
one_turn connector_kind mention p = (refl, refl, refl, refl, refl)
one_turn everyone_kind mention p = (refl, refl, refl, refl, refl)

-- What a partition that starts at `p` is after the mentions
abbrev Collects : Partition → List ComposerMention → Partition → Type 0
unfolding of_kind
Collects p mentions q =
    (q.bots ≡ p.bots ++ of_kind bot_kind mentions)
    × (q.groups ≡ p.groups ++ of_kind group_kind mentions)
    × (q.routines ≡ p.routines ++ of_kind routine_kind mentions)
    × (q.connectors ≡ p.connectors ++ of_kind connector_kind mentions)
    × (q.everyone ≡ (any (λ mention. is_kind mention.kind everyone_kind) mentions || p.everyone))

partition_from-Collects :
    (p : Partition) (mentions : List ComposerMention)
    → Collects p mentions (partition_from p mentions)
unfolding partition_from of_kind Collects
partition_from-Collects p [] = (
  sym (append-nil p.bots),
  sym (append-nil p.groups),
  sym (append-nil p.routines),
  sym (append-nil p.connectors),
  refl,
)
partition_from-Collects p (mention ∷ mentions) =
    let (b, g, r, c, e) = one_turn mention.kind mention p in
    let (b', g', r', c', e') =
      partition_from-Collects (sort_mention mention.kind mention p) mentions in
    (
      b'
          ∙ ap (λ xs. xs ++ of_kind bot_kind mentions) b
          ∙ kept-append (is_kind mention.kind bot_kind) p.bots mention (of_kind bot_kind mentions),
      g'
          ∙ ap (λ xs. xs ++ of_kind group_kind mentions) g
          ∙ kept-append (is_kind mention.kind group_kind) p.groups mention
              (of_kind group_kind mentions),
      r'
          ∙ ap (λ xs. xs ++ of_kind routine_kind mentions) r
          ∙ kept-append (is_kind mention.kind routine_kind) p.routines mention
              (of_kind routine_kind mentions),
      c'
          ∙ ap (λ xs. xs ++ of_kind connector_kind mentions) c
          ∙ kept-append (is_kind mention.kind connector_kind) p.connectors mention
              (of_kind connector_kind mentions),
      e' ∙ ground (arith, e),
    )

-- Partitioning the mentions gives, for each kind, those of the kind in the order in which they stand,
-- and tells whether everyone is mentioned.
partition_is_select :
    (mentions : List ComposerMention)
    → Collects
        (record { bots = []; groups = []; routines = []; connectors = []; everyone = false })
        mentions
        (partition_composer_mentions mentions)
unfolding partition_composer_mentions
partition_is_select mentions =
    partition_from-Collects
      (record { bots = []; groups = []; routines = []; connectors = []; everyone = false }) mentions

-- What a payload entry may be: a bot, or a connection that exists and is not one of the catalog.
abbrev pub IsSendable : PayloadEntry → Type 0
unfolding is_kind
IsSendable entry =
    (is_kind entry.kind bot_kind ≡ true)
    ⊎ ((is_kind entry.kind connector_kind ≡ true)
        × (is_empty entry.id ≡ false)
        × (starts_with entry.id (lit "catalog:") ≡ false))

abbrev is_rerouted : ComposerMentionKind → Bool
unfolding is_kind
is_rerouted kind = not (is_kind kind group_kind) && not (is_kind kind routine_kind)

connector-IsSendable : (mention : ComposerMention) → All IsSendable (connector_entry mention)
unfolding IsSendable is_kind
connector-IsSendable mention =
    elim (Bool-cases (is_needs_auth mention.auth_status && not (truthy mention.connection_id))) [
      | inl e ↦ rw e tt
      | inr e ↦
          elim (Bool-cases (
            is_empty (connection_of mention)
            || starts_with (connection_of mention) (lit "catalog:"))) [
              | inl f ↦ rw (e, f) tt
              | inr f ↦ rw (e, f) (inr (refl, ground arith, ground arith), tt)
            ]
    ]

entry-IsSendable :
    (k : ComposerMentionKind) (mention : ComposerMention)
    → is_rerouted k ≡ true
    → All IsSendable (payload_entry k mention)
unfolding IsSendable is_rerouted is_kind payload_entry
entry-IsSendable bot_kind mention h = (inl refl, tt)
entry-IsSendable group_kind mention h = ground arith
entry-IsSendable routine_kind mention h = ground arith
entry-IsSendable connector_kind mention h = connector-IsSendable mention
entry-IsSendable everyone_kind mention h = tt

All-IsSendable :
    (mentions : List ComposerMention)
    → All IsSendable
        (to_thread_mention_payload (select (λ mention. is_rerouted mention.kind) mentions))
unfolding is_rerouted to_thread_mention_payload
All-IsSendable [] = tt
All-IsSendable (mention ∷ mentions) = elim (Bool-cases (is_rerouted mention.kind)) [
  | inl e ↦ rw e (
      All-append IsSendable (payload_entry mention.kind mention) _
        (entry-IsSendable mention.kind mention e) (All-IsSendable mentions))
  | inr e ↦ rw e (All-IsSendable mentions)
]

-- Each entry of the payload of a send is a bot, or a connector whose id is not empty and does not begin
-- with `catalog:`; so no group, routine or everyone is among them.
pub payload-IsSendable :
    (strip : Text → Text → Text) (text : Text) (mentions : List ComposerMention) (attached : Bool)
    → All IsSendable (resolve_composer_send_plan strip text mentions attached).mention_payload
unfolding resolve_composer_send_plan is_rerouted
payload-IsSendable strip text mentions attached = All-IsSendable mentions

has_routine :
    (mentions : List ComposerMention) (id : Text)
    → has (map (λ routine. routine.id) (of_kind routine_kind mentions)) id
      ≡ any (λ mention. is_kind mention.kind routine_kind && text_eq mention.id id) mentions
unfolding of_kind has
has_routine [] id = refl
has_routine (mention ∷ mentions) id = elim (Bool-cases (is_kind mention.kind routine_kind)) [
  | inl e ↦ rw e (ap (λ b. text_eq mention.id id || b) (has_routine mentions id))
  | inr e ↦ rw e (has_routine mentions id)
]

-- A send runs exactly the routines whose chips are among the mentions.
pub runs_mentioned_routines :
    (strip : Text → Text → Text) (text : Text) (mentions : List ComposerMention) (attached : Bool)
    → (id : Text)
    → has (resolve_composer_send_plan strip text mentions attached).routine_ids id
      ≡ any (λ mention. is_kind mention.kind routine_kind && text_eq mention.id id) mentions
unfolding resolve_composer_send_plan
runs_mentioned_routines strip text mentions attached id =
    has-unique (map (λ routine. routine.id) (partition_composer_mentions mentions).routines) id
    ∙ ap (λ rs. has (map (λ routine. routine.id) rs) id) (partition_is_select mentions).2
    ∙ has_routine mentions id
