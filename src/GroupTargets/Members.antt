-- ===== src/GroupTargets/Members.antt =====
-- Who a message to a group wakes: members only, and someone if there is a member at all.
use rakazo.Common.{
  Bool, true, false, List, [], ◌∷◌, Text, lit, text_eq_refl, has, if◌then◌else◌, ◌≡◌, refl, arith,
  All, All-append, All-map, Bool-cases, inl, inr,
}
use rakazo.GroupTargets.{
  GroupMemberRef, add_id, ids_of, add_explicit, add_members, or_first, resolve_group_target_bot_ids,
}

abbrev pub IsMember : List GroupMemberRef → Text → Type 0
IsMember members id = has (ids_of members) id ≡ true

add_id-All :
    (P : Text → Type 0) (ids : List Text) (id : Text) → P id → All P ids → All P (add_id ids id)
unfolding add_id
add_id-All P ids id p h = elim (Bool-cases (has ids id)) [
  | inl e ↦ rw e h
  | inr e ↦ rw e (All-append P ids (id ∷ []) h (p, tt))
]

if-All :
    (P : Text → Type 0) (b : Bool) (ids : List Text) (id : Text)
    → (b ≡ true → P id)
    → All P ids
    → All P (if b then add_id ids id else ids)
if-All P true ids id p h = add_id-All P ids id (p refl) h
if-All P false ids id p h = h

explicit-All :
    (members : List GroupMemberRef) (ids mentions : List Text)
    → All (IsMember members) ids
    → All (IsMember members) (add_explicit members ids mentions)
unfolding add_explicit
explicit-All members ids [] h = h
explicit-All members ids (id ∷ mentions) h =
    explicit-All members (if has (ids_of members) id then add_id ids id else ids) mentions
      (if-All (IsMember members) (has (ids_of members) id) ids id (λ e. e) h)

members-All :
    (P : Text → Type 0) (wakes : GroupMemberRef → Bool) (ids : List Text)
    → (some_members : List GroupMemberRef) → All (λ member. P member.id) some_members
    → All P ids
    → All P (add_members wakes ids some_members)
unfolding add_members
members-All P wakes ids [] p h = h
members-All P wakes ids (member ∷ members) p h =
    members-All P wakes (if wakes member then add_id ids member.id else ids) members p.1
      (if-All P (wakes member) ids member.id (λ e. p.0) h)

has_later : (a b : Text) (bs : List Text) → has bs a ≡ true → has (b ∷ bs) a ≡ true
unfolding has
has_later a b bs h = ground (arith, h)

has_first : (a : Text) (bs : List Text) → has (a ∷ bs) a ≡ true
unfolding has
has_first a bs = ground (arith, text_eq_refl a)

All-members : (members : List GroupMemberRef) → All (λ member. IsMember members member.id) members
All-members [] = tt
All-members (member ∷ members) = (
  has_first member.id (ids_of members),
  All-map (λ m. IsMember members m.id) (λ m. IsMember (member ∷ members) m.id) members
      (λ m h. has_later m.id member.id (ids_of members) h) (All-members members),
)

or_first-All :
    (ids : List Text) (members : List GroupMemberRef)
    → All (IsMember members) ids
    → All (IsMember members) (or_first ids members)
or_first-All [] [] h = tt
or_first-All [] (member ∷ members) h = (has_first member.id (ids_of members), tt)
or_first-All (id ∷ ids) members h = h

abbrev pub is_none : List Text → Bool
is_none [] = true
is_none (id ∷ ids) = false

or_first-some :
    (ids : List Text) (member : GroupMemberRef) (members : List GroupMemberRef)
    → is_none (or_first ids (member ∷ members)) ≡ false
or_first-some [] member members = refl
or_first-some (id ∷ ids) member members = refl

-- A message to a group with a member wakes at least one bot, and wakes only members of the group,
-- whatever bots are mentioned in it.
pub wakes_members :
    (mentioned : Text → Text → Bool) (text : Text) (member : GroupMemberRef)
    → (members : List GroupMemberRef) (explicit : List Text)
    → let targets = resolve_group_target_bot_ids mentioned text (member ∷ members) explicit in
      All (IsMember (member ∷ members)) targets × (is_none targets ≡ false)
unfolding resolve_group_target_bot_ids
wakes_members mentioned text member members explicit = (
  or_first-All (add_members wakes found group) group (
      members-All (IsMember group) wakes found group (All-members group)
        (explicit-All group [] explicit tt)),
  or_first-some (add_members wakes found group) member members,
)
  where
    group : List GroupMemberRef
    group = member ∷ members

    found : List Text
    found = add_explicit group [] explicit

    wakes : GroupMemberRef → Bool
    wakes = λ m. if mentioned text (lit "everyone") then true else mentioned text m.name
