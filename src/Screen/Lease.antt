-- ===== src/Screen/Lease.antt =====
-- packages/core/src/screen-lease.ts. `Number` on a text that is neither blank nor plain digits is
-- the parameter `other`: `none` stands for a value that is no integer or is negative.
pub mod Laws
use rakazo.Common.{
  ℕ, zero, suc, ◌-◌, Bool, true, false, ◌||◌, not, List, [], ◌∷◌, ◌++◌, Option, none, some, Text,
  text_eq, if◌then◌else◌, ltb, leb, ◌==◌, ◌&&◌, take, drop, length, show, number, is_some, truthy,
  or_empty,
}

pub record LeaseId : Type 0 where
  pub owner_id : Text
  pub fence : ℕ

pub screen_lease_id : Text → ℕ → Text
unfolding show
screen_lease_id run_id fence = run_id ++ (b':' ∷ show fence)

-- `s.lastIndexOf(":")`, `none` for -1
pub last_colon : Text → Option ℕ
last_colon [] = none
last_colon (c ∷ s) = elim (last_colon s) [
  | some i ↦ some (suc i)
  | none ↦ if c == b':' then some 0 else none
]

module _ (other : Text → Option ℕ) where
  fence_of : Text → ℕ → Option ℕ → LeaseId
  fence_of lease_id separator none = record { owner_id = lease_id; fence = 0 }
  fence_of lease_id separator (some n) = record { owner_id = take separator lease_id; fence = n }

  parse_at : Text → Option ℕ → LeaseId
  unfolding fence_of number
  parse_at lease_id none = record { owner_id = lease_id; fence = 0 }
  parse_at lease_id (some zero) = record { owner_id = lease_id; fence = 0 }
  parse_at lease_id (some (suc i)) =
      fence_of lease_id (suc i) (number other (drop (suc (suc i)) lease_id))

  unfoldable pub parse_screen_lease_id : Text → LeaseId
  unfolding parse_at last_colon
  parse_screen_lease_id lease_id = parse_at lease_id (last_colon lease_id)

  -- `undefined` and the empty string are both falsy.
  unfoldable pub can_take_screen_lease : Option Text → Option Text → Bool
  can_take_screen_lease existing incoming =
      if not (truthy incoming)
      then false
      else if not (truthy existing) || text_eq (or_empty existing) (or_empty incoming)
      then true
      else ltb (parse_screen_lease_id (or_empty existing)).fence
          (parse_screen_lease_id (or_empty incoming)).fence

  unfoldable pub can_release_screen_lease : Option Text → Option Text → Bool
  can_release_screen_lease existing incoming =
      if not (truthy incoming)
        || not (truthy existing)
        || text_eq (or_empty existing) (or_empty incoming)
      then true
      else (let current = parse_screen_lease_id (or_empty existing) in
          let next = parse_screen_lease_id (or_empty incoming) in
          text_eq next.owner_id current.owner_id && leb current.fence next.fence)
