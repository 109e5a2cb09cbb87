-- ===== src/Screen/Registry.antt =====
-- infra/sandboxes/supervisor/src/supervisor-logic.ts, the registry of the screens that a Team
-- Computer has assigned: `nextScreenIndex`, `releaseAssignedScreen`, `completeReleasedScreen`. The
-- `Map` is passed and returned; a call that throws leaves it as it was. An optional `releasing` is
-- false when absent.
pub mod Invariant
pub mod Protocol
use rakazo.Common.{
  ℕ, zero, suc, ◌+◌, ◌==◌, Bool, true, false, ◌||◌, ◌&&◌, not, List, Option, none, some, map, Text,
  text_eq, any, if◌then◌else◌, Dict, get, put, delete, values, truthy, or_empty, Result, ok, err,
}
use rakazo.Screen.Lease.{can_take_screen_lease, can_release_screen_lease}

pub record ScreenAssignment : Type 0 where
  pub index : ℕ
  pub lease_id : Option Text
  pub releasing : Bool

pub data ScreenError : Type 0 where
  still_being_released owned_by_newer_execution cannot_allocate : ScreenError

abbrev pub Assigned : Type 0
Assigned = Dict ScreenAssignment

-- TEAM_SCREEN_LIMIT of infra/sandboxes/supervisor/src/computer-spec.ts
abbrev pub team_screen_limit : ℕ
team_screen_limit = 8

abbrev pub used : Assigned → List ℕ
used assigned = map (λ slot. slot.index) (values assigned)

abbrev pub is_used : List ℕ → ℕ → Bool
is_used xs i = any (λ x. x == i) xs

-- The loop `for (let index = 0; index < limit; …)`, from `index` with `rounds` rounds left.
pub first_free : List ℕ → ℕ → ℕ → Option ℕ
first_free taken index zero = none
first_free taken index (suc rounds) =
    let later = first_free taken (index + 1) rounds in
    if not (is_used taken index) then some index else later

module _ (other : Text → Option ℕ) where
  pub take_over :
      Assigned → Text → Option Text → ScreenAssignment → Result ScreenError (ℕ × Assigned)
  take_over assigned screen_id lease_id existing =
      if existing.releasing
      then err still_being_released
      else if not (truthy lease_id)
      then ok (existing.index, assigned)
      else if truthy existing.lease_id
          && not (text_eq (or_empty existing.lease_id) (or_empty lease_id))
          && not (can_take_screen_lease other existing.lease_id lease_id)
      then err owned_by_newer_execution
      else if can_take_screen_lease other existing.lease_id lease_id
      then ok (existing.index, put screen_id (record existing { lease_id = lease_id }) assigned)
      else ok (existing.index, assigned)

  pub allocate : Assigned → Text → Option Text → Option ℕ → Result ScreenError (ℕ × Assigned)
  allocate assigned screen_id lease_id none = err cannot_allocate
  allocate assigned screen_id lease_id (some index) = ok (
    index,
    put screen_id (record { index = index; lease_id = lease_id; releasing = false }) assigned,
  )

  pub next_at :
      Assigned
      → Text
      → Option Text
      → ℕ
      → Option ScreenAssignment
      → Result ScreenError (ℕ × Assigned)
  next_at assigned screen_id lease_id limit (some existing) =
      take_over assigned screen_id lease_id existing
  next_at assigned screen_id lease_id limit none =
      allocate assigned screen_id lease_id (first_free (used assigned) 0 limit)

  pub next_screen_index : Assigned → Text → Option Text → ℕ → Result ScreenError (ℕ × Assigned)
  unfolding next_at allocate first_free take_over
  next_screen_index assigned screen_id lease_id limit =
      next_at assigned screen_id lease_id limit (get screen_id assigned)

  pub release_at : Assigned → Text → Option Text → Option ScreenAssignment → Option ℕ × Assigned
  release_at assigned screen_id lease_id none = (none, assigned)
  release_at assigned screen_id lease_id (some slot) =
      if slot.releasing
        || (truthy lease_id && not (can_release_screen_lease other slot.lease_id lease_id))
      then (none, assigned)
      else (some slot.index, put screen_id (record slot { releasing = true }) assigned)

  pub release_assigned_screen : Assigned → Text → Option Text → Option ℕ × Assigned
  unfolding release_at
  release_assigned_screen assigned screen_id lease_id =
      release_at assigned screen_id lease_id (get screen_id assigned)

pub complete_at : Assigned → Text → ℕ → Option ScreenAssignment → Assigned
complete_at assigned screen_id index none = assigned
complete_at assigned screen_id index (some slot) =
    if slot.releasing && slot.index == index then delete screen_id assigned else assigned

pub complete_released_screen : Assigned → Text → ℕ → Assigned
unfolding complete_at
complete_released_screen assigned screen_id index =
    complete_at assigned screen_id index (get screen_id assigned)
