-- ===== src/Control.antt =====
-- packages/adapters/src/computer-control.ts: a user's control of a computer under a lease, with the grant
-- of apps/api/src/router.ts (the takeover handler, where it writes the row) and
-- finalizeComputerControlRelease of packages/db/src/events.ts; the grant of apps/api/src/taught-skills.ts
-- (grantTakeover) and the end of a boot in packages/adapters/src/computer-lifecycle.ts. The state is the row of one computer; an
-- updateMany on it counts one row or none. A lease is given to the row as a text, a `Date` is its time in
-- milliseconds, and whether the run of the row waits for the user is an argument.
pub mod Moves
pub mod Revoked
mod Tests
use rakazo.Common.{
  ℕ, ◌+◌, max, ◌==◌, ltb, leb, Bool, true, false, ◌&&◌, ◌||◌, not, Option, none, some, Text, lit,
  text_eq, truthy, or_empty, if◌then◌else◌,
}

pub data Holder : Type 0 where
  by_user by_bot by_none : Holder

pub record Computer : Type 0 where
  pub is_running : Bool
  pub is_booting : Bool
  pub has_provider : Bool
  pub control_holder : Holder
  pub control_lease_id : Option Text
  pub control_lease_expires_at : Option ℕ
  pub control_bot_id : Option Text
  pub control_run_id : Option Text

abbrev pub is_user : Holder → Bool
is_user by_user = true
is_user _ = false

-- `{ field: value }` in a condition, where null is a value
unfoldable pub same_id : Option Text → Option Text → Bool
same_id none none = true
same_id (some a) (some b) = text_eq a b
same_id _ _ = false

abbrev is_future : Option ℕ → ℕ → Bool
is_future none now = false
is_future (some at) now = ltb now at

unfoldable pub has_active_computer_control : Computer → ℕ → Bool
has_active_computer_control computer now =
    is_user computer.control_holder
    && truthy computer.control_lease_id
    && is_future computer.control_lease_expires_at now

abbrev default_takeover_lease_ms : ℕ
default_takeover_lease_ms = 900000

-- `Number` of the environment's variable, if it is a whole number.
abbrev takeover_lease_ms : Option ℕ → ℕ
takeover_lease_ms none = default_takeover_lease_ms
takeover_lease_ms (some raw) = if leb 1000 raw then raw else default_takeover_lease_ms

teaching_control_lease_expires_at : Option ℕ → ℕ → ℕ → ℕ
teaching_control_lease_expires_at ttl teaching_expires_at now =
    max (now + takeover_lease_ms ttl) teaching_expires_at

-- What a call does: it returns false, it schedules the expiry of a lease, or it goes on.
pub data Extended : Type 0 where
  not_extended : Extended
  extended : Text → ℕ → Extended

-- `updateMany` on the row
abbrev pub updated : Bool → Computer → Computer → Bool × Computer
updated true after before = (true, after)
updated false after before = (false, before)

extended_row : Text → Text → ℕ → Computer → Bool × Computer
extended_row lease_id bot_id expires_at row =
    updated
      (is_user row.control_holder
        && same_id row.control_bot_id (some bot_id)
        && same_id row.control_lease_id (some lease_id))
      (record row { control_lease_expires_at = some expires_at }) row

abbrev extend_result : Text → ℕ → Bool × Computer → Extended × Computer
extend_result lease_id expires_at (true, row) = (extended lease_id expires_at, row)
extend_result lease_id expires_at (false, row) = (not_extended, row)

-- `computer` is the row as the caller read it, the last argument the row as it is.
pub extend_active_computer_control :
    Option ℕ → Computer → Text → ℕ → ℕ → Computer → Extended × Computer
unfolding has_active_computer_control teaching_control_lease_expires_at extended_row same_id
extend_active_computer_control ttl computer bot_id until now row =
    let lease_id = or_empty computer.control_lease_id in
    let expires_at = teaching_control_lease_expires_at ttl until now in
    let result = extend_result lease_id expires_at (extended_row lease_id bot_id expires_at row) in
    if not (has_active_computer_control computer now)
      || not (same_id computer.control_bot_id (some bot_id))
      || not (truthy computer.control_lease_id)
    then (not_extended, row)
    else result

-- What the expiry of a lease does next: nothing, wait for the time again, or revoke and finalize with the
-- bot and the run of the row as it was read.
pub data Expiry : Type 0 where
  stale : Expiry
  reschedules : ℕ → Expiry
  revokes : Text → Option Text → Expiry

abbrev expiry_of : Option ℕ → ℕ
expiry_of none = 0
expiry_of (some at) = at

abbrev claimed : Text → Option Text → Bool × Computer → Expiry × Computer
claimed bot_id run_id (true, row) = (revokes bot_id run_id, row)
claimed bot_id run_id (false, row) = (stale, row)

-- `updateMany({ where: { id, controlLeaseId }, data: { controlHolder: "none" } })`
claim_row : Text → Computer → Bool × Computer
claim_row lease_id row =
    updated (same_id row.control_lease_id (some lease_id)) (record row { control_holder = by_none })
      row

-- `expireComputerControl` up to the call of the provider.
pub begin_expire : Computer → Text → ℕ → Computer → Expiry × Computer
unfolding claim_row same_id
begin_expire computer lease_id now row =
    let claim =
      claimed (or_empty computer.control_bot_id) computer.control_run_id (claim_row lease_id row) in
    if not (same_id computer.control_lease_id (some lease_id))
    then (stale, row)
    else if not (truthy computer.control_bot_id)
    then (stale, row)
    else if is_future computer.control_lease_expires_at now
    then (reschedules (expiry_of computer.control_lease_expires_at), row)
    else claim

-- `finalizeComputerControlRelease`: whether it was released, the run that goes on, and the row after.
abbrev released : Holder → Option Text → Bool → Bool × Computer → Option (Option Text) × Computer
released holder run_id waits (true, row) = (some (if waits then run_id else none), row)
released holder run_id waits (false, row) = (none, row)

pub finalize_computer_control_release :
    Text → Option Text → Text → Holder → Bool → Computer → Option (Option Text) × Computer
unfolding same_id
finalize_computer_control_release bot_id run_id lease_id holder waits row =
    released holder run_id (waits && truthy run_id) (
      updated
        (same_id row.control_bot_id (some bot_id)
          && same_id row.control_lease_id (some lease_id)
          && same_id row.control_run_id run_id)
        (record row {
          control_holder = holder;
          control_lease_id = none;
          control_lease_expires_at = none;
          control_bot_id = none;
          control_run_id = none;
        })
        row)

-- The grant of a takeover: only where no user holds the computer and no lease is there.
pub grant_takeover : Text → ℕ → Text → Option Text → Computer → Bool × Computer
unfolding same_id
grant_takeover lease_id expires_at bot_id run_id row =
    updated
      (row.is_running && not (is_user row.control_holder) && same_id row.control_lease_id none)
      (record row {
        control_holder = by_user;
        control_lease_id = some lease_id;
        control_lease_expires_at = some expires_at;
        control_bot_id = some bot_id;
        control_run_id = run_id;
      })
      row

-- The grant of `grantTakeover` for teaching, after the extension that it tries first has failed: also where
-- the user holds the computer for the same bot.
pub grant_teaching : Text → ℕ → Text → Computer → Bool × Computer
unfolding same_id
grant_teaching lease_id expires_at bot_id row =
    updated
      (row.is_running
        && (not (is_user row.control_holder) || same_id row.control_bot_id (some bot_id)))
      (record row {
        control_holder = by_user;
        control_lease_id = some lease_id;
        control_lease_expires_at = some expires_at;
        control_bot_id = some bot_id;
      })
      row

-- The row that a boot leaves: under an active control the lease stays, else it goes.
abbrev pub activated_row : Bool → Holder → Computer → Computer
activated_row true holder row = record row {
  is_running = true;
  is_booting = false;
  has_provider = true;
  control_holder = by_user;
}
activated_row false holder row = record row {
  is_running = true;
  is_booting = false;
  has_provider = true;
  control_holder = holder;
  control_lease_id = none;
  control_lease_expires_at = none;
  control_bot_id = none;
  control_run_id = none;
}

-- The end of a boot; `existing` is the row as it was read before the boot, and the bot that asked for the
-- computer is there or not.
pub activate_computer : Computer → Holder → Bool → ℕ → Computer → Bool × Computer
unfolding has_active_computer_control
activate_computer existing holder bot_is_there now row =
    updated (row.is_booting && bot_is_there)
      (activated_row (has_active_computer_control existing now) holder row) row

-- The release that a user asks for, up to the call of the provider: the bot, lease and run to finalize.
pub data Release : Type 0 where
  nothing_to_release : Release
  releases : Text → Text → Option Text → Release

pub begin_release : Computer → Text → ℕ → Release
unfolding has_active_computer_control same_id
begin_release computer bot_id now =
    if not (has_active_computer_control computer now)
      || not (is_user computer.control_holder)
      || not (truthy computer.control_bot_id)
      || not (truthy computer.control_lease_id)
      || not (same_id computer.control_bot_id (some bot_id))
    then nothing_to_release
    else releases bot_id (or_empty computer.control_lease_id) computer.control_run_id
