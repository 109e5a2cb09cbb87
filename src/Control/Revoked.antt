-- ===== src/Control/Revoked.antt =====
-- Once the expiry of a lease has claimed it, no interleaving brings the lease back.
use rakazo.Common.{
  text_eq_iff, ◌≢◌, none, ℕ, Bool, true, false, ◌&&◌, not, List, [], ◌∷◌, Option, some, Text,
  text_eq, truthy, or_empty, All, if◌then◌else◌, ◌≡◌, refl, arith,
}
use rakazo.Control.{
  Holder, by_none, Computer, is_user, same_id, updated, extended_row, extend_result, not_extended,
  has_active_computer_control, extend_active_computer_control, Expiry, stale, reschedules, revokes,
  claimed, claim_row, begin_expire, finalize_computer_control_release, released, grant_takeover,
  is_future, expiry_of, Extended, extended, grant_teaching, activate_computer, activated_row,
}
use rakazo.Control.Moves.{
  ControlMove, grants, extends, begins_expiry, finalizes, teaches, changes_state, activates, clears,
  control_step, control_history, Fresh,
}

abbrev is_under : Text → Computer → Bool
is_under lease row = same_id row.control_lease_id (some lease) && is_user row.control_holder

-- The row is not under the lease.
data NotUnder (lease : Text) (row : Computer) : Type 0 where
  not_under : is_under lease row ≡ false → NotUnder lease row

is_under_of : (lease : Text) (row : Computer) → NotUnder lease row → is_under lease row ≡ false
is_under_of lease row (not_under h) = h

-- Nor is the row that a call leaves.
data Spares {A : Type 0} (lease : Text) (p : A × Computer) : Type 0 where
  spares : NotUnder lease p.1 → Spares lease p

spared : {A : Type 0} (lease : Text) (p : A × Computer) → Spares lease p → NotUnder lease p.1
spared lease p (spares h) = h

updated-Spares :
    (lease : Text) (b : Bool) (after before : Computer)
    → NotUnder lease before
    → NotUnder lease after
    → Spares lease (updated b after before)
updated-Spares lease true after before h g = spares g
updated-Spares lease false after before h g = spares h

extend_result-Spares :
    (lease id : Text) (at : ℕ) (p : Bool × Computer)
    → Spares lease p
    → Spares lease (extend_result id at p)
extend_result-Spares lease id at (true, row) (spares h) = spares h
extend_result-Spares lease id at (false, row) (spares h) = spares h

claimed-Spares :
    (lease bot_id : Text) (run_id : Option Text) (p : Bool × Computer)
    → Spares lease p
    → Spares lease (claimed bot_id run_id p)
claimed-Spares lease b r (true, row) (spares h) = spares h
claimed-Spares lease b r (false, row) (spares h) = spares h

released-Spares :
    (lease : Text) (holder : Holder) (run_id : Option Text) (waits : Bool) (p : Bool × Computer)
    → Spares lease p
    → Spares lease (released holder run_id waits p)
released-Spares lease k r w (true, row) (spares h) = spares h
released-Spares lease k r w (false, row) (spares h) = spares h

if-Spares :
    {A : Type 0} (lease : Text) (b : Bool) (x y : A × Computer)
    → Spares lease x
    → Spares lease y
    → Spares lease (if b then x else y)
if-Spares lease true x y h g = h
if-Spares lease false x y h g = g

and_false : (b : Bool) → (b && false) ≡ false
and_false true = refl
and_false false = refl

stale-not-revokes : (bot_id : Text) (run_id : Option Text) → ¬ (stale ≡ revokes bot_id run_id)
stale-not-revokes bot_id run_id h = ground arith

reschedules-not-revokes :
    (at : ℕ) (bot_id : Text) (run_id : Option Text) → ¬ (reschedules at ≡ revokes bot_id run_id)
reschedules-not-revokes at bot_id run_id h = ground arith

inactive : (a b c d : Bool) → (a && b) ≡ false → (a && (b && c && d)) ≡ false
inactive a b c d h = ground arith

under_other : (b : Bool) → b ≡ false → (b && true) ≡ false
under_other b h = rw h refl

kept :
    (lease : Text) (at : Option ℕ) (row : Computer)
    → NotUnder lease row
    → NotUnder lease (record row { control_lease_expires_at = at })
kept lease at row (not_under h) = not_under h

in_state :
    (lease : Text) (r b : Bool) (row : Computer)
    → NotUnder lease row
    → NotUnder lease (record row { is_running = r; is_booting = b })
in_state lease r b row (not_under h) = not_under h

activated_row-NotUnder :
    (lease : Text) (active : Bool) (holder : Holder) (row : Computer)
    → active ≡ false
    → NotUnder lease (activated_row active holder row)
unfolding same_id
activated_row-NotUnder lease true holder row e = absurd (ground arith)
activated_row-NotUnder lease false holder row e = not_under refl

step-NotUnder :
    (lease : Text) (m : ControlMove) (row : Computer)
    → Fresh lease m
    → NotUnder lease row
    → NotUnder lease (control_step m row)
unfolding control_step grant_takeover extend_active_computer_control extended_row begin_expire
    claim_row finalize_computer_control_release same_id grant_teaching activate_computer
step-NotUnder lease (grants id at b r) row f h =
    spared lease (grant_takeover id at b r row)
      (updated-Spares lease _ _ row h (not_under (under_other (text_eq id lease) f)))
step-NotUnder lease (extends ttl c b u n) row f h =
    spared lease (extend_active_computer_control ttl c b u n row) (
      if-Spares lease _ (not_extended, row) _ (spares h)
        (extend_result-Spares lease _ _ _ (updated-Spares lease _ _ row h (kept lease _ row h))))
step-NotUnder lease (begins_expiry c id n) row f h = spared lease (begin_expire c id n row) (
    if-Spares lease (not (same_id c.control_lease_id (some id))) (stale, row) _ (spares h)
      (if-Spares lease (not (truthy c.control_bot_id)) (stale, row) _ (spares h)
        (if-Spares lease (is_future c.control_lease_expires_at n)
          (reschedules (expiry_of c.control_lease_expires_at), row) _ (spares h)
          (claimed-Spares lease (or_empty c.control_bot_id) c.control_run_id (claim_row id row) (
            updated-Spares lease (same_id row.control_lease_id (some id))
              (record row { control_holder = by_none }) row h
              (not_under (and_false (same_id row.control_lease_id (some lease)))))))))
step-NotUnder lease (finalizes b r id k w) row f h =
    spared lease (finalize_computer_control_release b r id k w row)
      (released-Spares lease k r _ _ (updated-Spares lease _ _ row h (not_under refl)))
step-NotUnder lease (teaches id at b) row f h =
    spared lease (grant_teaching id at b row)
      (updated-Spares lease _ _ row h (not_under (under_other (text_eq id lease) f)))
step-NotUnder lease (changes_state r b) row f h = in_state lease r b row h
step-NotUnder lease (activates c k b n) row f h =
    spared lease (activate_computer c k b n row)
      (updated-Spares lease _ _ row h (activated_row-NotUnder lease _ k row f))
step-NotUnder lease clears row f h = not_under refl

history-NotUnder :
    (lease : Text) (ms : List ControlMove) (row : Computer)
    → All (Fresh lease) ms
    → NotUnder lease row
    → NotUnder lease (control_history ms row)
unfolding control_history
history-NotUnder lease [] row f h = h
history-NotUnder lease (m ∷ ms) row (f, fs) h =
    history-NotUnder lease ms (control_step m row) fs (step-NotUnder lease m row f h)

-- If the expiry goes on to revoke, the row is not under the lease.
data Revokes (lease bot_id : Text) (run_id : Option Text) (p : Expiry × Computer) : Type 0 where
  revoking : (p.0 ≡ revokes bot_id run_id → NotUnder lease p.1) → Revokes lease bot_id run_id p

revoked_of :
    (lease bot_id : Text) (run_id : Option Text) (p : Expiry × Computer)
    → Revokes lease bot_id run_id p
    → p.0 ≡ revokes bot_id run_id
    → NotUnder lease p.1
revoked_of lease bot_id run_id p (revoking r) h = r h

if-Revokes :
    (lease bot_id : Text) (run_id : Option Text) (b : Bool) (e : Expiry) (row : Computer)
    (p : Expiry × Computer)
    → ¬ (e ≡ revokes bot_id run_id)
    → Revokes lease bot_id run_id p
    → Revokes lease bot_id run_id (if b then (e, row) else p)
if-Revokes lease bot_id run_id true e row p n r = revoking (λ h. absurd (n h))
if-Revokes lease bot_id run_id false e row p n r = r

claimed-Revokes :
    (lease bot_id b : Text) (run_id r : Option Text) (row : Computer) (found : Bool)
    → Revokes lease bot_id run_id
        (claimed b r (updated found (record row { control_holder = by_none }) row))
claimed-Revokes lease bot_id b run_id r row true =
    revoking (λ h. not_under (and_false (same_id row.control_lease_id (some lease))))
claimed-Revokes lease bot_id b run_id r row false =
    revoking (λ h. absurd (stale-not-revokes bot_id run_id h))

begin_expire-Revokes :
    (computer row : Computer) (lease : Text) (now : ℕ) (bot_id : Text) (run_id : Option Text)
    → Revokes lease bot_id run_id (begin_expire computer lease now row)
unfolding begin_expire claim_row same_id
begin_expire-Revokes computer row lease now bot_id run_id =
    if-Revokes lease bot_id run_id (not (same_id computer.control_lease_id (some lease))) stale row
      _ (stale-not-revokes bot_id run_id)
      (if-Revokes lease bot_id run_id (not (truthy computer.control_bot_id)) stale row _
        (stale-not-revokes bot_id run_id)
        (if-Revokes lease bot_id run_id (is_future computer.control_lease_expires_at now)
          (reschedules (expiry_of computer.control_lease_expires_at)) row _
          (reschedules-not-revokes (expiry_of computer.control_lease_expires_at) bot_id run_id)
          (claimed-Revokes lease bot_id (or_empty computer.control_bot_id) run_id
            computer.control_run_id row (same_id row.control_lease_id (some lease)))))

extend_result-fails :
    (lease id : Text) (at at' : ℕ) (found : Bool) (after row : Computer)
    → (found ≡ true → text_eq id lease ≡ false)
    → (extend_result id at (updated found after row)).0 ≢ extended lease at'
extend_result-fails lease id at at' true after row h e =
    ground (arith, h refl, text_eq_iff id lease)
extend_result-fails lease id at at' false after row h e = ground arith

found_other :
    (user bot : Bool) (lease_id : Option Text) (id lease : Text)
    → (same_id lease_id (some lease) && user) ≡ false
    → (user && bot && same_id lease_id (some id)) ≡ true
    → text_eq id lease ≡ false
unfolding same_id
found_other user bot none id lease h e = ground arith
found_other user bot (some l) id lease h e =
    ground (arith, text_eq_iff id lease, text_eq_iff l id, text_eq_iff l lease)

if-fails :
    (b : Bool) (row : Computer) (p : Extended × Computer) (lease : Text) (at : ℕ)
    → p.0 ≢ extended lease at
    → (if b then (not_extended, row) else p).0 ≢ extended lease at
if-fails true row p lease at h e = ground arith
if-fails false row p lease at h e = h e

NotUnder-not_extended :
    (lease : Text) (ttl : Option ℕ) (copy : Computer) (bot_id : Text) (until now at : ℕ)
    (row : Computer)
    → NotUnder lease row
    → (extend_active_computer_control ttl copy bot_id until now row).0 ≢ extended lease at
unfolding extend_active_computer_control extended_row
NotUnder-not_extended lease ttl copy bot_id until now at row (not_under h) =
    if-fails _ row _ lease at (
      extend_result-fails lease (or_empty copy.control_lease_id) _ at _ _ row (
        found_other (is_user row.control_holder) _ row.control_lease_id
          (or_empty copy.control_lease_id) lease h))

-- Once the expiry of a lease has claimed it and goes on to revoke it, the computer is never again under
-- an active control with that lease, and nobody extends it: not in any order of grants of other leases,
-- also for teaching, extensions and expiries by callers with copies of any age, releases, boots, and
-- writes that clear the control, nor at any time; provided no boot ends that found the computer under an
-- active control when it began.
pub revoked_stays_revoked :
    (computer row : Computer) (lease : Text) (now : ℕ) (bot_id : Text) (run_id : Option Text)
    (ms : List ControlMove) (later : ℕ) (ttl : Option ℕ) (copy : Computer) (bot : Text)
    (until at : ℕ)
    → (begin_expire computer lease now row).0 ≡ revokes bot_id run_id
    → All (Fresh lease) ms
    → let after = control_history ms (begin_expire computer lease now row).1 in
      ((same_id after.control_lease_id (some lease) && has_active_computer_control after later)
        ≡ false)
      × ((extend_active_computer_control ttl copy bot until later after).0 ≢ extended lease at)
unfolding has_active_computer_control
revoked_stays_revoked computer row lease now bot_id run_id ms later ttl copy bot until at h fresh =
    let after = control_history ms (begin_expire computer lease now row).1 in
    let free = history-NotUnder lease ms (begin_expire computer lease now row).1 fresh (
      revoked_of lease bot_id run_id (begin_expire computer lease now row)
        (begin_expire-Revokes computer row lease now bot_id run_id) h) in
    (
      inactive (same_id after.control_lease_id (some lease)) (is_user after.control_holder) _ _
          (is_under_of lease after free),
      NotUnder-not_extended lease ttl copy bot until later at after free,
    )
