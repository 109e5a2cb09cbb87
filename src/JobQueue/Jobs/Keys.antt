-- ===== src/JobQueue/Jobs/Keys.antt =====
-- Which jobs replace one another.
use rakazo.Common.{
  ℕ, ◌==◌, [], ◌∷◌, ◌++◌, some, Text, lit, is_empty, starts_with, drop, false, if◌then◌else◌, ◌≡◌,
  refl, sym, ap, ◌∙◌, arith, All,
}
use rakazo.JobQueue.Jobs.{
  Payload, run_continue, routine_wakeup, computer_sleep, computer_control_expire,
  skill_teaching_expire, history_compact, BackgroundJob, run_job_key, routine_job_key,
  computer_sleep_job_key, computer_control_expire_job_key, skill_teaching_expire_job_key,
  history_compact_job_key, run_continue_job, routine_wakeup_job, computer_sleep_job,
  computer_control_expire_job, skill_teaching_expire_job, history_compact_job,
}

abbrev NoColon : Text → Type 0
NoColon = All (λ c. (c == b':') ≡ false)

split_at_colon :
    (a b s t : Text)
    → NoColon a
    → NoColon b
    → (a ++ (b':' ∷ s)) ≡ (b ++ (b':' ∷ t))
    → (a ≡ b) × (s ≡ t)
split_at_colon [] [] s t p q e = ground arith
split_at_colon [] (d ∷ b) s t p q e = absurd (ground (arith, q.0))
split_at_colon (c ∷ a) [] s t p q e = absurd (ground (arith, p.0))
split_at_colon (c ∷ a) (d ∷ b) s t p q e = ground (arith, split_at_colon a b s t p.1 q.1)

-- A job by what it is about, and its key as background-jobs.ts makes it.
abbrev key_of : Payload → Text
key_of (run_continue run_id) = run_job_key run_id
key_of (routine_wakeup routine_id at) = routine_job_key routine_id
key_of (computer_sleep computer_id) = computer_sleep_job_key computer_id
key_of (computer_control_expire computer_id lease_id) =
    computer_control_expire_job_key computer_id (some lease_id)
key_of (skill_teaching_expire skill_id) = skill_teaching_expire_job_key skill_id
key_of (history_compact thread_id) = history_compact_job_key thread_id

-- Identifiers hold no colon where one follows them in a key, and a lease is not empty.
abbrev pub IsPlain : Payload → Type 0
IsPlain (computer_control_expire computer_id lease_id) =
    NoColon computer_id × (is_empty lease_id ≡ false)
IsPlain _ = Unit {0}

-- What a job is about, without its time.
abbrev pub target : Payload → Payload
target (routine_wakeup routine_id at) = routine_wakeup routine_id []
target p = p

control_key :
    (computer_id lease_id : Text)
    → is_empty lease_id ≡ false
    → computer_control_expire_job_key computer_id (some lease_id)
      ≡ lit "computer.control-expire:" ++ (computer_id ++ (b':' ∷ lease_id))
unfolding computer_control_expire_job_key
control_key computer_id [] h = cc
control_key computer_id (c ∷ lease_id) h = refl

same_control :
    (c d l m : Text)
    → NoColon c
    → NoColon d
    → is_empty l ≡ false
    → is_empty m ≡ false
    → computer_control_expire_job_key c (some l) ≡ computer_control_expire_job_key d (some m)
    → computer_control_expire c l ≡ computer_control_expire d m
same_control c d l m p q hl hm e =
    let both = sym (control_key c l hl) ∙ e ∙ control_key d m hm in
    let (same_c, same_l) = split_at_colon c d l m p q (ap (drop 24) both) in cc

abbrev kind_code : Payload → ℕ
kind_code (run_continue a) = 0
kind_code (routine_wakeup a t) = 1
kind_code (computer_sleep a) = 2
kind_code (computer_control_expire a l) = 3
kind_code (skill_teaching_expire a) = 4
kind_code (history_compact a) = 5

-- The kind of job that a key begins with.
abbrev mark : Text → ℕ
mark s =
    if starts_with s (lit "run:")
    then 0
    else if starts_with s (lit "routine:")
    then 1
    else if starts_with s (lit "computer.sleep:")
    then 2
    else if starts_with s (lit "computer.control-expire:")
    then 3
    else if starts_with s (lit "skill.teaching-expire:")
    then 4
    else 5

mark-key_of : (p : Payload) → IsPlain p → mark (key_of p) ≡ kind_code p
unfolding run_job_key routine_job_key computer_sleep_job_key skill_teaching_expire_job_key
    history_compact_job_key starts_with
mark-key_of (run_continue a) h = refl
mark-key_of (routine_wakeup a t) h = refl
mark-key_of (computer_sleep a) h = refl
mark-key_of (computer_control_expire a l) h = rw (control_key a l h.1) refl
mark-key_of (skill_teaching_expire a) h = refl
mark-key_of (history_compact a) h = refl

same_kind :
    (p q : Payload)
    → IsPlain p
    → IsPlain q
    → kind_code p ≡ kind_code q
    → key_of p ≡ key_of q
    → target p ≡ target q
unfolding run_job_key routine_job_key computer_sleep_job_key skill_teaching_expire_job_key
    history_compact_job_key
same_kind (run_continue a) (run_continue b) h k c e = ap run_continue (ap (drop 4) e)
same_kind (routine_wakeup a s) (routine_wakeup b t) h k c e =
    ap (λ r. routine_wakeup r []) (ap (drop 8) e)
same_kind (computer_sleep a) (computer_sleep b) h k c e = ap computer_sleep (ap (drop 15) e)
same_kind (computer_control_expire a l) (computer_control_expire b m) h k c e =
    same_control a b l m h.0 k.0 h.1 k.1 e
same_kind (skill_teaching_expire a) (skill_teaching_expire b) h k c e =
    ap skill_teaching_expire (ap (drop 22) e)
same_kind (history_compact a) (history_compact b) h k c e = ap history_compact (ap (drop 16) e)
same_kind p q h k c e = absurd (omega arith)

-- Two jobs share a key, so that one replaces the other, only if they are of one kind and about the
-- same run, routine, computer and lease, skill or thread, whatever their times; the computers of
-- lease expiries have no colon in their identifiers, and the leases are not empty.
pub same_key_same_target :
    (p q : Payload) → IsPlain p → IsPlain q → key_of p ≡ key_of q → target p ≡ target q
same_key_same_target p q h k e =
    same_kind p q h k (sym (mark-key_of p h) ∙ ap mark e ∙ mark-key_of q k) e

-- A job that background-jobs.ts makes carries the key of its payload.
abbrev IsKeyed : BackgroundJob → Type 0
IsKeyed job = job.replace_key ≡ some (key_of job.payload)

made-IsKeyed :
    (show_date : ℕ → Text) (id lease : Text) (at : ℕ)
    → IsKeyed (run_continue_job id)
      × IsKeyed (routine_wakeup_job show_date id at)
      × IsKeyed (computer_sleep_job id at)
      × IsKeyed (computer_control_expire_job id lease at)
      × IsKeyed (skill_teaching_expire_job id at)
      × IsKeyed (history_compact_job id)
unfolding run_continue_job routine_wakeup_job computer_sleep_job computer_control_expire_job
    skill_teaching_expire_job history_compact_job
made-IsKeyed show_date id lease at = (refl, refl, refl, refl, refl, refl)
