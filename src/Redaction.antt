-- ===== src/Redaction.antt =====
-- The redaction of secrets in packages/core/src/events.ts: `redactSecrets`, `containsSecret` on a
-- serialised text, and `createStreamingRedactor`, whose closure is the record `Redactor`.
pub mod Values
pub mod Leftmost
pub mod Stream
pub mod Whole
mod Tests
use rakazo.Common.{
  ℕ, zero, suc, ◌+◌, ◌-◌, Bool, true, false, ◌||◌, ◌&&◌, not, List, [], ◌∷◌, ◌++◌, Option, none,
  some, Text, lit, is_empty, starts_with, has, unique, join, ltb, leb, if◌then◌else◌, length, take,
  drop, select, find_first, any,
}

abbrev pub redacted : Text
redacted = lit "[redacted]"

-- `text.split(sep)` for a `sep` that is not empty: `skip` code units of a match are left to pass.
split_from : Text → ℕ → Text → Text → List Text
split_from sep skip cur [] = cur ∷ []
split_from sep (suc skip) cur (c ∷ s) = split_from sep skip cur s
split_from sep zero cur (c ∷ s) =
    let hit = split_from sep (length sep - 1) [] s in
    let miss = split_from sep zero (cur ++ c ∷ []) s in
    if starts_with (c ∷ s) sep then cur ∷ hit else miss

pub redact_secret : Text → Text → Text
unfolding split_from
redact_secret acc secret =
    if is_empty secret then acc else join redacted (split_from secret 0 [] acc)

redact_secrets : Text → List Text → Text
unfolding redact_secret
redact_secrets value [] = value
redact_secrets value (secret ∷ secrets) = redact_secrets (redact_secret value secret) secrets

-- `text.includes(part)`
occurs_in : Text → Text → Bool
unfolding starts_with
occurs_in part [] = is_empty part
occurs_in part (c ∷ s) = starts_with (c ∷ s) part || occurs_in part s

-- `text` is `JSON.stringify(value)`.
contains_secret : Text → List Text → Bool
unfolding occurs_in
contains_secret text secrets = any (λ s. ltb 0 (length s) && occurs_in s text) secrets

-- `sort((a, b) => b.length - a.length)`: longest first, and stable.
insert_longest : Text → List Text → List Text
insert_longest v [] = v ∷ []
insert_longest v (w ∷ ws) =
    if ltb (length v) (length w) then w ∷ insert_longest v ws else v ∷ w ∷ ws

sort_longest : List Text → List Text
unfolding insert_longest
sort_longest [] = []
sort_longest (v ∷ vs) = insert_longest v (sort_longest vs)

pub secret_values : List Text → List Text
unfolding sort_longest
secret_values secrets = sort_longest (unique (select (λ s. not (is_empty s)) secrets))

abbrev max_length : List Text → ℕ
max_length [] = 0
max_length (v ∷ vs) = length v

-- One round of the `while` loop on what is left of the buffer, by the secret found at its start:
-- what it prints and how far it moves.
abbrev printed : Text → Option Text → Text × ℕ
printed rest (some secret) = (redacted, length secret)
printed rest none = (take 1 rest, 1)

abbrev round : List Text → Text → Text × ℕ
round values rest = printed rest (find_first (starts_with rest) values)

-- The loop `while (offset < safeStartLimit)`. `rest` is the buffer from `offset` on and `limit` is
-- `safeStartLimit - offset`; `none` means that the fuel ran out.
drain_loop : List Text → ℕ → Text → ℕ → Text → Option (Text × Text)
drain_loop values zero rest limit output = none
drain_loop values (suc fuel) rest limit output =
    let (piece, moved) = round values rest in
    let more = drain_loop values fuel (drop moved rest) (limit - moved) (output ++ piece) in
    if ltb 0 limit then more else some (output, rest)

abbrev safe_start_limit : List Text → Text → Bool → ℕ
safe_start_limit values buffer true = length buffer
safe_start_limit values buffer false = length buffer + 1 - max_length values

-- Each round moves by one code unit at least, so the length of the buffer is fuel enough.
drain_with : List Text → Text → Bool → Text × Text
unfolding drain_loop
drain_with values buffer final =
    elim (drain_loop values (suc (length buffer)) buffer (safe_start_limit values buffer final)
      []) [ none ↦ ([], buffer) | some (output, rest) ↦ (output, rest) ]

drain : List Text → Text → Bool → Text × Text
unfolding drain_with
drain [] buffer final = (buffer, [])
drain (v ∷ vs) buffer final = drain_with (v ∷ vs) buffer final

pub record Redactor : Type 0 where
  pub values : List Text
  pub buffer : Text

pub create_streaming_redactor : List Text → Redactor
unfolding secret_values
create_streaming_redactor secrets = record { values = secret_values secrets; buffer = [] }

push : Redactor → Text → Redactor × Text
unfolding drain
push r chunk =
    let (output, rest) = drain r.values (r.buffer ++ chunk) false in
    (record r { buffer = rest }, output)

finish : Redactor → Redactor × Text
unfolding drain
finish r = let (output, rest) = drain r.values r.buffer true in (record r { buffer = rest }, output)

-- What a caller prints that pushes the chunks in turn and then finishes.
pub stream : Redactor → List Text → Text
unfolding push finish
stream r [] = (finish r).1
stream r (chunk ∷ chunks) = let (r', output) = push r chunk in output ++ stream r' chunks
