-- ===== src/History.antt =====
-- packages/core/src/message-pages.ts: the pages of a thread's messages that a client has loaded, and
-- how a refresh and an older page are merged with them. A message is any type with an id and perhaps
-- a sequence number.
pub mod Merge
pub mod Pages
mod Tests
use rakazo.Common.{
  ℕ, Bool, true, false, not, ◌&&◌, ◌||◌, ltb, List, [], ◌∷◌, ◌++◌, Option, none, some, Text, lit,
  text_eq, has, starts_with, select, if◌then◌else◌,
}

-- `MessageIdentity`
pub record MessageIdentity (M : Type 0) : Type 0 where
  pub id : M → Text
  pub seq : M → Option ℕ

-- `ThreadHistory<TMessage>`
pub record ThreadHistory (M : Type 0) : Type 0 where
  pub thread_id : Text
  pub messages : List M
  pub older_cursor : Option ℕ

module _ {M : Type 0} (m : MessageIdentity M) where
  -- `filter` with the set of ids seen so far
  pub fresh_ids : List Text → List M → List M
  fresh_ids seen [] = []
  fresh_ids seen (x ∷ xs) =
      let old = fresh_ids seen xs in
      let new = fresh_ids (m.id x ∷ seen) xs in if has seen (m.id x) then old else x ∷ new

  pub merge_messages_by_id : List M → List M → List M
  unfolding fresh_ids
  merge_messages_by_id first second = fresh_ids [] (first ++ second)

  pub is_durable_message : M → Bool
  is_durable_message x =
      not (starts_with (m.id x) (lit "progress:")) && not (starts_with (m.id x) (lit "subagent:"))

  -- `Math.min(first ?? message.seq, message.seq)`
  abbrev min_seq : Option ℕ → ℕ → ℕ
  min_seq none n = n
  min_seq (some first) n = if ltb n first then n else first

  -- One step of the `reduce`
  abbrev pub lower : Bool → Option ℕ → Option ℕ → Option ℕ
  lower false sequence first = first
  lower true none first = first
  lower true (some n) first = some (min_seq first n)

  pub first_seq_from : Option ℕ → List M → Option ℕ
  unfolding is_durable_message
  first_seq_from first [] = first
  first_seq_from first (x ∷ xs) = first_seq_from (lower (is_durable_message x) (m.seq x) first) xs

  -- `typeof message.seq === "number" && message.seq < firstRecentSeq`
  abbrev pub is_before : ℕ → Option ℕ → Bool
  is_before bound none = false
  is_before bound (some n) = ltb n bound

  pub retained : Option ℕ → List M → List M
  unfolding is_durable_message
  retained none previous = []
  retained (some bound) previous =
      select (λ x. is_durable_message x && is_before bound (m.seq x)) previous

  pub merge_message_pages : List M → List M → List M
  unfolding retained merge_messages_by_id first_seq_from
  merge_message_pages previous recent =
      merge_messages_by_id (retained (first_seq_from none recent) previous) recent

  pub merge_thread_history : Option (ThreadHistory M) → ThreadHistory M → Bool → ThreadHistory M
  unfolding merge_message_pages
  merge_thread_history none recent preserve = recent
  merge_thread_history (some previous) recent preserve =
      if not (text_eq previous.thread_id recent.thread_id) || not preserve
      then recent
      else record recent {
        messages = merge_message_pages previous.messages recent.messages;
        older_cursor = previous.older_cursor;
      }

  abbrev is_null : Option ℕ → Bool
  is_null none = true
  is_null (some n) = false

  pub prepend_thread_history_page :
      Option (ThreadHistory M) → ThreadHistory M → Option (ThreadHistory M)
  unfolding merge_messages_by_id
  prepend_thread_history_page none page = none
  prepend_thread_history_page (some previous) page =
      if not (text_eq previous.thread_id page.thread_id) || is_null previous.older_cursor
      then some previous
      else some (record previous {
        messages = merge_messages_by_id page.messages previous.messages;
        older_cursor = page.older_cursor;
      })
