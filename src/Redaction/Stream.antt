-- ===== src/Redaction/Stream.antt =====
-- The streaming redactor prints the redaction of the whole text, however the text is cut.
use rakazo.Common.{
  ℕ, zero, suc, ◌+◌, ◌-◌, ◌≤◌, ◌<◌, Bool, true, false, List, [], ◌∷◌, ◌++◌, append_assoc,
  append-nil, none, some, Text, is_empty, starts_with, has, ◌≡◌, refl, sym, ap, subst, ◌∙◌, ◌⊎◌,
  inl, inr, arith, length, length-drop, take, drop, find_first, ltb, ltb→lt, text_eq_refl,
  Bool-cases, Option-cases,
}
use mathlib.Core.List.{flatten}
use rakazo.Redaction.{
  redacted, secret_values, max_length, round, drain_loop, drain_with, drain, safe_start_limit,
  create_streaming_redactor, stream,
}
use rakazo.Redaction.Values.{
  has-secret_values, secret_values-IsSorted, length-le_of_has, find_first-longest, find_first-none,
}
use rakazo.Redaction.Leftmost.{
  IsSecret, Redacts, done, keep, hide, starts_with-append, length_of_starts_with, Redacts-unique,
}

drop-append : (n : ℕ) (s more : Text) → n ≤ length s → drop n (s ++ more) ≡ drop n s ++ more
drop-append zero s more h = refl
drop-append (suc n) [] more h = absurd (omega arith)
drop-append (suc n) (c ∷ s) more h = drop-append n s more (omega arith)

nonempty_length : (v : Text) → is_empty v ≡ false → 0 < length v
nonempty_length [] h = absurd (ground arith)
nonempty_length (c ∷ v) h = omega arith

module _ (secrets : List Text) where
  abbrev vals : List Text
  vals = secret_values secrets

  IsSecret-of_has : (w : Text) → has vals w ≡ true → IsSecret secrets w
  IsSecret-of_has w h = ground (arith, has-secret_values secrets w)

  has_of_IsSecret : (w : Text) → IsSecret secrets w → has vals w ≡ true
  has_of_IsSecret w h = ground (arith, has-secret_values secrets w)

  -- The secrets that start at the rest of the buffer are those that start at the rest of the text.
  abbrev Fits : Text → Text → Type 0
  Fits rest more =
      (w : Text) → has vals w ≡ true → starts_with (rest ++ more) w ≡ starts_with rest w

  record IsMove (rest more : Text) (p : Text × ℕ) : Type 0 where
    moves : 0 < p.1
    within : p.1 ≤ length rest
    sound :
        (o : Text)
        → Redacts secrets (drop p.1 rest ++ more) o
        → Redacts secrets (rest ++ more) (p.0 ++ o)

  hidden :
      (rest more : Text) (v : Text)
      → Fits rest more
      → find_first (starts_with rest) vals ≡ some v
      → IsMove rest more (redacted, length v)
  hidden rest more v fits e =
      let (m, s, longest) =
        find_first-longest (max_length vals) rest v vals (secret_values-IsSorted secrets) e in
      let short = length_of_starts_with rest v s in
      record {
        moves = nonempty_length v (IsSecret-of_has v m).1;
        within = short;
        sound = λ o r.
            hide v (IsSecret-of_has v m) (fits v m ∙ s)
              (λ w i p. longest w (has_of_IsSecret w i) (sym (fits w (has_of_IsSecret w i)) ∙ p))
              refl
              (subst (λ t. Redacts secrets t o) (sym (drop-append (length v) rest more short)) r);
      }

  kept :
      (rest more : Text)
      → 0 < length rest
      → Fits rest more
      → find_first (starts_with rest) vals ≡ none
      → IsMove rest more (take 1 rest, 1)
  kept [] more l fits e = absurd (omega arith)
  kept (c ∷ s) more l fits e = record {
    moves = omega arith;
    within = omega arith;
    sound = λ o r.
        keep
          (λ w i.
            fits w (has_of_IsSecret w i) ∙ find_first-none (c ∷ s) w vals e (has_of_IsSecret w i))
          r;
  }

  round-IsMove :
      (rest more : Text) → 0 < length rest → Fits rest more → IsMove rest more (round vals rest)
  round-IsMove rest more l fits = elim (Option-cases (find_first (starts_with rest) vals)) [
    | inl e ↦ rw e (kept rest more l fits e)
    | inr (v, e) ↦ rw e (hidden rest more v fits e)
  ]

  abbrev Safe : ℕ → Text → Text → Type 0
  Safe limit rest more =
      (0 < limit → limit + max_length vals ≤ length rest + 1)
      ⊎ ((more ≡ []) × (limit ≡ length rest))

  Safe-Fits : (limit : ℕ) (rest more : Text) → 0 < limit → Safe limit rest more → Fits rest more
  Safe-Fits limit rest more l (inl h) w m =
      let short = length-le_of_has (max_length vals) w vals (secret_values-IsSorted secrets) m in
      let room = h l in starts_with-append rest more w (omega arith)
  Safe-Fits limit rest more l (inr (e, _)) w m =
      ap (λ t. starts_with t w) (ap (◌++◌ rest) e ∙ append-nil rest)

  max_length_pos : (v : Text) (vs : List Text) → vals ≡ v ∷ vs → 0 < max_length vals
  unfolding has
  max_length_pos v vs e =
      let m : has vals v ≡ true = rw e (ground (arith, text_eq_refl v)) in
      rw e (nonempty_length v (IsSecret-of_has v m).1)

  record Drained (fuel : ℕ) (rest : Text) (limit : ℕ) (out more : Text) : Type 0 where
    emitted : Text
    left : Text
    ran : drain_loop vals fuel rest limit out ≡ some (out ++ emitted, left)
    sound :
        (o : Text)
        → Redacts secrets (left ++ more) o
        → Redacts secrets (rest ++ more) (emitted ++ o)
    whole : limit ≡ length rest → left ≡ []

  rest_pos :
      (limit : ℕ) (rest more : Text)
      → 0 < max_length vals
      → 0 < limit
      → Safe limit rest more
      → 0 < length rest
  rest_pos limit rest more pos l (inl h) = let room = h l in omega arith
  rest_pos limit rest more pos l (inr (_, e)) = omega arith

  Safe-drop :
      (limit n : ℕ) (rest more : Text)
      → 0 < limit
      → Safe limit rest more
      → Safe (limit - n) (drop n rest) more
  Safe-drop limit n rest more l (inl h) =
      let room = h l in inl (λ l'. omega (arith, length-drop n rest))
  Safe-drop limit n rest more l (inr (e, same)) = inr (e, omega (arith, length-drop n rest))

  Drained-more :
      (f : ℕ) (rest : Text) (limit : ℕ) (out more : Text)
      → ltb 0 limit ≡ true
      → IsMove rest more (round vals rest)
      → Drained f
          (drop (round vals rest).1 rest)
          (limit - (round vals rest).1)
          (out ++ (round vals rest).0)
          more
      → Drained (suc f) rest limit out more
  unfolding drain_loop
  Drained-more f rest limit out more go move d = record {
    emitted = (round vals rest).0 ++ d.emitted;
    left = d.left;
    ran = rw (go, ← append_assoc) d.ran;
    sound = λ o r. rw append_assoc (move.sound (d.emitted ++ o) (d.sound o r));
    whole = λ e. d.whole (omega (arith, length-drop (round vals rest).1 rest));
  }

  length_zero : (t : Text) → length t ≡ 0 → t ≡ []
  length_zero [] h = refl
  length_zero (c ∷ t) h = absurd (omega arith)

  loop-Drained :
      (fuel : ℕ) (rest : Text) (limit : ℕ) (out more : Text)
      → 0 < max_length vals
      → length rest < fuel
      → Safe limit rest more
      → Drained fuel rest limit out more
  unfolding drain_loop
  loop-Drained zero rest limit out more pos h safe = absurd (omega arith)
  loop-Drained (suc f) rest limit out more pos h safe = elim (Bool-cases (ltb 0 limit)) [
    | inr stop ↦ record {
      emitted = [];
      left = rest;
      ran = rw (stop, append-nil) refl;
      sound = λ o r. r;
      whole = λ e. length_zero rest (ground arith);
    }
    | inl go ↦
        let l = ltb→lt 0 limit go in
        let some_left = rest_pos limit rest more pos l safe in
        let move = round-IsMove rest more some_left (Safe-Fits limit rest more l safe) in
        let n = (round vals rest).1 in
        Drained-more f rest limit out more go move (
          loop-Drained f (drop n rest) (limit - n) (out ++ (round vals rest).0) more pos
            (omega (arith, length-drop n rest, move.moves, move.within))
            (Safe-drop limit n rest more l safe))
  ]

  -- What one call of `drain` prints, and what it leaves for later.
  record Drains (buffer : Text) (final : Bool) (more : Text) : Type 0 where
    sound :
        (o : Text)
        → Redacts secrets ((drain vals buffer final).1 ++ more) o
        → Redacts secrets (buffer ++ more) ((drain vals buffer final).0 ++ o)
    whole : final ≡ true → (drain vals buffer final).1 ≡ []

  drain_with-Drains :
      (buffer : Text) (final : Bool) (more : Text)
      → 0 < max_length vals
      → Safe (safe_start_limit vals buffer final) buffer more
      → (d : Drained (suc (length buffer)) buffer (safe_start_limit vals buffer final) [] more)
        × (drain_with vals buffer final ≡ (d.emitted, d.left))
  unfolding drain_with
  drain_with-Drains buffer final more pos safe =
      let d = loop-Drained (suc (length buffer)) buffer _ [] more pos (omega arith) safe in
      (d, rw (d.ran, drain_with) refl)

  Safe-at :
      (buffer : Text) (final : Bool) (more : Text)
      → (final ≡ true → more ≡ [])
      → Safe (safe_start_limit vals buffer final) buffer more
  Safe-at buffer true more h = inr (h refl, refl)
  Safe-at buffer false more h = inl (λ l. omega arith)

  nothing_to_hide :
      vals ≡ [] → (s more o : Text) → Redacts secrets more o → Redacts secrets (s ++ more) (s ++ o)
  unfolding has
  nothing_to_hide e [] more o r = r
  nothing_to_hide e (c ∷ s) more o r =
      keep (λ w i. absurd (no_secret w (subst (λ v. has v w ≡ true) e (has_of_IsSecret w i))))
        (nothing_to_hide e s more o r)
    where
      no_secret : (w : Text) → has [] w ≡ true → ⊥
      no_secret w h = cc

  drain-eq :
      (vs : List Text) (b : Text) (f : Bool) → 0 < max_length vs → drain vs b f ≡ drain_with vs b f
  unfolding drain
  drain-eq [] b f h = absurd (omega arith)
  drain-eq (v ∷ vs) b f h = refl

  drain-Drains :
      (vs : List Text) (buffer : Text) (final : Bool) (more : Text)
      → vals ≡ vs
      → (final ≡ true → more ≡ [])
      → Drains buffer final more
  unfolding drain
  drain-Drains [] buffer final more e h = record {
    sound = λ o r. rw (e, drain) (nothing_to_hide e buffer more o (rw (e, drain) at r));
    whole = λ _. rw (e, drain) refl;
  }
  drain-Drains (v ∷ vs) buffer final more e h =
      let pos = max_length_pos v vs e in
      let (d, same) = drain_with-Drains buffer final more pos (Safe-at buffer final more h) in
      let eq = drain-eq vals buffer final pos ∙ same in
      record {
        sound = λ o r. rw eq (d.sound o (rw eq at r));
        whole = λ f. rw eq (d.whole (ap (λ b. safe_start_limit vals buffer b) f));
      }

  stream-Redacts :
      (buffer : Text) (chunks : List Text)
      → Redacts secrets
          (buffer ++ flatten chunks)
          (stream (record { values = vals; buffer = buffer }) chunks)
  unfolding stream flatten
  stream-Redacts buffer [] =
      let d = drain-Drains vals buffer true [] refl (λ _. refl) in
      rw (← append-nil (drain vals buffer true).0) (d.sound [] (rw (d.whole refl, append-nil) done))
  stream-Redacts buffer (chunk ∷ chunks) =
      let d = drain-Drains vals (buffer ++ chunk) false (flatten chunks) refl (λ e. cc) in
      rw (← append_assoc) (d.sound _ (stream-Redacts (drain vals (buffer ++ chunk) false).1 chunks))

-- However a text is cut into chunks, what the streaming redactor prints is the text with its secrets
-- replaced: at each place the longest secret that starts there, from left to right.
pub stream_redacts :
    (secrets chunks : List Text)
    → Redacts secrets (flatten chunks) (stream (create_streaming_redactor secrets) chunks)
unfolding create_streaming_redactor
stream_redacts secrets chunks = stream-Redacts secrets [] chunks

-- Two ways of cutting one text into chunks print the same.
pub stream_independent_of_chunks :
    (secrets chunks chunks' : List Text)
    → flatten chunks ≡ flatten chunks'
    → stream (create_streaming_redactor secrets) chunks
      ≡ stream (create_streaming_redactor secrets) chunks'
stream_independent_of_chunks secrets chunks chunks' e =
    Redacts-unique (stream_redacts secrets chunks) (
      subst (λ t. Redacts secrets t (stream (create_streaming_redactor secrets) chunks')) (sym e)
        (stream_redacts secrets chunks'))
