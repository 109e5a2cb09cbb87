-- ===== src/Live/Blocks/Content.antt =====
-- The text of a live message: nothing that streams in is lost, doubled or moved.
use rakazo.Common.{
  ◌-◌, true, ◌&&◌, not, List, [], ◌∷◌, ◌++◌, append_assoc, append-nil, Option, some, Text, is_empty,
  ◌≡◌, refl, sym, ap, subst, ◌∙◌, inl, inr, arith, length, length-append, drop, drop-length_append,
  last?, but_last, but_last-last, Bool-cases,
}
use rakazo.Live.Blocks.{
  MessageBlock, text, progress, steps, LiveMessageUpdate, progressed, tool, block_text,
  live_message_text, progress_message_text, ends_sentence, append_text_segment, is_nil, text_onto,
  tool_onto, reduce_at, append_tool_call_segment, append_tool_calls, settle, reduce_tail,
  reduce_live_message_blocks,
}

live_message_text-append :
    (xs ys : List MessageBlock)
    → live_message_text (xs ++ ys) ≡ live_message_text xs ++ live_message_text ys
live_message_text-append [] ys = refl
live_message_text-append (x ∷ xs) ys =
    ap (◌++◌ (block_text x)) (live_message_text-append xs ys)
    ∙ sym (append_assoc (block_text x) (live_message_text xs) (live_message_text ys))

live_message_text-concat :
    (xs : List MessageBlock) (b : MessageBlock)
    → live_message_text (xs ++ b ∷ []) ≡ live_message_text xs ++ block_text b
live_message_text-concat xs b =
    live_message_text-append xs (b ∷ [])
    ∙ ap (◌++◌ (live_message_text xs)) (append-nil (block_text b))

live_message_text-last :
    (xs : List MessageBlock) (b : MessageBlock)
    → last? xs ≡ some b
    → live_message_text xs ≡ live_message_text (but_last xs) ++ block_text b
live_message_text-last xs b h =
    ap live_message_text (sym (but_last-last xs b h)) ∙ live_message_text-concat (but_last xs) b

live_message_text-text_onto :
    (xs : List MessageBlock) (s : Text) (o : Option MessageBlock)
    → last? xs ≡ o
    → live_message_text (text_onto xs s o) ≡ live_message_text xs ++ s
unfolding text_onto
live_message_text-text_onto xs s (some (text t)) h =
    live_message_text-concat (but_last xs) (text (t ++ s))
    ∙ sym (append_assoc (live_message_text (but_last xs)) t s)
    ∙ ap (λ u. u ++ s) (sym (live_message_text-last xs (text t) h))
live_message_text-text_onto xs s o h = live_message_text-concat xs (text s)

live_message_text-append_text_segment :
    (xs : List MessageBlock) (s : Text)
    → live_message_text (append_text_segment xs s) ≡ live_message_text xs ++ s
unfolding append_text_segment
live_message_text-append_text_segment xs [] = sym (append-nil (live_message_text xs))
live_message_text-append_text_segment xs (c ∷ s) =
    live_message_text-text_onto xs (c ∷ s) (last? xs) refl

-- What an update adds to the text: a delta, or nothing for a tool call.
abbrev pub added : LiveMessageUpdate → Option Text
added (progressed payload) = payload.delta
added (tool name) = some []

module _ (to_lower to_upper : Text → Text) where
  live_message_text-tool_onto :
      (xs : List MessageBlock) (name : Text) (o : Option MessageBlock)
      → last? xs ≡ o
      → live_message_text (tool_onto to_lower to_upper xs name o) ≡ live_message_text xs
  unfolding tool_onto
  live_message_text-tool_onto xs name (some (steps prior)) h =
      live_message_text-concat (but_last xs) _ ∙ sym (live_message_text-last xs (steps prior) h)
  live_message_text-tool_onto xs name o h =
      live_message_text-append xs _ ∙ append-nil (live_message_text xs)

  live_message_text-append_tool_calls :
      (xs : List MessageBlock) (names : List Text)
      → live_message_text (append_tool_calls to_lower to_upper xs names) ≡ live_message_text xs
  unfolding append_tool_calls
  live_message_text-append_tool_calls xs [] = refl
  live_message_text-append_tool_calls xs (n ∷ names) =
      live_message_text-append_tool_calls (append_tool_call_segment to_lower to_upper xs n) names
      ∙ unfold append_tool_call_segment in live_message_text-tool_onto xs n (last? xs) refl

  live_message_text-settle :
      (xs : List MessageBlock) (s : Text) (pending : List Text)
      → live_message_text (settle to_lower to_upper xs s pending) ≡ live_message_text xs ++ s
  unfolding settle
  live_message_text-settle xs s pending =
      elim (Bool-cases (not (is_nil pending) && ends_sentence s)) [
        | inl flush ↦ rw flush (
            live_message_text-append_tool_calls (append_text_segment xs s) pending
            ∙ live_message_text-append_text_segment xs s)
        | inr hold ↦ elim (Bool-cases (is_empty s)) [
          | inl nothing ↦ rw (hold, nothing) (empty_text xs s nothing)
          | inr more ↦ rw (hold, more) (live_message_text-concat xs (progress s pending))
        ]
      ]
    where
      empty_text :
          (xs : List MessageBlock) (s : Text)
          → is_empty s ≡ true
          → live_message_text xs ≡ live_message_text xs ++ s
      empty_text xs [] h = sym (append-nil (live_message_text xs))
      empty_text xs (c ∷ s) h = cc

  -- The prior text, its tail taken off and put back with the new text after it.
  flushed_part :
      (front tail s : Text)
      → drop (length (front ++ tail) - length tail) ((front ++ tail) ++ s) ≡ tail ++ s
  flushed_part front tail s =
      ap (λ n. drop n ((front ++ tail) ++ s)) (omega (arith, length-append front tail))
      ∙ ap (drop (length front)) (append_assoc front tail s)
      ∙ drop-length_append front (tail ++ s)

  reduce_tail-text :
      (xs : List MessageBlock) (tail : Text) (pending : List Text) (u : LiveMessageUpdate)
      (s : Text)
      → added u ≡ some s
      → live_message_text
          (reduce_tail to_lower to_upper xs tail pending (live_message_text xs ++ tail) u)
        ≡ (live_message_text xs ++ tail) ++ s
  unfolding reduce_tail
  reduce_tail-text xs tail pending (progressed payload) s e =
      live_message_text-settle xs _ pending
      ∙ ap (◌++◌ (live_message_text xs))
          (rw (e, progress_message_text) (flushed_part (live_message_text xs) tail s))
      ∙ sym (append_assoc (live_message_text xs) tail s)
  reduce_tail-text xs tail pending (tool name) s e =
      live_message_text-settle xs tail _
      ∙ sym (append-nil (live_message_text xs ++ tail))
      ∙ ap (◌++◌ (live_message_text xs ++ tail)) (ground arith)

  no_tail :
      (blocks : List MessageBlock) (u : LiveMessageUpdate) (s : Text)
      → added u ≡ some s
      → live_message_text (reduce_tail to_lower to_upper blocks [] [] (live_message_text blocks) u)
        ≡ live_message_text blocks ++ s
  no_tail blocks u s e =
      subst (λ t. live_message_text (reduce_tail to_lower to_upper blocks [] [] t u) ≡ t ++ s)
        (append-nil (live_message_text blocks)) (reduce_tail-text blocks [] [] u s e)

  reduce_at-text :
      (blocks : List MessageBlock) (u : LiveMessageUpdate) (s : Text) (o : Option MessageBlock)
      → last? blocks ≡ o
      → added u ≡ some s
      → live_message_text (reduce_at to_lower to_upper blocks u o) ≡ live_message_text blocks ++ s
  unfolding reduce_at
  reduce_at-text blocks u s (some (progress tail pending)) h e =
      rw (live_message_text-last blocks (progress tail pending) h)
        (reduce_tail-text (but_last blocks) tail pending u s e)
  reduce_at-text blocks u s o h e = no_tail blocks u s e

  -- An update adds exactly its delta to the text of the message, and a tool call leaves the text as
  -- it is, whatever the blocks are and wherever the text is cut into segments.
  pub live_message_text-reduce :
      (blocks : List MessageBlock) (u : LiveMessageUpdate) (s : Text)
      → added u ≡ some s
      → live_message_text (reduce_live_message_blocks to_lower to_upper blocks u)
        ≡ live_message_text blocks ++ s
  unfolding reduce_live_message_blocks
  live_message_text-reduce blocks u s e = reduce_at-text blocks u s (last? blocks) refl e
