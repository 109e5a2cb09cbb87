-- ===== src/Live/Blocks/Tools.antt =====
-- The tool calls of a live message, counted, and the place of the progress block.
use rakazo.Common.{
  ℕ, ◌+◌, List, [], ◌∷◌, ◌++◌, Option, none, some, Text, is_empty, trim, ◌≡◌, refl, sym, ap, ◌∙◌,
  inl, inr, arith, length, length-append, last?, but_last, but_last-last, Bool-cases,
}
use rakazo.Live.Blocks.{
  ToolStep, MessageBlock, text, progress, steps, LiveMessageUpdate, progressed, tool, ends_sentence,
  text_onto, append_text_segment, step_onto, append_tool_step, tool_onto, humanize_tool_name,
  append_tool_call_segment, append_tool_calls, settle, reduce_tail, reduce_at,
  reduce_live_message_blocks, live_message_text,
}

abbrev step_count : List ToolStep → ℕ
step_count [] = 0
step_count (s ∷ ss) = s.count + step_count ss

abbrev block_tools : MessageBlock → ℕ
block_tools (steps done) = step_count done
block_tools (progress s pending) = length pending
block_tools _ = 0

-- The tool calls that a message shows, those still pending included.
abbrev pub tool_count : List MessageBlock → ℕ
tool_count [] = 0
tool_count (b ∷ bs) = block_tools b + tool_count bs

tool_count-append :
    (xs ys : List MessageBlock) → tool_count (xs ++ ys) ≡ tool_count xs + tool_count ys
tool_count-append [] ys = omega arith
tool_count-append (x ∷ xs) ys = omega (arith, tool_count-append xs ys)

tool_count-last :
    (xs : List MessageBlock) (b : MessageBlock)
    → last? xs ≡ some b
    → tool_count xs ≡ tool_count (but_last xs) + block_tools b
tool_count-last xs b h =
    ap tool_count (sym (but_last-last xs b h))
    ∙ omega (arith, tool_count-append (but_last xs) (b ∷ []))

step_count-append : (xs ys : List ToolStep) → step_count (xs ++ ys) ≡ step_count xs + step_count ys
step_count-append [] ys = omega arith
step_count-append (x ∷ xs) ys = omega (arith, step_count-append xs ys)

step_count-last :
    (xs : List ToolStep) (b : ToolStep)
    → last? xs ≡ some b
    → step_count xs ≡ step_count (but_last xs) + b.count
step_count-last xs b h =
    ap step_count (sym (but_last-last xs b h))
    ∙ omega (arith, step_count-append (but_last xs) (b ∷ []))

tool_count-text_onto :
    (xs : List MessageBlock) (s : Text) (o : Option MessageBlock)
    → last? xs ≡ o
    → tool_count (text_onto xs s o) ≡ tool_count xs
unfolding text_onto
tool_count-text_onto xs s (some (text t)) h =
    omega
      (arith, tool_count-last xs (text t) h, tool_count-append (but_last xs) (text (t ++ s) ∷ []))
tool_count-text_onto xs s o h = omega (arith, tool_count-append xs (text s ∷ []))

tool_count-append_text_segment :
    (xs : List MessageBlock) (s : Text) → tool_count (append_text_segment xs s) ≡ tool_count xs
unfolding append_text_segment
tool_count-append_text_segment xs [] = refl
tool_count-append_text_segment xs (c ∷ s) = tool_count-text_onto xs (c ∷ s) (last? xs) refl

-- What an update adds to the number of tool calls.
abbrev pub calls : LiveMessageUpdate → ℕ
calls (progressed payload) = 0
calls (tool name) = 1

module _ (to_lower to_upper : Text → Text) where
  step_count-step_onto :
      (xs : List ToolStep) (label : Text) (o : Option ToolStep)
      → last? xs ≡ o
      → step_count (step_onto to_lower to_upper xs label o) ≡ step_count xs + 1
  unfolding step_onto
  step_count-step_onto xs label none h =
      omega (arith, step_count-append xs (record { label = label; count = 1 } ∷ []))
  step_count-step_onto xs label (some last) h = ground (
    arith,
    step_count-last xs last h,
    step_count-append xs (record { label = label; count = 1 } ∷ []),
    step_count-append (but_last xs) (record { label = label; count = last.count + 1 } ∷ []),
  )

  step_count-append_tool_step :
      (xs : List ToolStep) (name : Text)
      → step_count (append_tool_step to_lower to_upper xs name) ≡ step_count xs + 1
  unfolding append_tool_step
  step_count-append_tool_step xs name =
      step_count-step_onto xs (humanize_tool_name to_lower to_upper name) (last? xs) refl

  tool_count-tool_onto :
      (xs : List MessageBlock) (name : Text) (o : Option MessageBlock)
      → last? xs ≡ o
      → tool_count (tool_onto to_lower to_upper xs name o) ≡ tool_count xs + 1
  unfolding tool_onto
  tool_count-tool_onto xs name (some (steps prior)) h =
      let new = append_tool_step to_lower to_upper prior name in
      omega (
        arith,
        tool_count-last xs (steps prior) h,
        tool_count-append (but_last xs) (steps new ∷ []),
        step_count-append_tool_step prior name,
      )
  tool_count-tool_onto xs name o h =
      let new = append_tool_step to_lower to_upper [] name in
      omega (arith, tool_count-append xs (steps new ∷ []), step_count-append_tool_step [] name)

  tool_count-append_tool_calls :
      (xs : List MessageBlock) (names : List Text)
      → tool_count (append_tool_calls to_lower to_upper xs names) ≡ tool_count xs + length names
  unfolding append_tool_calls append_tool_call_segment
  tool_count-append_tool_calls xs [] = omega arith
  tool_count-append_tool_calls xs (n ∷ names) = omega (
    arith,
    tool_count-append_tool_calls (append_tool_call_segment to_lower to_upper xs n) names,
    tool_count-tool_onto xs n (last? xs) refl,
  )

  -- A text that is empty ends a sentence, so that no pending tool call is dropped with it.
  tool_count-settle :
      (xs : List MessageBlock) (s : Text) (pending : List Text)
      → tool_count (settle to_lower to_upper xs s pending) ≡ tool_count xs + length pending
  unfolding settle ends_sentence trim
  tool_count-settle xs s [] = elim (Bool-cases (is_empty s)) [
    | inl nothing ↦ rw nothing (omega arith)
    | inr more ↦ rw more (omega (arith, tool_count-append xs (progress s [] ∷ [])))
  ]
  tool_count-settle xs [] (n ∷ pending) = omega (
    arith,
    tool_count-append_tool_calls (append_text_segment xs []) (n ∷ pending),
    tool_count-append_text_segment xs [],
  )
  tool_count-settle xs (c ∷ s) (n ∷ pending) = elim (Bool-cases (ends_sentence (c ∷ s))) [
    | inl flush ↦ rw flush (
        omega (
          arith,
          tool_count-append_tool_calls (append_text_segment xs (c ∷ s)) (n ∷ pending),
          tool_count-append_text_segment xs (c ∷ s),
        ))
    | inr hold ↦ rw hold (omega (arith, tool_count-append xs (progress (c ∷ s) (n ∷ pending) ∷ [])))
  ]

  reduce_tail-tools :
      (xs : List MessageBlock) (tail : Text) (pending : List Text) (prior : Text)
      (u : LiveMessageUpdate)
      → tool_count (reduce_tail to_lower to_upper xs tail pending prior u)
        ≡ tool_count xs + length pending + calls u
  unfolding reduce_tail
  reduce_tail-tools xs tail pending prior (progressed payload) =
      omega (arith, tool_count-settle xs _ pending)
  reduce_tail-tools xs tail pending prior (tool name) =
      omega
        (arith, tool_count-settle xs tail (pending ++ name ∷ []), length-append pending (name ∷ []))

  reduce_at-tools :
      (blocks : List MessageBlock) (u : LiveMessageUpdate) (o : Option MessageBlock)
      → last? blocks ≡ o
      → tool_count (reduce_at to_lower to_upper blocks u o) ≡ tool_count blocks + calls u
  unfolding reduce_at
  reduce_at-tools blocks u (some (progress tail pending)) h = omega (
    arith,
    reduce_tail-tools (but_last blocks) tail pending (live_message_text blocks) u,
    tool_count-last blocks (progress tail pending) h,
  )
  reduce_at-tools blocks u o h =
      omega (arith, reduce_tail-tools blocks [] [] (live_message_text blocks) u)

  -- Every tool call shows up once, in a step or as pending, and progress keeps those that are there.
  pub tool_count-reduce :
      (blocks : List MessageBlock) (u : LiveMessageUpdate)
      → tool_count (reduce_live_message_blocks to_lower to_upper blocks u)
        ≡ tool_count blocks + calls u
  unfolding reduce_live_message_blocks
  tool_count-reduce blocks u = reduce_at-tools blocks u (last? blocks) refl
