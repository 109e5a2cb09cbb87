-- ===== src/Live/Blocks/Fold.antt =====
-- A whole stream of updates folded into the blocks of a message.
use rakazo.Common.{
  ℕ, ◌+◌, List, [], ◌∷◌, ◌++◌, append_assoc, append-nil, Option, none, some, Text, ◌≡◌, refl, sym,
  ap, ◌∙◌, arith,
}
use rakazo.Live.Blocks.{
  MessageBlock, LiveMessageUpdate, progressed, tool, live_message_text, reduce_live_message_blocks,
}
use rakazo.Live.Blocks.Content.{added, live_message_text-reduce}
use rakazo.Live.Blocks.Tools.{tool_count, calls, tool_count-reduce}

-- Every progress update carries a delta.
abbrev AllDeltas : List LiveMessageUpdate → Type 0
AllDeltas [] = Unit {0}
AllDeltas (tool name ∷ us) = AllDeltas us
AllDeltas (progressed payload ∷ us) = ((delta : Text) × (payload.delta ≡ some delta)) × AllDeltas us

abbrev or_nothing : Option Text → Text
or_nothing none = []
or_nothing (some s) = s

abbrev pub delta_text : List LiveMessageUpdate → Text
delta_text [] = []
delta_text (u ∷ us) = or_nothing (added u) ++ delta_text us

abbrev pub tool_calls : List LiveMessageUpdate → ℕ
tool_calls [] = 0
tool_calls (u ∷ us) = calls u + tool_calls us

module _ (to_lower to_upper : Text → Text) where
  pub fold_updates : List MessageBlock → List LiveMessageUpdate → List MessageBlock
  fold_updates blocks [] = blocks
  fold_updates blocks (u ∷ us) =
      fold_updates (reduce_live_message_blocks to_lower to_upper blocks u) us

  one :
      (blocks : List MessageBlock) (u : LiveMessageUpdate) (s rest : Text)
      → added u ≡ some s
      → live_message_text (reduce_live_message_blocks to_lower to_upper blocks u) ++ rest
        ≡ live_message_text blocks ++ (or_nothing (added u) ++ rest)
  one blocks u s rest e =
      ap (λ t. t ++ rest) (live_message_text-reduce to_lower to_upper blocks u s e)
      ∙ append_assoc (live_message_text blocks) s rest
      ∙ ap (λ o. live_message_text blocks ++ (or_nothing o ++ rest)) (sym e)

  fold-text :
      (blocks : List MessageBlock) (us : List LiveMessageUpdate)
      → AllDeltas us
      → live_message_text (fold_updates blocks us) ≡ live_message_text blocks ++ delta_text us
  unfolding fold_updates
  fold-text blocks [] h = sym (append-nil (live_message_text blocks))
  fold-text blocks (tool name ∷ us) h =
      fold-text (reduce_live_message_blocks to_lower to_upper blocks (tool name)) us h
      ∙ one blocks (tool name) [] (delta_text us) refl
  fold-text blocks (progressed payload ∷ us) h =
      fold-text (reduce_live_message_blocks to_lower to_upper blocks (progressed payload)) us h.1
      ∙ one blocks (progressed payload) h.0.0 (delta_text us) h.0.1

  fold-tools :
      (blocks : List MessageBlock) (us : List LiveMessageUpdate)
      → tool_count (fold_updates blocks us) ≡ tool_count blocks + tool_calls us
  unfolding fold_updates
  fold-tools blocks [] = omega arith
  fold-tools blocks (u ∷ us) = omega (
    arith,
    fold-tools (reduce_live_message_blocks to_lower to_upper blocks u) us,
    tool_count-reduce to_lower to_upper blocks u,
  )

  -- After any stream of deltas and tool calls a message reads as the text it had followed by all the
  -- deltas in order, and holds as many tool calls, shown or still hidden, as it had and the stream made.
  pub fold_keeps_all :
      (blocks : List MessageBlock) (us : List LiveMessageUpdate)
      → AllDeltas us
      → (live_message_text (fold_updates blocks us) ≡ live_message_text blocks ++ delta_text us)
        × (tool_count (fold_updates blocks us) ≡ tool_count blocks + tool_calls us)
  fold_keeps_all blocks us h = (fold-text blocks us h, fold-tools blocks us)
