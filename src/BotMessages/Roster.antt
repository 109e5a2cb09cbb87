-- ===== src/BotMessages/Roster.antt =====
-- Bounds: the descriptions of a roster, the length of a message, and the length of a chain of
-- deliveries between bots.
use rakazo.Common.{
  ℕ, zero, suc, ◌+◌, ◌-◌, ◌≤◌, ltb, leb, List, [], ◌∷◌, none, some, Text, lit, length, take, trim,
  trim_end, is_space, is_empty, length-append, length-take-le, ◌&&◌, not, ◌≡◌, refl, arith,
  Bool-cases, inl, inr,
}
use rakazo.BotMessages.{
  BotAddress, descriptions, description_within, trimmed_of, clamp_bot_message,
  bot_message_max_length, next_bot_message_hop, bot_message_hop_exhausted, escape_directory_field,
}

abbrev pub total : List Text → ℕ
total [] = 0
total (d ∷ ds) = length d + total ds

description_within_le :
    (limit budget : ℕ) (raw : Text) → length (description_within limit budget raw) ≤ budget
unfolding description_within
description_within_le limit budget raw = elim (Bool-cases (not (is_empty raw) && ltb 0 budget)) [
  | inl e ↦ rw e (length-take-le budget (escape_directory_field (take limit raw)))
  | inr e ↦ rw e (omega arith)
]

-- The descriptions that a roster shows have together at most as many code units as the budget,
-- counted after escaping.
pub descriptions_within_budget :
    (limit budget : ℕ) (bots : List BotAddress) → total (descriptions limit budget bots) ≤ budget
unfolding descriptions
descriptions_within_budget limit budget [] = omega arith
descriptions_within_budget limit budget (bot ∷ bots) = omega (
  arith,
  description_within_le limit budget (trimmed_of bot.description),
  descriptions_within_budget limit
      (budget - length (description_within limit budget (trimmed_of bot.description))) bots,
)

trim_end_le : (s : Text) → length (trim_end s) ≤ length s
unfolding trim_end
trim_end_le [] = omega arith
trim_end_le (c ∷ s) = elim (Bool-cases (is_space c && is_empty (trim_end s))) [
  | inl e ↦ rw e (omega arith)
  | inr e ↦ rw e (omega (arith, trim_end_le s))
]

-- A clamped message has at most `BOT_MESSAGE_MAX_LENGTH` code units.
clamp_le : (text : Text) → length (clamp_bot_message text) ≤ bot_message_max_length
unfolding clamp_bot_message
clamp_le text = elim (Bool-cases (leb (length (trim text)) bot_message_max_length)) [
  | inl e ↦ rw e (ground arith)
  | inr e ↦ rw e (
      omega (
        arith,
        length-append (trim_end (take (bot_message_max_length - 1) (trim text))) (lit "…"),
        trim_end_le (take (bot_message_max_length - 1) (trim text)),
        length-take-le (bot_message_max_length - 1) (trim text),
      ))
]

-- The hop of the last of `suc n` deliveries that follow one another from a person's own message.
abbrev pub hop_after : ℕ → ℕ
unfolding next_bot_message_hop
hop_after zero = next_bot_message_hop none
hop_after (suc n) = next_bot_message_hop (some (hop_after n))

hop_after_eq : (n : ℕ) → hop_after n ≡ suc n
unfolding next_bot_message_hop
hop_after_eq zero = refl
hop_after_eq (suc n) = rw (hop_after_eq n) (ground arith)

-- Of the deliveries that follow one another from a person's own message, exactly those after the
-- sixth are refused.
pub chain_stops : (n : ℕ) → bot_message_hop_exhausted (hop_after n) ≡ leb 6 n
unfolding bot_message_hop_exhausted
chain_stops n = rw (hop_after_eq n) (ground arith)
