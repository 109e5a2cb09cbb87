-- ===== src/BotMessages/Escaping.antt =====
-- What escaping guarantees: the escaped text can neither open nor close a tag, and a directory field
-- stays on its line.
use rakazo.Common.{
  ℕ, ◌==◌, false, [], ◌∷◌, ◌++◌, Text, lit, if◌then◌else◌, append_assoc, ◌≡◌, refl, sym, ap, ◌∙◌,
  All, All-append, Bool-cases, inl, inr,
}
use rakazo.BotMessages.{replace_all, escape_prompt_data, escape_directory_field}

-- `!value.includes(c)`, for a code unit `c`
abbrev pub Lacks : ℕ → Text → Type 0
Lacks c s = All (λ x. (x == c) ≡ false) s

replace_all-Lacks : (c : ℕ) (by s : Text) → Lacks c by → Lacks c (replace_all c by s)
unfolding replace_all
replace_all-Lacks c by [] h = tt
replace_all-Lacks c by (x ∷ s) h = elim (Bool-cases (x == c)) [
  | inl e ↦ rw e (All-append (λ y. (y == c) ≡ false) by _ h (replace_all-Lacks c by s h))
  | inr e ↦ rw e (e, replace_all-Lacks c by s h)
]

replace_all-keeps_Lacks :
    (d c : ℕ) (by s : Text) → Lacks d by → Lacks d s → Lacks d (replace_all c by s)
unfolding replace_all
replace_all-keeps_Lacks d c by [] h k = tt
replace_all-keeps_Lacks d c by (x ∷ s) h k = elim (Bool-cases (x == c)) [
  | inl e ↦
      rw e (All-append (λ y. (y == d) ≡ false) by _ h (replace_all-keeps_Lacks d c by s h k.1))
  | inr e ↦ rw e (k.0, replace_all-keeps_Lacks d c by s h k.1)
]

-- An escaped text has no `<` and no `>`.
escape-Lacks_brackets :
    (value : Text) → Lacks 60 (escape_prompt_data value) × Lacks 62 (escape_prompt_data value)
unfolding escape_prompt_data
escape-Lacks_brackets value = (
  replace_all-keeps_Lacks 60 62 (lit "&gt;") less (refl, (refl, (refl, (refl, tt))))
      (replace_all-Lacks 60 (lit "&lt;") amp (refl, (refl, (refl, (refl, tt))))),
  replace_all-Lacks 62 (lit "&gt;") less (refl, (refl, (refl, (refl, tt)))),
)
  where
    amp : Text
    amp = replace_all 38 (lit "&amp;") value

    less : Text
    less = replace_all 60 (lit "&lt;") amp

-- An escaped directory field has no `<`, no `>`, no line feed and no carriage return.
pub field_stays_on_line :
    (value : Text)
    → (Lacks 60 (escape_directory_field value) × Lacks 62 (escape_directory_field value))
      × Lacks 10 (escape_directory_field value)
      × Lacks 13 (escape_directory_field value)
unfolding escape_directory_field
field_stays_on_line value = (
  (
    breaks 60 (refl, (refl, tt)) (refl, (refl, tt)) (escape-Lacks_brackets value).0,
    breaks 62 (refl, (refl, tt)) (refl, (refl, tt)) (escape-Lacks_brackets value).1,
  ),
  replace_all-Lacks 10 (lit "\\n") line (refl, (refl, tt)),
  replace_all-keeps_Lacks 13 10 (lit "\\n") line (refl, (refl, tt))
      (replace_all-Lacks 13 (lit "\\r") (escape_prompt_data value) (refl, (refl, tt))),
)
  where
    line : Text
    line = replace_all 13 (lit "\\r") (escape_prompt_data value)

    breaks :
        (d : ℕ)
        → Lacks d (lit "\\n")
        → Lacks d (lit "\\r")
        → Lacks d (escape_prompt_data value)
        → Lacks d
            (replace_all 10 (lit "\\n") (replace_all 13 (lit "\\r") (escape_prompt_data value)))
    breaks d n r h =
        replace_all-keeps_Lacks d 10 (lit "\\n") line n
          (replace_all-keeps_Lacks d 13 (lit "\\r") (escape_prompt_data value) r h)

-- One code unit, escaped
abbrev escaped_unit : ℕ → Text
escaped_unit x =
    if x == 38
    then lit "&amp;"
    else if x == 60
    then lit "&lt;"
    else if x == 62
    then lit "&gt;"
    else x ∷ []

abbrev pub escape_each : Text → Text
escape_each [] = []
escape_each (x ∷ s) = escaped_unit x ++ escape_each s

replace_all-append :
    (c : ℕ) (by s t : Text) → replace_all c by (s ++ t) ≡ replace_all c by s ++ replace_all c by t
unfolding replace_all
replace_all-append c by [] t = refl
replace_all-append c by (x ∷ s) t = elim (Bool-cases (x == c)) [
  | inl e ↦ rw e (
      ap (λ r. by ++ r) (replace_all-append c by s t)
      ∙ sym (append_assoc by (replace_all c by s) (replace_all c by t)))
  | inr e ↦ rw e (ap (◌∷◌ x) (replace_all-append c by s t))
]

replace_all-absent : (c : ℕ) (by s : Text) → Lacks c s → replace_all c by s ≡ s
unfolding replace_all
replace_all-absent c by [] h = refl
replace_all-absent c by (x ∷ s) h = rw h.0 (ap (◌∷◌ x) (replace_all-absent c by s h.1))

unit_escaped : (x : ℕ) → escape_prompt_data (x ∷ []) ≡ escaped_unit x
unfolding escape_prompt_data replace_all
unit_escaped x = elim (Bool-cases (x == 38)) [
  | inl amp ↦ rw amp refl
  | inr a ↦ elim (Bool-cases (x == 60)) [
    | inl less ↦ rw (a, less) refl
    | inr l ↦ elim (Bool-cases (x == 62)) [
      | inl greater ↦ rw (a, l, greater) refl
      | inr g ↦ rw (a, l, g) refl
    ]
  ]
]

escape-append :
    (s t : Text) → escape_prompt_data (s ++ t) ≡ escape_prompt_data s ++ escape_prompt_data t
unfolding escape_prompt_data
escape-append s t =
    rw
      (
        replace_all-append 38 (lit "&amp;") s t,
        replace_all-append 60 (lit "&lt;") (replace_all 38 (lit "&amp;") s)
            (replace_all 38 (lit "&amp;") t),
        replace_all-append 62 (lit "&gt;")
            (replace_all 60 (lit "&lt;") (replace_all 38 (lit "&amp;") s))
            (replace_all 60 (lit "&lt;") (replace_all 38 (lit "&amp;") t)),
      )
      refl

-- The three replacements that follow one another are the one pass that escapes each code unit of the
-- text by itself.
pub escape_is_one_pass : (value : Text) → escape_prompt_data value ≡ escape_each value
unfolding escape_prompt_data replace_all
escape_is_one_pass [] = refl
escape_is_one_pass (x ∷ s) =
    escape-append (x ∷ []) s
    ∙ ap (λ t. t ++ escape_prompt_data s) (unit_escaped x)
    ∙ ap (λ t. escaped_unit x ++ t) (escape_is_one_pass s)
