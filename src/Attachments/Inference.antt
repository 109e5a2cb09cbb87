-- ===== src/Attachments/Inference.antt =====
-- Only allowed types are inferred.
use rakazo.Common.{
  Bool, true, false, not, ◌&&◌, ◌||◌, [], ◌∷◌, Option, none, some, Text, lit, text_eq, has, truthy,
  or_empty, Dict, get, if◌then◌else◌, ◌≡◌, refl, arith, All, Bool-cases, inl, inr,
}
use rakazo.Attachments.{
  is_allowed_attachment_mime_type, extension_mime_types, extension_type_of, dot_suffix, is_text,
  choose_type, infer_attachment_mime_type,
}

abbrev pub IsAllowed : Option Text → Type 0
IsAllowed none = Unit {0}
IsAllowed (some t) = is_allowed_attachment_mime_type t ≡ true

get-IsAllowed :
    (k : Text) (m : Dict Text)
    → All (λ e. is_allowed_attachment_mime_type e.1 ≡ true) m
    → IsAllowed (get k m)
unfolding get
get-IsAllowed k [] h = tt
get-IsAllowed k ((j, t) ∷ m) h = elim (Bool-cases (text_eq j k)) [
  | inl e ↦ rw e h.0
  | inr e ↦ rw e (get-IsAllowed k m h.1)
]

table_allowed : All (λ e. is_allowed_attachment_mime_type e.1 ≡ true) extension_mime_types
unfolding is_allowed_attachment_mime_type has text_eq
table_allowed =
    (refl, (refl, (refl, (refl, (refl, (refl, (refl, (refl, (refl, (refl, (refl, tt)))))))))))

extension-IsAllowed :
    (to_lower_case : Text → Text) (o : Option Text) → IsAllowed (extension_type_of to_lower_case o)
unfolding extension_type_of
extension-IsAllowed to_lower_case none = tt
extension-IsAllowed to_lower_case (some suffix) =
    get-IsAllowed (to_lower_case suffix) extension_mime_types table_allowed

reported-IsAllowed :
    (o : Option Text)
    → (truthy o && is_allowed_attachment_mime_type (or_empty o)) ≡ true
    → IsAllowed o
reported-IsAllowed none e = tt
reported-IsAllowed (some []) e = ground arith
reported-IsAllowed (some (c ∷ s)) e = e

if-IsAllowed :
    (a b : Bool) (x y : Option Text)
    → IsAllowed x
    → (b ≡ true → IsAllowed y)
    → IsAllowed (if a then x else if b then y else x)
if-IsAllowed true b x y h k = h
if-IsAllowed false true x y h k = k refl
if-IsAllowed false false x y h k = h

-- The type that is inferred for an attachment, whatever its name and its reported type, is none or one
-- of the allowed types.
pub inferred-IsAllowed :
    (to_lower_case : Text → Text) (name : Text) (reported : Option Text)
    → IsAllowed (infer_attachment_mime_type to_lower_case name reported)
unfolding infer_attachment_mime_type choose_type
inferred-IsAllowed to_lower_case name reported =
    if-IsAllowed
      (is_text extension (lit "text/markdown")
        && (not (truthy reported) || is_text reported (lit "text/plain")))
      (truthy reported && is_allowed_attachment_mime_type (or_empty reported)) extension reported
      (extension-IsAllowed to_lower_case (dot_suffix name)) (reported-IsAllowed reported)
  where
    extension : Option Text
    extension = extension_type_of to_lower_case (dot_suffix name)
