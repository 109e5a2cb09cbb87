-- ===== src/Attachments.antt =====
-- packages/core/src/attachments.ts and packages/contracts/src/attachments.ts: the types of attachments.
-- `toLowerCase` is an argument.
pub mod Inference
mod Tests
use rakazo.Common.{
  ℕ, ◌==◌, Bool, true, false, not, ◌&&◌, ◌||◌, List, [], ◌∷◌, ◌++◌, Option, none, some, Text, lit,
  text_eq, has, truthy, or_empty, select, is_empty, Dict, get, if◌then◌else◌,
}

abbrev attachment_image_mime_types : List Text
attachment_image_mime_types =
    lit "image/jpeg" ∷ lit "image/png" ∷ lit "image/webp" ∷ lit "image/gif" ∷ []

abbrev attachment_file_mime_types : List Text
attachment_file_mime_types =
    lit "application/pdf"
    ∷ lit "text/plain"
    ∷ lit "text/markdown"
    ∷ lit "text/csv"
    ∷ lit "application/json"
    ∷ []

abbrev attachment_allowed_mime_types : List Text
attachment_allowed_mime_types = attachment_image_mime_types ++ attachment_file_mime_types

is_attachment_image_mime_type : Text → Bool
is_attachment_image_mime_type mime_type = has attachment_image_mime_types mime_type

pub is_allowed_attachment_mime_type : Text → Bool
is_allowed_attachment_mime_type mime_type = has attachment_allowed_mime_types mime_type

pub data AttachmentKind : Type 0 where
  image : AttachmentKind
  file : AttachmentKind

attachment_kind_for_mime_type : Text → AttachmentKind
unfolding is_attachment_image_mime_type
attachment_kind_for_mime_type mime_type =
    if is_attachment_image_mime_type mime_type then image else file

abbrev pub extension_mime_types : Dict Text
extension_mime_types =
    (lit ".jpg", lit "image/jpeg")
    ∷ (lit ".jpeg", lit "image/jpeg")
    ∷ (lit ".png", lit "image/png")
    ∷ (lit ".webp", lit "image/webp")
    ∷ (lit ".gif", lit "image/gif")
    ∷ (lit ".pdf", lit "application/pdf")
    ∷ (lit ".txt", lit "text/plain")
    ∷ (lit ".md", lit "text/markdown")
    ∷ (lit ".markdown", lit "text/markdown")
    ∷ (lit ".csv", lit "text/csv")
    ∷ (lit ".json", lit "application/json")
    ∷ []

abbrev mime_type_extensions : Dict Text
mime_type_extensions =
    (lit "image/jpeg", lit ".jpg")
    ∷ (lit "image/png", lit ".png")
    ∷ (lit "image/webp", lit ".webp")
    ∷ (lit "image/gif", lit ".gif")
    ∷ (lit "application/pdf", lit ".pdf")
    ∷ (lit "text/plain", lit ".txt")
    ∷ (lit "text/markdown", lit ".md")
    ∷ (lit "text/csv", lit ".csv")
    ∷ (lit "application/json", lit ".json")
    ∷ []

abbrev suffix_or : Option Text → Bool → Text → Option Text
suffix_or (some later) b own = some later
suffix_or none true own = some own
suffix_or none false own = none

-- `name.slice(name.lastIndexOf("."))`, none where there is no dot
pub dot_suffix : Text → Option Text
dot_suffix [] = none
dot_suffix (c ∷ s) = suffix_or (dot_suffix s) (c == b'.') (c ∷ s)

pub extension_type_of : (Text → Text) → Option Text → Option Text
extension_type_of to_lower_case none = none
extension_type_of to_lower_case (some suffix) = get (to_lower_case suffix) extension_mime_types

abbrev pub is_text : Option Text → Text → Bool
is_text none s = false
is_text (some t) s = text_eq t s

pub choose_type : Option Text → Option Text → Option Text
unfolding is_allowed_attachment_mime_type
choose_type extension_type reported_type =
    if is_text extension_type (lit "text/markdown")
      && (not (truthy reported_type) || is_text reported_type (lit "text/plain"))
    then extension_type
    else if truthy reported_type && is_allowed_attachment_mime_type (or_empty reported_type)
    then reported_type
    else extension_type

pub infer_attachment_mime_type : (Text → Text) → Text → Option Text → Option Text
unfolding extension_type_of dot_suffix choose_type
infer_attachment_mime_type to_lower_case name reported_type =
    choose_type (extension_type_of to_lower_case (dot_suffix name)) reported_type

attachment_extension_for_mime_type : Text → Text
unfolding is_allowed_attachment_mime_type
attachment_extension_for_mime_type mime_type =
    if is_allowed_attachment_mime_type mime_type
    then or_empty (get mime_type mime_type_extensions)
    else []

-- An attachment in the composer, by its thread and bot
pub record Draft : Type 0 where
  pub thread_key : Text
  pub bot_id : Text

attachments_for_thread : List Draft → Option Text → List Draft
attachments_for_thread attachments thread_key =
    if not (truthy thread_key)
    then []
    else select (λ attachment. text_eq attachment.thread_key (or_empty thread_key)) attachments

attachments_for_bot : List Draft → Option Text → List Draft
attachments_for_bot attachments bot_id =
    if not (truthy bot_id)
    then []
    else select (λ attachment. text_eq attachment.bot_id (or_empty bot_id)) attachments
