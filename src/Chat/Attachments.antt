-- ===== src/Chat/Attachments.antt =====
-- src/app/chat/attachments.py: inline attachments are checked before anything is decoded, and made
-- the content blocks of the provider. What pypdf reads of a PDF is an argument.
pub mod Sizes
use model_lib.Base.{
  ℕ, suc, ◌+◌, ◌-◌, ◌*◌, ◌/◌, Bool, true, false, not, ◌&&◌, ◌||◌, Option, none, some, List, [], ◌∷◌,
  ◌++◌, ltb, ◌==◌, if◌then◌else◌, length, take, drop,
}
use model_lib.Base.Text.{Text, codes, text_eq, text_mem, is_empty, starts_with, strip, decimal}
use model_lib.Codec.{Codec}
use model_lib.Errors.{AppError}
use model_lib.Json.{Json, Runtime}
use model_lib.Session.{Result, ok, err}

pub data AttachmentType : Type 0 where
  image document text : AttachmentType

-- `AttachmentIn`
pub record Attachment : Type 0 where
  pub type : AttachmentType
  pub media_type : Text
  -- base64
  pub content : Text
  pub filename : Option Text

-- what pypdf says of some bytes
pub data Pdf : Type 0 where
  unreadable encrypted : Pdf
  pages : ℕ → Pdf

pub record AttachmentSettings : Type 0 where
  pub attachment_max_count : ℕ
  pub attachment_max_bytes_image : ℕ
  pub attachment_max_bytes_document : ℕ
  pub attachment_total_bytes : ℕ
  pub attachment_pdf_max_pages : ℕ
  pub codec : Codec
  pub read_pdf : List ℕ → Pdf

pub data Provider : Type 0 where
  anthropic openai : Provider

pub data ContentBlock : Type 0 where
  -- `image` and `document` of Anthropic, with the data in base64
  image_block document_block : (media_type content : Text) → ContentBlock
  -- `text` of Anthropic and `input_text` of OpenAI
  text_block input_text : Text → ContentBlock
  -- `input_image` and `input_file` of OpenAI
  input_image : (image_url : Text) → ContentBlock
  input_file : (filename file_data : Text) → ContentBlock

pub record PreparedAttachments : Type 0 where
  pub content_blocks : List ContentBlock
  pub placeholders : List Text

-- `_ALLOWLIST`
unfoldable pub allowed_types : AttachmentType → List Text
allowed_types image =
    codes "image/jpeg" ∷ codes "image/png" ∷ codes "image/gif" ∷ codes "image/webp" ∷ []
allowed_types document = codes "application/pdf" ∷ []
allowed_types text =
    codes "text/plain" ∷ codes "text/markdown" ∷ codes "text/csv" ∷ codes "application/json" ∷ []

-- `_max_bytes_for`
unfoldable pub max_bytes_for : AttachmentType → AttachmentSettings → ℕ
max_bytes_for document settings = settings.attachment_max_bytes_document
max_bytes_for _ settings = settings.attachment_max_bytes_image

-- `text.count("=")`
unfoldable pub count_padding : Text → ℕ
count_padding [] = 0
count_padding (c ∷ s) = (if c == b'=' then 1 else 0) + count_padding s

-- `_decoded_len_from_base64`; Python's difference is negative for fewer than four characters that
-- have padding among them, where this one stops at 0: such a text is no base64, and is refused either
-- way
unfoldable pub decoded_len_from_base64 : Text → ℕ
unfolding strip count_padding
decoded_len_from_base64 content =
    let n = length (strip content) in (n / 4) * 3 - count_padding (drop (n - 2) (strip content))

-- `_MAGIC_PREFIXES`
unfoldable pub magic_prefixes : Text → List (List ℕ)
unfolding text_eq
magic_prefixes media_type =
    if text_eq media_type (codes "image/jpeg")
    then (0xff ∷ 0xd8 ∷ 0xff ∷ []) ∷ []
    else if text_eq media_type (codes "image/png")
    then (0x89 ∷ b'P' ∷ b'N' ∷ b'G' ∷ 13 ∷ 10 ∷ 26 ∷ 10 ∷ []) ∷ []
    else if text_eq media_type (codes "image/gif")
    then codes "GIF87a" ∷ codes "GIF89a" ∷ []
    else codes "%PDF-" ∷ []

unfoldable pub starts_with_one : List ℕ → List (List ℕ) → Bool
unfolding starts_with
starts_with_one content [] = false
starts_with_one content (p ∷ ps) = starts_with content p || starts_with_one content ps

-- `_check_magic_bytes`, for the media types of images and documents
unfoldable pub has_magic_bytes : Text → List ℕ → Bool
unfolding magic_prefixes starts_with_one text_eq
has_magic_bytes media_type content =
    if text_eq media_type (codes "image/webp")
    then text_eq (take 4 content) (codes "RIFF") && text_eq (take 4 (drop 8 content)) (codes "WEBP")
    else starts_with_one content (magic_prefixes media_type)

-- `_check_pdf_pages`
unfoldable pub is_allowed_pdf : AttachmentSettings → Pdf → Bool
is_allowed_pdf settings Pdf.unreadable = false
is_allowed_pdf settings Pdf.encrypted = false
is_allowed_pdf settings (Pdf.pages n) = not (ltb settings.attachment_pdf_max_pages n)

-- `_decode_text`
unfoldable pub decode_text : Codec → Runtime → (media_type : Text) → List ℕ → Result Text
unfolding text_eq
decode_text codec py media_type content = elim (codec.decode content) [
  | none ↦ err AppError.validation_error
  | some t ↦
      (if text_eq media_type (codes "application/json")
        then elim (py.json_loads t) [ none ↦ err AppError.validation_error | some _ ↦ ok t ]
        else ok t)
]

-- the checks of the decoded bytes, by class; a text for a text
unfoldable pub check_content :
    AttachmentSettings
    → Runtime
    → AttachmentType
    → (media_type : Text) → List ℕ
    → Result (Option Text)
unfolding has_magic_bytes is_allowed_pdf decode_text
check_content settings py image media_type content =
    if has_magic_bytes media_type content then ok none else err AppError.validation_error
check_content settings py document media_type content =
    if has_magic_bytes media_type content && is_allowed_pdf settings (settings.read_pdf content)
    then ok none
    else err AppError.validation_error
check_content settings py text media_type content =
    elim (decode_text settings.codec py media_type content) [ ok t ↦ ok (some t) | err e ↦ err e ]

-- `att.filename or "file"`
unfoldable pub name_of : Option Text → Text
unfolding is_empty
name_of none = codes "file"
name_of (some name) = if is_empty name then codes "file" else name

-- the text with its name, in a fence
unfoldable pub fenced : Option Text → Option Text → Text
unfolding name_of
fenced filename body =
    name_of filename
    ++ (codes "\n```\n" ++ ((elim body [ none ↦ [] | some t ↦ t ]) ++ codes "\n```"))

-- "data:<mediaType>;base64,<data>"
unfoldable pub data_uri : (media_type content : Text) → Text
data_uri media_type content = codes "data:" ++ (media_type ++ (codes ";base64," ++ content))

-- `_anthropic_content_block`
unfoldable pub anthropic_content_block : Attachment → Option Text → ContentBlock
unfolding fenced
anthropic_content_block att body = elim att.type [
  | image ↦ image_block att.media_type att.content
  | document ↦ document_block (codes "application/pdf") att.content
  | text ↦ text_block (fenced att.filename body)
]

-- `_openai_content_block`
unfoldable pub openai_content_block : Attachment → Option Text → ContentBlock
unfolding fenced data_uri name_of
openai_content_block att body = elim att.type [
  | image ↦ input_image (data_uri att.media_type att.content)
  | document ↦ input_file (name_of att.filename) (data_uri att.media_type att.content)
  | text ↦ input_text (fenced att.filename body)
]

-- `_content_block`
unfoldable pub content_block : Provider → Attachment → Option Text → ContentBlock
unfolding anthropic_content_block openai_content_block
content_block openai att body = openai_content_block att body
content_block anthropic att body = anthropic_content_block att body

-- `_placeholder`
unfoldable pub placeholder : Attachment → (decoded_size : ℕ) → Text
unfolding name_of decimal
placeholder att decoded_size =
    codes "[attachment: "
    ++ (att.media_type
        ++ (codes " \""
            ++ (name_of att.filename
                ++ (codes "\", "
                    ++ (decimal decoded_size
                        ++ codes "B — отправлено в первом обращении к модели]")))))

-- the limits before anything is decoded; the sum that the loop goes on with
unfoldable pub check_limits : AttachmentSettings → (total : ℕ) → Attachment → Result ℕ
unfolding allowed_types max_bytes_for decoded_len_from_base64 text_mem
check_limits settings total att =
    if not (text_mem att.media_type (allowed_types att.type))
    then err AppError.validation_error
    else if ltb (max_bytes_for att.type settings) (decoded_len_from_base64 att.content)
    then err AppError.validation_error
    else if ltb settings.attachment_total_bytes (total + decoded_len_from_base64 att.content)
    then err AppError.validation_error
    else ok (total + decoded_len_from_base64 att.content)

-- the decoded bytes of one attachment, its block and its placeholder
unfoldable pub decode_one :
    AttachmentSettings → Runtime → Provider → Attachment → Result (ContentBlock × Text)
unfolding check_content content_block placeholder
decode_one settings py provider att = elim (settings.codec.b64decode att.content) [
  | none ↦ err AppError.validation_error
  | some bytes ↦ elim (check_content settings py att.type att.media_type bytes) [
    | err e ↦ err e
    | ok body ↦ ok (content_block provider att body, placeholder att (length bytes))
  ]
]

abbrev pub add_first : ContentBlock × Text → Result PreparedAttachments → Result PreparedAttachments
add_first (block, note) (ok prepared) = ok (record {
  content_blocks = block ∷ prepared.content_blocks;
  placeholders = note ∷ prepared.placeholders;
})
add_first (block, note) (err e) = err e

-- the loop over the attachments
unfoldable pub prepare_from :
    AttachmentSettings
    → Runtime
    → Provider
    → (total : ℕ) → List Attachment
    → Result PreparedAttachments
unfolding check_limits decode_one
prepare_from settings py provider total [] = ok (record { content_blocks = []; placeholders = [] })
prepare_from settings py provider total (att ∷ attachments) =
    elim (check_limits settings total att) [
      | err e ↦ err e
      | ok total' ↦ elim (decode_one settings py provider att) [
        | err e ↦ err e
        | ok first ↦ add_first first (prepare_from settings py provider total' attachments)
      ]
    ]

-- `prepare_attachments`
unfoldable pub prepare_attachments :
    AttachmentSettings → Runtime → Provider → List Attachment → Result PreparedAttachments
unfolding prepare_from
prepare_attachments settings py provider attachments =
    if ltb settings.attachment_max_count (length attachments)
    then err AppError.validation_error
    else prepare_from settings py provider 0 attachments
