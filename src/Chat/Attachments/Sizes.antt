-- ===== src/Chat/Attachments/Sizes.antt =====
-- How much the attachments that src/app/chat/attachments.py accepts can hold.
use model_lib.Base.{
  ℕ, ◌+◌, ◌-◌, ◌*◌, ◌/◌, ◌≤◌, ◌≡◌, none, some, List, [], ◌∷◌, arith, Option-cases, inl, inr, length,
  drop, All,
}
use model_lib.Base.Text.{Text, strip}
use model_lib.Codec.{Codec}
use model_lib.Json.{Runtime}
use model_lib.Session.{ok, Result-cases}
use model_lib.Chat.Attachments.{
  Attachment, AttachmentSettings, Provider, PreparedAttachments, max_bytes_for, count_padding,
  decoded_len_from_base64, check_limits, decode_one, prepare_from, prepare_attachments,
}

-- What binascii documents of a text that is read strictly: no white space around it, no padding that
-- is in excess, and so three bytes for four characters less the padding among the last two.
pub record IsStrict (codec : Codec) : Type 0 where
  pub bare : (t : Text) (bytes : List ℕ) → codec.b64decode t ≡ some bytes → strip t ≡ t
  pub sized :
      (t : Text) (bytes : List ℕ)
      → codec.b64decode t ≡ some bytes
      → length bytes + count_padding (drop (length t - 2) t) ≡ (length t / 4) * 3

-- the bytes that an attachment holds
abbrev pub size_of : Codec → Attachment → ℕ
size_of codec att = elim (codec.b64decode att.content) [ none ↦ 0 | some bytes ↦ length bytes ]

abbrev pub sum_of : Codec → List Attachment → ℕ
sum_of codec [] = 0
sum_of codec (att ∷ attachments) = size_of codec att + sum_of codec attachments

module _ (settings : AttachmentSettings) (py : Runtime) (provider : Provider)
    (c : IsStrict settings.codec) where
  -- the length that is guessed of the text is that of its bytes
  size-le : (att : Attachment) → size_of settings.codec att ≤ decoded_len_from_base64 att.content
  unfolding decoded_len_from_base64
  size-le att = elim (Option-cases (settings.codec.b64decode att.content)) [
    | inl e ↦ ground arith
    | inr (bytes, e) ↦ ground (arith, c.bare att.content bytes e, c.sized att.content bytes e)
  ]

  -- what the limits say of an attachment and of the sum before it
  limits_lem :
      (total total' : ℕ) (att : Attachment)
      → check_limits settings total att ≡ ok total'
      → (size_of settings.codec att ≤ max_bytes_for att.type settings)
        × (total + size_of settings.codec att ≤ total')
        × (total' ≤ settings.attachment_total_bytes)
  unfolding check_limits
  limits_lem total total' att h = ground (arith, size-le att)

  abbrev Fits : List Attachment → Type 0
  Fits attachments =
      All (λ att. size_of settings.codec att ≤ max_bytes_for att.type settings) attachments

  prepare_lem :
      (attachments : List Attachment) (total : ℕ) (prepared : PreparedAttachments)
      → total ≤ settings.attachment_total_bytes
      → prepare_from settings py provider total attachments ≡ ok prepared
      → Fits attachments
        × (total + sum_of settings.codec attachments ≤ settings.attachment_total_bytes)
        × (length prepared.content_blocks ≡ length attachments)
        × (length prepared.placeholders ≡ length attachments)
  unfolding prepare_from
  prepare_lem [] total prepared t h = (tt, omega arith, ground arith, ground arith)
  prepare_lem (att ∷ attachments) total prepared t h =
      elim (Result-cases (check_limits settings total att)) [
        | inr (e, a) ↦ absurd (ground arith)
        | inl (total', a) ↦ elim (Result-cases (decode_one settings py provider att)) [
          | inr (e, b) ↦ absurd (ground arith)
          | inl ((block, note), b) ↦
              elim (Result-cases (prepare_from settings py provider total' attachments)) [
                | inr (e, d) ↦ absurd (ground arith)
                | inl (rest, d) ↦
                    let (own, sum, all) = limits_lem total total' att a in
                    let (fits, below, blocks, notes) = prepare_lem attachments total' rest all d in
                    ((own, fits), omega arith, ground arith, ground arith)
              ]
        ]
      ]

  -- With a strict base64 decoder, attachments that are accepted are no more than the limit, each
  -- has at most the bytes of its class and all together at most the total, in what is decoded
  -- and not only in what is guessed before; each has one content block and one placeholder.
  pub prepare_bounds :
      (attachments : List Attachment) (prepared : PreparedAttachments)
      → prepare_attachments settings py provider attachments ≡ ok prepared
      → (length attachments ≤ settings.attachment_max_count)
        × Fits attachments
        × (sum_of settings.codec attachments ≤ settings.attachment_total_bytes)
        × (length prepared.content_blocks ≡ length attachments)
        × (length prepared.placeholders ≡ length attachments)
  unfolding prepare_attachments
  prepare_bounds attachments prepared h =
      let run : prepare_from settings py provider 0 attachments ≡ ok prepared = ground arith in
      let (fits, sum, blocks, notes) = prepare_lem attachments 0 prepared (omega arith) run in
      (ground arith, fits, omega (arith, sum), blocks, notes)
