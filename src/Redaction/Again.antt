-- ===== src/Redaction/Again.antt =====
-- Redacting what src/app/observability/redaction.py has redacted.
use model_lib.Base.{◌≡◌, refl, ap, arith}
use model_lib.Json.{Json, Fields, Items}
use model_lib.Json.{nil, cons, end, field}
use model_lib.Redaction.{
  redact, redact_items, redact_fields, redact_attachments, redact_attachment_items, redact_item,
  redact_item_fields,
}

mutual
  unfolding redact

  value_again : (v : Json) → redact (redact v) ≡ redact v
  value_again (Json.arr xs) = ap Json.arr (items_again xs)
  value_again (Json.obj fs) = ap Json.obj (fields_again fs)
  value_again Json.null = refl
  value_again (Json.bool b) = refl
  value_again (Json.int n) = refl
  value_again (Json.float x) = refl
  value_again (Json.str s) = refl

  items_again : (xs : Items) → redact_items (redact_items xs) ≡ redact_items xs
  items_again nil = refl
  items_again (cons v xs) = grind (arith, value_again v, items_again xs)

  fields_again : (fs : Fields) → redact_fields (redact_fields fs) ≡ redact_fields fs
  fields_again end = refl
  fields_again (field k v fs) = grind (arith, value_again v, attachments_again v, fields_again fs)

  attachments_again : (v : Json) → redact_attachments (redact_attachments v) ≡ redact_attachments v
  attachments_again (Json.arr xs) = ap Json.arr (files_again xs)
  attachments_again (Json.obj fs) = ap Json.obj (fields_again fs)
  attachments_again Json.null = refl
  attachments_again (Json.bool b) = refl
  attachments_again (Json.int n) = refl
  attachments_again (Json.float x) = refl
  attachments_again (Json.str s) = refl

  files_again :
      (xs : Items)
      → redact_attachment_items (redact_attachment_items xs) ≡ redact_attachment_items xs
  files_again nil = refl
  files_again (cons v xs) = grind (arith, item_again v, files_again xs)

  item_again : (v : Json) → redact_item (redact_item v) ≡ redact_item v
  item_again (Json.arr xs) = ap Json.arr (items_again xs)
  item_again (Json.obj fs) = ap Json.obj (file_again fs)
  item_again Json.null = refl
  item_again (Json.bool b) = refl
  item_again (Json.int n) = refl
  item_again (Json.float x) = refl
  item_again (Json.str s) = refl

  file_again : (fs : Fields) → redact_item_fields (redact_item_fields fs) ≡ redact_item_fields fs
  file_again end = refl
  file_again (field k v fs) = grind (arith, value_again v, file_again fs)

-- A value that was redacted is redacted to itself.
redact-redact : (v : Json) → redact (redact v) ≡ redact v
redact-redact v = value_again v
