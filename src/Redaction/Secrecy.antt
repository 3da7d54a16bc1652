-- ===== src/Redaction/Secrecy.antt =====
-- What src/app/observability/redaction.py keeps out of logs and audit rows.
use model_lib.Base.{String, ◌≡◌, ◌≢◌, Bool-cases, inl, inr, refl, ap, true, false, arith}
use model_lib.Json.{Json, Fields, Items}
use model_lib.Json.{nil, cons, end, field}
use model_lib.Redaction.{
  redact, redact_items, redact_fields, redact_attachment_items, redact_item_fields,
  redact_attachments, is_attachments_key, is_data_key,
}
use model_lib.Base.Text.{codes, text_eq, text_eq_iff, lower}
use model_lib.Redaction.Keys.{IsSecret, is_sensitive_key_lem}

-- Two values that differ in nothing but what stands under a secret key, at any depth, and in the
-- `data` of the objects of a list under `attachments`. Inside such an object, a secret key counts
-- below its own fields.
mutual
  pub data Alike : Json → Json → Type 0 where
    same : {v : Json} → Alike v v
    arr : {xs ys : Items} → AlikeItems xs ys → Alike (Json.arr xs) (Json.arr ys)
    obj : {fs gs : Fields} → AlikeFields fs gs → Alike (Json.obj fs) (Json.obj gs)

  pub data AlikeItems : Items → Items → Type 0 where
    none_left : AlikeItems nil nil
    item :
        {v w : Json} {xs ys : Items}
        → Alike v w
        → AlikeItems xs ys
        → AlikeItems (cons v xs) (cons w ys)

  pub data AlikeFields : Fields → Fields → Type 0 where
    last : AlikeFields end end
    secret :
        {k : String} {v w : Json} {fs gs : Fields}
        → IsSecret k
        → AlikeFields fs gs
        → AlikeFields (field k v fs) (field k w gs)
    attachments :
        {k : String} {v w : Json} {fs gs : Fields}
        → lower (codes k) ≡ codes "attachments"
        → AlikeAttachments v w
        → AlikeFields fs gs
        → AlikeFields (field k v fs) (field k w gs)
    plain :
        {k : String} {v w : Json} {fs gs : Fields}
        → lower (codes k) ≢ codes "attachments"
        → Alike v w
        → AlikeFields fs gs
        → AlikeFields (field k v fs) (field k w gs)
    equal :
        {k : String} {v : Json} {fs gs : Fields}
        → AlikeFields fs gs
        → AlikeFields (field k v fs) (field k v gs)

  -- what stands under `attachments`: a list of files, or an object like any other
  pub data AlikeAttachments : Json → Json → Type 0 where
    files : {xs ys : Items} → AlikeFiles xs ys → AlikeAttachments (Json.arr xs) (Json.arr ys)
    object : {fs gs : Fields} → AlikeFields fs gs → AlikeAttachments (Json.obj fs) (Json.obj gs)

  pub data AlikeFiles : Items → Items → Type 0 where
    no_file : AlikeFiles nil nil
    file :
        {fs gs : Fields} {xs ys : Items}
        → AlikeFile fs gs
        → AlikeFiles xs ys
        → AlikeFiles (cons (Json.obj fs) xs) (cons (Json.obj gs) ys)
    nested :
        {vs ws xs ys : Items}
        → AlikeItems vs ws
        → AlikeFiles xs ys
        → AlikeFiles (cons (Json.arr vs) xs) (cons (Json.arr ws) ys)
    scalar : {v : Json} {xs ys : Items} → AlikeFiles xs ys → AlikeFiles (cons v xs) (cons v ys)

  pub data AlikeFile : Fields → Fields → Type 0 where
    file_end : AlikeFile end end
    content :
        {k : String} {v w : Json} {fs gs : Fields}
        → codes k ≡ codes "data"
        → AlikeFile fs gs
        → AlikeFile (field k v fs) (field k w gs)
    about :
        {k : String} {v w : Json} {fs gs : Fields}
        → Alike v w
        → AlikeFile fs gs
        → AlikeFile (field k v fs) (field k w gs)

attachments_found :
    (k : String) → lower (codes k) ≡ codes "attachments" → is_attachments_key k ≡ true
unfolding is_attachments_key
attachments_found k e = (text_eq_iff (lower (codes k)) (codes "attachments")).1 e

attachments_not_found :
    (k : String) → lower (codes k) ≢ codes "attachments" → is_attachments_key k ≡ false
unfolding is_attachments_key
attachments_not_found k n = elim (Bool-cases (text_eq (lower (codes k)) (codes "attachments"))) [
  | inl e ↦ absurd (n ((text_eq_iff (lower (codes k)) (codes "attachments")).0 e))
  | inr e ↦ e
]

data_found : (k : String) → codes k ≡ codes "data" → is_data_key k ≡ true
unfolding is_data_key
data_found k e = (text_eq_iff (codes k) (codes "data")).1 e

mutual
  unfolding redact

  redact-Alike : {v w : Json} → Alike v w → redact v ≡ redact w
  redact-Alike same = refl
  redact-Alike (arr h) = ap Json.arr (redact_items-Alike h)
  redact-Alike (obj h) = ap Json.obj (redact_fields-Alike h)

  redact_items-Alike : {xs ys : Items} → AlikeItems xs ys → redact_items xs ≡ redact_items ys
  redact_items-Alike none_left = refl
  redact_items-Alike (item h hs) = grind (arith, redact-Alike h, redact_items-Alike hs)

  redact_fields-Alike : {fs gs : Fields} → AlikeFields fs gs → redact_fields fs ≡ redact_fields gs
  redact_fields-Alike last = refl
  redact_fields-Alike (secret {k = k} e hs) =
      grind (arith, is_sensitive_key_lem k e, redact_fields-Alike hs)
  redact_fields-Alike (attachments {k = k} e h hs) =
      grind (arith, attachments_found k e, redact_attachments-Alike h, redact_fields-Alike hs)
  redact_fields-Alike (plain {k = k} e h hs) =
      grind (arith, attachments_not_found k e, redact-Alike h, redact_fields-Alike hs)
  redact_fields-Alike (equal hs) = grind (arith, redact_fields-Alike hs)

  redact_attachments-Alike :
      {v w : Json} → AlikeAttachments v w → redact_attachments v ≡ redact_attachments w
  redact_attachments-Alike (files h) = ap Json.arr (redact_files-Alike h)
  redact_attachments-Alike (object h) = ap Json.obj (redact_fields-Alike h)

  redact_files-Alike :
      {xs ys : Items} → AlikeFiles xs ys → redact_attachment_items xs ≡ redact_attachment_items ys
  redact_files-Alike no_file = refl
  redact_files-Alike (file h hs) = grind (arith, redact_file-Alike h, redact_files-Alike hs)
  redact_files-Alike (nested h hs) = grind (arith, redact_items-Alike h, redact_files-Alike hs)
  redact_files-Alike (scalar hs) = grind (arith, redact_files-Alike hs)

  redact_file-Alike :
      {fs gs : Fields} → AlikeFile fs gs → redact_item_fields fs ≡ redact_item_fields gs
  redact_file-Alike file_end = refl
  redact_file-Alike (content {k = k} e hs) = grind (arith, data_found k e, redact_file-Alike hs)
  redact_file-Alike (about h hs) = grind (arith, redact-Alike h, redact_file-Alike hs)

-- Two payloads that differ in nothing but what stands under a secret key at any depth, and in
-- the `data` of the objects of a list under `attachments`, are redacted to the same, where a
-- secret key is one of the secret names or has a secret part and ends in no `status`, in letters
-- of any case. A secret key among the own fields of such an object is no part of it.
pub redact_secrecy : {v w : Json} → Alike v w → redact v ≡ redact w
redact_secrecy h = redact-Alike h
