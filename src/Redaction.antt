-- ===== src/Redaction.antt =====
-- src/app/observability/redaction.py: what logs and audit rows hide. A tuple is an array here, and
-- every key is a text, as in what JSON decodes to.

pub mod Keys
pub mod Secrecy
pub mod Again
use model_lib.Base.{String, Bool, true, false, ◌||◌, List, [], ◌∷◌, if◌then◌else◌}
use model_lib.Base.Text.{Text, codes, text_eq, text_mem, ends_with, has_infix, lower}
use model_lib.Json.{Json, Fields, Items}
use model_lib.Json.{nil, cons, end, field}

unfoldable pub deny_substrings : List Text
deny_substrings =
    codes "key"
    ∷ codes "token"
    ∷ codes "secret"
    ∷ codes "password"
    ∷ codes "authorization"
    ∷ codes "credential"
    ∷ []

unfoldable pub deny_exact : List Text
deny_exact =
    codes "apikey"
    ∷ codes "transaction"
    ∷ codes "jws"
    ∷ codes "receipt"
    ∷ codes "dek"
    ∷ codes "nonce"
    ∷ codes "encrypted_key"
    ∷ codes "x-admin-token"
    ∷ codes "x_admin_token"
    ∷ []

unfoldable pub any_infix : List Text → Text → Bool
any_infix [] s = false
any_infix (sub ∷ subs) s = has_infix sub s || any_infix subs s

-- `_is_sensitive_key`
unfoldable pub is_sensitive_key : String → Bool
unfolding any_infix deny_exact deny_substrings
is_sensitive_key key =
    let lowered = lower (codes key) in
    if ends_with lowered (codes "status")
    then false
    else if text_mem lowered deny_exact
    then true
    else any_infix deny_substrings lowered

-- `REDACTED`
abbrev pub mask : Json
mask = Json.str (codes "***REDACTED***")

-- `k.lower() == "attachments"`
unfoldable pub is_attachments_key : String → Bool
is_attachments_key key = text_eq (lower (codes key)) (codes "attachments")

-- `k == "data"`
unfoldable pub is_data_key : String → Bool
is_data_key key = text_eq (codes key) (codes "data")

unfoldable mutual
  pub redact : Json → Json
  redact (Json.arr xs) = Json.arr (redact_items xs)
  redact (Json.obj fs) = Json.obj (redact_fields fs)
  redact v = v

  pub redact_items : Items → Items
  redact_items nil = nil
  redact_items (cons v xs) = cons (redact v) (redact_items xs)

  pub redact_fields : Fields → Fields
  redact_fields end = end
  redact_fields (field k v fs) =
      let hidden = redact_attachments v in
      let inner = redact v in
      let rest = redact_fields fs in
      if is_sensitive_key k
      then field k mask rest
      else if is_attachments_key k
      then field k hidden rest
      else field k inner rest

  -- `_redact_attachments`
  pub redact_attachments : Json → Json
  redact_attachments (Json.arr xs) = Json.arr (redact_attachment_items xs)
  redact_attachments (Json.obj fs) = Json.obj (redact_fields fs)
  redact_attachments v = v

  pub redact_attachment_items : Items → Items
  redact_attachment_items nil = nil
  redact_attachment_items (cons v xs) = cons (redact_item v) (redact_attachment_items xs)

  -- one item of the list
  pub redact_item : Json → Json
  redact_item (Json.obj fs) = Json.obj (redact_item_fields fs)
  redact_item (Json.arr xs) = Json.arr (redact_items xs)
  redact_item v = v

  pub redact_item_fields : Fields → Fields
  redact_item_fields end = end
  redact_item_fields (field k v fs) =
      let inner = redact v in
      let rest = redact_item_fields fs in
      if is_data_key k then field k mask rest else field k inner rest

-- `assert_no_secrets`
unfoldable pub assert_no_secrets : Fields → Fields
assert_no_secrets payload = redact_fields payload
