-- ===== src/Byok/Keys.antt =====
-- src/app/byok/provider_detect.py and src/app/byok/kms.py, with the model names that
-- src/app/byok/service.py answers: whose key it is, and what encrypts it. AES-GCM and UTF-8 are the record `Cipher`; what
-- `os.urandom` gives is an argument; the provider's answer to the key is the function `validate_key`.
use model_lib.Base.{ℕ, Option, none, some, List, ◌++◌, if◌then◌else◌, take, drop}
use model_lib.Base.Text.{Text, codes, text_eq, starts_with, lower, strip}
use model_lib.Tables.{ByokState}

pub record Cipher : Type 0 where
  -- `AESGCM(key).encrypt(nonce, data, None)`
  pub encrypt : (key nonce content : List ℕ) → List ℕ
  -- `AESGCM(key).decrypt(nonce, data, None)`; `none` for `InvalidTag`
  pub decrypt : (key nonce content : List ℕ) → Option (List ℕ)
  -- `str.encode("utf-8")` and `bytes.decode("utf-8")`; `none` for `UnicodeError`
  pub encode : Text → Option (List ℕ)
  pub decode : List ℕ → Option Text

-- the random bytes of one call of `set_key`
pub record Entropy : Type 0 where
  pub dek : List ℕ
  pub nonce : List ℕ
  pub wrap_nonce : List ℕ

pub data KeyValidation : Type 0 where
  accepted rejected offline : KeyValidation

pub record ByokSettings : Type 0 where
  pub byok_default_model : Text
  pub openai_byok_default_model : Text
  pub llm_provider : Text
  -- `KMS_LOCAL_MASTER_KEY`, decoded
  pub master_key : List ℕ
  pub cipher : Cipher
  pub validate_key : (provider api_key : Text) → KeyValidation

unfoldable pub detect_byok_provider : Text → Option Text
detect_byok_provider api_key =
    if starts_with (strip api_key) (codes "sk-ant-")
    then some (codes "anthropic")
    else if starts_with (strip api_key) (codes "sk-proj-")
    then some (codes "openai")
    else if starts_with (strip api_key) (codes "sk-")
    then some (codes "openai")
    else none

-- `Settings.byok_default_model_for`
unfoldable pub byok_default_model_for : ByokSettings → Text → Text
byok_default_model_for settings provider =
    if text_eq (lower (strip provider)) (codes "openai")
    then settings.openai_byok_default_model
    else settings.byok_default_model

unfoldable pub model_of_provider : ByokSettings → Option Text → Text
unfolding byok_default_model_for
model_of_provider settings none =
    byok_default_model_for settings (lower (strip settings.llm_provider))
model_of_provider settings (some provider) = byok_default_model_for settings provider

-- `_active_model_for`
unfoldable pub active_model_for : ByokSettings → ByokState → Option Text → Option Text
unfolding model_of_provider
active_model_for settings ByokState.valid provider = some (model_of_provider settings provider)
active_model_for settings _ provider = none

abbrev pub local_nonce_len : ℕ
local_nonce_len = 12

-- `LocalKmsClient.encrypt_dek`
unfoldable pub encrypt_dek : ByokSettings → (wrap_nonce dek : List ℕ) → List ℕ
encrypt_dek settings wrap_nonce dek =
    wrap_nonce ++ settings.cipher.encrypt settings.master_key wrap_nonce dek

-- `LocalKmsClient.decrypt_dek`
unfoldable pub decrypt_dek : ByokSettings → List ℕ → Option (List ℕ)
decrypt_dek settings encrypted =
    settings.cipher.decrypt settings.master_key (take local_nonce_len encrypted)
      (drop local_nonce_len encrypted)
