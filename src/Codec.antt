-- ===== src/Codec.antt =====
-- Encodings of the standard library (base64, UTF-8, HMAC-SHA256, `int` of a text), an argument of the
-- definitions that use them.
use model_lib.Base.{ℕ, Option, List}
use model_lib.Base.Int.{ℤ}
use model_lib.Base.Text.{Text}

pub record Codec : Type 0 where
  -- `base64.urlsafe_b64encode`, and `base64.urlsafe_b64decode` with `none` for an exception
  pub urlsafe_b64encode : List ℕ → Text
  pub urlsafe_b64decode : Text → Option (List ℕ)
  -- `base64.b64encode`, and `base64.b64decode(validate=True)` with `none` for an exception
  pub b64encode : List ℕ → Text
  pub b64decode : Text → Option (List ℕ)
  -- `hmac.new(key, msg, sha256).digest()`, with the key as the text that is encoded
  pub hmac_sha256 : (secret : Text) → (message : List ℕ) → List ℕ
  -- `int(text)`; `none` for `ValueError`
  pub int_of_text : Text → Option ℤ
  -- `str.encode("utf-8")` and `bytes.decode("utf-8")`; `none` for `UnicodeError`
  pub encode : Text → Option (List ℕ)
  pub decode : List ℕ → Option Text
