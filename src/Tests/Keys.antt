-- ===== src/Tests/Keys.antt =====
-- Keys that users bring.
use model_lib.Base.{◌≡◌, refl, sym, false, some, [], ◌∷◌}
use model_lib.Base.Text.{Text, codes, text_eq, starts_with, lower, strip}
use model_lib.Tables.{ByokState}
use model_lib.Session.{Session, ok, session_scope}
use model_lib.Byok.Keys.{Cipher, Entropy, KeyValidation, ByokSettings, detect_byok_provider}
use model_lib.Byok.Service.{ByokResult, set_key, get_plaintext_key_with_provider}
use model_lib.Byok.Sealing.{IsLossless, set_key_roundtrip}
use model_lib.Byok.Status.{KeyCall, call_byok, IsGood, call_request-IsGood}
use model_lib.Audit.{check_user, record_event}
use model_lib.Tests.Data.{request}

-- a cipher that puts the key and the nonce aside, and a text that is its own encoding
abbrev cipher : Cipher
cipher = record {
  encrypt = λ key n content. content;
  decrypt = λ key n content. some content;
  encode = λ t. some t;
  decode = λ b. some b;
}

cipher-IsLossless : IsLossless cipher
cipher-IsLossless = record { opens = λ key n content. refl; decodes = λ t bytes e. sym e }

abbrev settings : ByokSettings
settings = record {
  byok_default_model = codes "claude";
  openai_byok_default_model = codes "gpt";
  llm_provider = codes "anthropic";
  master_key = [];
  cipher = cipher;
  validate_key = λ provider key. KeyValidation.accepted;
}

abbrev entropy : Entropy
entropy = record {
  dek = 1 ∷ 2 ∷ [];
  nonce = 3 ∷ [];
  wrap_nonce = 1 ∷ 2 ∷ 3 ∷ 4 ∷ 5 ∷ 6 ∷ 7 ∷ 8 ∷ 9 ∷ 10 ∷ 11 ∷ 12 ∷ [];
}

abbrev api_key : Text
api_key = codes "sk-ant-1"

abbrev stored : Session
stored = (set_key settings entropy 1 api_key request).1

abbrev result_of_row : ByokResult
result_of_row = record {
  byok_enabled = false;
  key_status = ByokState.valid;
  active_model = some (codes "claude");
}

set_key_roundtrip_example :
    get_plaintext_key_with_provider settings 1 stored
    ≡ (ok (some (api_key, detect_byok_provider api_key)), stored)
unfolding set_key detect_byok_provider starts_with strip check_user record_event text_eq lower
set_key_roundtrip_example =
    set_key_roundtrip settings cipher-IsLossless entropy refl 1 api_key request stored result_of_row
      refl

call_request-IsGood_example :
    IsGood (session_scope (call_byok settings 1 (KeyCall.set entropy api_key)) request).1.committed
call_request-IsGood_example =
    call_request-IsGood settings 1 (KeyCall.set entropy api_key) request refl (λ u. tt)
