-- ===== src/Tests/Identities.antt =====
-- Devices, Apple accounts and refresh tokens.
use model_lib.Base.{ℕ, suc, ◌≡◌, refl, true, false, none, some, List, [], ◌∷◌}
use model_lib.Base.Text.{Text, codes, text_eq, is_empty}
use model_lib.Errors.{AppError}
use model_lib.Json.{Json, Fields, get, truthy, text_of}
use model_lib.Session.{Session, Result, err, session_scope}
use model_lib.Auth.Apple.{Jwt, AppleSettings, VerifiedAppleIdentity, verify_apple}
use model_lib.Auth.Trust.{IsVouched, verify_apple_sound}
use model_lib.Auth.Tokens.{
  AuthSettings, Fresh, IssuedTokens, register_or_token, sign_in_with_apple, refresh, issue_pair,
}
use model_lib.Auth.Identity.{find_or_create_identity, resolve_apple_user, upsert_device}
use model_lib.Auth.Refresh.{refresh-refresh}
use model_lib.Auth.SameUser.{AuthCall, run_auth, auth_call, sign_in-sign_in}
use model_lib.Json.{lookup}
use model_lib.Audit.{check_user}
use model_lib.Tests.Data.{request, key_1, first_python}

-- one Apple account, whose tokens any key decodes
abbrev claims : Fields
claims = Fields.field "sub" (Json.str (codes "apple-1")) Fields.end

abbrev jwt : Jwt
jwt = record {
  get_unverified_header = λ t. some Fields.end;
  get_signing_key = λ t. some key_1;
  decode = λ t k a i d. some claims;
  sha256_hex = λ t. t;
}

abbrev apple : AppleSettings
apple = record { issuer = key_1; audience = key_1; apple_test_mode = false; apple_test_secret = [] }

abbrev settings : AuthSettings
settings = record {
  configured = true;
  sign = λ now user_id device_id. [];
  access_ttl_seconds = 900;
  auth_refresh_ttl_seconds = 3600;
  apple = apple;
  jwt = jwt;
}

abbrev fresh : ℕ → Text → Fresh
fresh n token = record {
  new_user = n;
  second_user = suc n;
  device_id = token;
  refresh_token = token;
}

abbrev identity : VerifiedAppleIdentity
identity = record { apple_sub = codes "apple-1"; email = Json.null; email_verified = false }

verify_apple_sound_example : IsVouched first_python apple jwt key_1 none identity
unfolding verify_apple is_empty text_eq lookup truthy get text_of
verify_apple_sound_example = verify_apple_sound first_python apple jwt key_1 none identity refl

abbrev phone : Text
phone = codes "phone"

abbrev tokens : ℕ → Text → Text → IssuedTokens
tokens user_id device_id token = record {
  user_id = user_id;
  device_id = device_id;
  access_token = [];
  expires_in = 900;
  refresh_token = token;
  refresh_expires_in = 3600;
}

abbrev registered : Session
registered = (register_or_token settings (fresh 20 (codes "r1")) (some phone) request).1

-- the first token exchanged, and presented again
abbrev exchanged : Session
exchanged = (refresh settings (fresh 40 (codes "r3")) (codes "r1") registered).1

abbrev reused : Session
reused = (refresh settings (fresh 50 (codes "r4")) (codes "r1") exchanged).1

abbrev refused : Result IssuedTokens
refused = err AppError.unauthorized

refresh-refresh_example :
    (refused ≡ err AppError.unauthorized)
    × (reused.committed ≡ reused.current)
    × ((s₄ : Session)
        → s₄.current ≡ reused.current
        → (refresh settings (fresh 60 (codes "r5")) (codes "r3") s₄).0 ≡ err AppError.unauthorized)
unfolding refresh is_empty register_or_token find_or_create_identity text_eq issue_pair check_user
refresh-refresh_example =
    refresh-refresh settings (fresh 40 (codes "r3")) (fresh 50 (codes "r4")) (fresh 60 (codes "r5"))
      (codes "r1") registered exchanged exchanged reused (tokens 20 phone (codes "r3")) refused refl
      refl refl

-- between two sign-ins from two devices, the first device registers
abbrev between : List (ℕ × AuthCall)
between = (200000000000000, AuthCall.register (fresh 70 (codes "r6")) (some phone)) ∷ []

sign_in-sign_in_example :
    (tokens 20 (codes "tablet") (codes "r7")).user_id ≡ (tokens 20 phone (codes "r1")).user_id
unfolding verify_apple is_empty text_eq lookup truthy get text_of session_scope sign_in_with_apple
    resolve_apple_user check_user upsert_device run_auth auth_call register_or_token issue_pair
    find_or_create_identity
sign_in-sign_in_example =
    sign_in-sign_in first_python settings (fresh 20 (codes "r1")) (fresh 80 (codes "r7")) key_1
      key_1 (some phone) (some (codes "tablet")) none none between 300000000000000 request
      (tokens 20 phone (codes "r1")) (tokens 20 (codes "tablet") (codes "r7")) identity identity
      refl refl refl refl refl
