-- ===== src/Auth/Apple.antt =====
-- src/app/auth/apple.py: the verification of an Apple identity token. PyJWT is the record `Jwt`, and
-- the settings are those that the constructor reads.
use model_lib.Base.{Bool, true, not, ◌&&◌, Option, none, some, [], if◌then◌else◌}
use model_lib.Base.Text.{Text, codes, text_eq, is_empty}
use model_lib.Errors.{AppError}
use model_lib.Json.{Json, Fields, Runtime, get, truthy, text_of}
use model_lib.Session.{Result, ok, err}
use model_lib.Json.{lookup}

pub record Jwt : Type 0 where
  -- `jwt.get_unverified_header`; `none` for `InvalidTokenError`
  pub get_unverified_header : Text → Option Fields
  -- the key of `PyJWKClient.get_signing_key_from_jwt`; `none` for the errors that are caught
  pub get_signing_key : Text → Option Text
  -- `jwt.decode` with the four required claims; `none` for `InvalidTokenError`
  pub decode : (token key algorithm issuer audience : Text) → Option Fields
  -- `hashlib.sha256(text.encode("utf-8")).hexdigest()`
  pub sha256_hex : Text → Text

pub record AppleSettings : Type 0 where
  pub issuer : Text
  -- empty when no audience is configured
  pub audience : Text
  pub apple_test_mode : Bool
  pub apple_test_secret : Text

pub record VerifiedAppleIdentity : Type 0 where
  pub apple_sub : Text
  pub email : Json
  pub email_verified : Bool

abbrev pub or_unauthorized {ℓ} : {A : Type ℓ} → Option A → Result A
or_unauthorized none = err AppError.unauthorized
or_unauthorized (some a) = ok a

-- `self._test_mode`
unfoldable pub is_test_mode : AppleSettings → Bool
is_test_mode settings = settings.apple_test_mode && not (is_empty settings.apple_test_secret)

-- `_decode_real`
unfoldable pub decode_real : AppleSettings → Jwt → Text → Result Fields
decode_real settings jwt token = elim (jwt.get_signing_key token) [
  | none ↦ err AppError.unauthorized
  | some key ↦
      or_unauthorized (jwt.decode token key (codes "RS256") settings.issuer settings.audience)
]

-- `_decode_test`
unfoldable pub decode_test : AppleSettings → Jwt → Text → Result Fields
decode_test settings jwt token =
    or_unauthorized (
      jwt.decode token settings.apple_test_secret (codes "HS256") settings.issuer settings.audience)

-- `str(header.get("alg", ""))`
unfoldable pub alg_of : Runtime → Fields → Text
alg_of py header = elim (lookup "alg" header) [ none ↦ [] | some v ↦ text_of py v ]

-- the branch by the algorithm of the header
unfoldable pub claims_of : Runtime → AppleSettings → Jwt → Text → Fields → Result Fields
unfolding alg_of is_test_mode decode_test decode_real
claims_of py settings jwt token header =
    if text_eq (alg_of py header) (codes "HS256")
    then if is_test_mode settings then decode_test settings jwt token else err AppError.unauthorized
    else decode_real settings jwt token

-- `_check_nonce`: passes unless both sides are there and differ
unfoldable pub nonce_matches : Runtime → Jwt → Fields → Option Text → Bool
nonce_matches py jwt claims none = true
nonce_matches py jwt claims (some nonce) =
    if truthy (get "nonce" claims) && not (is_empty nonce)
    then text_eq (jwt.sha256_hex nonce) (text_of py (get "nonce" claims))
    else true

unfoldable pub identity_of : Runtime → Jwt → Fields → Option Text → Result VerifiedAppleIdentity
unfolding nonce_matches
identity_of py jwt claims nonce =
    if not (nonce_matches py jwt claims nonce)
    then err AppError.unauthorized
    else if not (truthy (get "sub" claims))
    then err AppError.unauthorized
    else ok (record {
      apple_sub = text_of py (get "sub" claims);
      email = get "email" claims;
      email_verified = truthy (get "email_verified" claims);
    })

-- `AppleIdentityVerifier.verify`
unfoldable pub verify_apple :
    Runtime
    → AppleSettings
    → Jwt
    → (identity_token : Text) → (nonce : Option Text) → Result VerifiedAppleIdentity
unfolding claims_of identity_of
verify_apple py settings jwt token nonce =
    if is_empty settings.audience
    then err AppError.service_unavailable
    else elim (jwt.get_unverified_header token) [
      | none ↦ err AppError.unauthorized
      | some header ↦ elim (claims_of py settings jwt token header) [
        | err e ↦ err e
        | ok claims ↦ identity_of py jwt claims nonce
      ]
    ]
