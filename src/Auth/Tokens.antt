-- ===== src/Auth/Tokens.antt =====
-- src/app/auth/service.py, the pairs of tokens: issued, rotated, and revoked where one is used twice.
-- The signature of an access token is the function `sign` (src/app/auth/issuer.py), the random texts
-- and ids are `Fresh`, and SHA-256 is the record `Jwt`'s.
use model_lib.Base.{
  ℕ, suc, ◌+◌, ◌*◌, Bool, not, ◌&&◌, Option, none, some, List, [], ◌∷◌, leb, ◌==◌, if◌then◌else◌,
}
use model_lib.Base.Text.{Text, text_eq, is_empty}
use model_lib.Errors.{AppError}
use model_lib.Json.{Runtime}
use model_lib.Tables.{AuthRefreshToken, Db}
use model_lib.Session.{
  Result, ok, err, Action, ⊤, pure, raise, raise_if, clock, modify, commit, ◌>>=◌, ◌>>◌,
}
use model_lib.Audit.{check_user}
use model_lib.Auth.Apple.{Jwt, AppleSettings, verify_apple}
use model_lib.Auth.Identity.{find_or_create_identity, resolve_apple_user, upsert_device}

pub record AuthSettings : Type 0 where
  -- a private key is configured
  pub configured : Bool
  -- the JWT of a user and a device at an instant
  pub sign : (now user_id : ℕ) → Text → Text
  pub access_ttl_seconds : ℕ
  pub auth_refresh_ttl_seconds : ℕ
  pub apple : AppleSettings
  pub jwt : Jwt

-- what `uuid.uuid4()` and `secrets.token_urlsafe` give to one call
pub record Fresh : Type 0 where
  pub new_user : ℕ
  pub second_user : ℕ
  pub device_id : Text
  pub refresh_token : Text

pub record IssuedTokens : Type 0 where
  pub user_id : ℕ
  pub device_id : Text
  pub access_token : Text
  pub expires_in : ℕ
  pub refresh_token : Text
  pub refresh_expires_in : ℕ

-- `_hash_refresh`
abbrev pub hash_refresh : AuthSettings → Text → Text
hash_refresh settings token = settings.jwt.sha256_hex token

-- SELECT ... WHERE token_hash
unfoldable pub find_token : Text → List AuthRefreshToken → Option AuthRefreshToken
find_token token_hash [] = none
find_token token_hash (row ∷ rows) =
    let rest = find_token token_hash rows in
    if text_eq row.token_hash token_hash then some row else rest

-- `_require_issuer`
unfoldable pub require_issuer : AuthSettings → Action ⊤
require_issuer settings = raise_if (not settings.configured) AppError.service_unavailable

-- FOREIGN KEY (device_id) REFERENCES auth_devices
unfoldable pub check_device : Text → Action ⊤
check_device device_id s = elim (s.current.auth_devices device_id) [
  | none ↦ (err AppError.database, s)
  | some _ ↦ (ok tt, s)
]

-- UNIQUE (token_hash)
unfoldable pub check_hash : Text → Action ⊤
unfolding find_token
check_hash token_hash s = elim (find_token token_hash s.current.auth_refresh_tokens) [
  | some _ ↦ (err AppError.database, s)
  | none ↦ (ok tt, s)
]

unfoldable pub add_token : ℕ → Text → Text → ℕ → Db → Db
add_token user_id device_id token_hash expires_at db = record db {
  auth_refresh_tokens =
      (record {
        id = db.next_id;
        user_id = user_id;
        device_id = device_id;
        token_hash = token_hash;
        expires_at = expires_at;
        used_at = none;
        revoked_at = none;
      })
      ∷ db.auth_refresh_tokens;
  next_id = suc db.next_id;
}

-- `_issue_pair`
unfoldable pub issue_pair : AuthSettings → Fresh → ℕ → Text → Action IssuedTokens
unfolding require_issuer check_device check_hash add_token
issue_pair settings fresh user_id device_id = do
  require_issuer settings
  now ← clock
  check_user user_id
  check_device device_id
  check_hash (hash_refresh settings fresh.refresh_token)
  modify (
      add_token user_id device_id (hash_refresh settings fresh.refresh_token)
        (now + settings.auth_refresh_ttl_seconds * 1000000))
  pure (record {
    user_id = user_id;
    device_id = device_id;
    access_token = settings.sign now user_id device_id;
    expires_in = settings.access_ttl_seconds;
    refresh_token = fresh.refresh_token;
    refresh_expires_in = settings.auth_refresh_ttl_seconds;
  })

-- `device_id or str(uuid.uuid4())`
unfoldable pub resolved_device_id : Fresh → Option Text → Text
resolved_device_id fresh none = fresh.device_id
resolved_device_id fresh (some device_id) =
    if is_empty device_id then fresh.device_id else device_id

unfoldable pub register_or_token : AuthSettings → Fresh → Option Text → Action IssuedTokens
unfolding require_issuer resolved_device_id
register_or_token settings fresh device_id = do
  require_issuer settings
  user_id ← find_or_create_identity fresh.new_user (resolved_device_id fresh device_id)
  tokens ← issue_pair settings fresh user_id (resolved_device_id fresh device_id)
  commit
  pure tokens

-- the result of the verifier, which reads no database
unfoldable pub lift : {A : Type 0} → Result A → Action A
lift r s = (r, s)

-- the end of a sign-in: the device is the user's, and a pair is issued
unfoldable pub bind_and_issue : AuthSettings → Fresh → Text → ℕ → Action IssuedTokens
unfolding issue_pair
bind_and_issue settings fresh device_id target = do
  upsert_device device_id target
  tokens ← issue_pair settings fresh target device_id
  commit
  pure tokens

unfoldable pub sign_in_with_apple :
    Runtime
    → AuthSettings
    → Fresh
    → (identity_token : Text) → (device_id client_nonce : Option Text) → Action IssuedTokens
unfolding require_issuer resolved_device_id lift bind_and_issue
sign_in_with_apple py settings fresh token device_id client_nonce = do
  require_issuer settings
  identity ← lift (verify_apple py settings.apple settings.jwt token client_nonce)
  target ←
      resolve_apple_user fresh.new_user fresh.second_user identity.apple_sub identity.email
        (resolved_device_id fresh device_id)
  bind_and_issue settings fresh (resolved_device_id fresh device_id) target

-- `UPDATE auth_refresh_tokens SET used_at = now() WHERE id`
unfoldable pub mark_used : (id now : ℕ) → List AuthRefreshToken → List AuthRefreshToken
mark_used id now [] = []
mark_used id now (row ∷ rows) =
    (if row.id == id then record row { used_at = some now } else row) ∷ mark_used id now rows

abbrev pub in_chain : ℕ → Text → AuthRefreshToken → Bool
in_chain user_id device_id row = (row.user_id == user_id) && text_eq row.device_id device_id

unfoldable pub revoke_row : (now : ℕ) → AuthRefreshToken → AuthRefreshToken
revoke_row now row = elim row.revoked_at [
  | none ↦ record row { revoked_at = some now }
  | some _ ↦ row
]

unfoldable pub revoke_rows : ℕ → Text → (now : ℕ) → List AuthRefreshToken → List AuthRefreshToken
unfolding revoke_row
revoke_rows user_id device_id now [] = []
revoke_rows user_id device_id now (row ∷ rows) =
    (if in_chain user_id device_id row then revoke_row now row else row)
    ∷ revoke_rows user_id device_id now rows

-- `_revoke_chain`
unfoldable pub revoke_chain : ℕ → Text → Action ⊤
unfolding revoke_rows
revoke_chain user_id device_id = do
  now ← clock
  modify (λ db. record db {
    auth_refresh_tokens = revoke_rows user_id device_id now db.auth_refresh_tokens;
  })

unfoldable pub is_past : (expires_at now : ℕ) → Bool
is_past expires_at now = leb expires_at now

-- a token that was used before: its device's chain is revoked, and that is committed
unfoldable pub reuse_detected : AuthRefreshToken → Action IssuedTokens
unfolding revoke_chain
reuse_detected row = do revoke_chain row.user_id row.device_id; commit; raise AppError.unauthorized

unfoldable pub rotate : AuthSettings → Fresh → AuthRefreshToken → Action IssuedTokens
unfolding mark_used issue_pair is_past
rotate settings fresh row = do
  now ← clock
  raise_if (is_past row.expires_at now) AppError.unauthorized
  modify (λ db. record db { auth_refresh_tokens = mark_used row.id now db.auth_refresh_tokens })
  tokens ← issue_pair settings fresh row.user_id row.device_id
  commit
  pure tokens

-- the checks on the row of the presented token, in the code's order
unfoldable pub refresh_row : AuthSettings → Fresh → AuthRefreshToken → Action IssuedTokens
unfolding reuse_detected rotate
refresh_row settings fresh row = elim row.used_at [
  | some _ ↦ reuse_detected row
  | none ↦ elim row.revoked_at [
    | some _ ↦ raise AppError.unauthorized
    | none ↦ rotate settings fresh row
  ]
]

unfoldable pub refresh_token_row : AuthSettings → Fresh → Text → Action IssuedTokens
unfolding find_token refresh_row
refresh_token_row settings fresh token s =
    elim (find_token (hash_refresh settings token) s.current.auth_refresh_tokens) [
      | none ↦ (err AppError.unauthorized, s)
      | some row ↦ refresh_row settings fresh row s
    ]

unfoldable pub refresh : AuthSettings → Fresh → Text → Action IssuedTokens
unfolding require_issuer refresh_token_row
refresh settings fresh token = do require_issuer settings; refresh_token_row settings fresh token
