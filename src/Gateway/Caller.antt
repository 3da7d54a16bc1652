-- ===== src/Gateway/Caller.antt =====
-- src/app/deps.py, src/app/api_gateway/auth.py and src/app/billing_adapty/auth.py: who a request is
-- from. PyJWT is two functions; `hmac.compare_digest` is equality.
use model_lib.Base.{
  ℕ, zero, suc, ◌-◌, Bool, not, ◌&&◌, ◌||◌, Option, none, some, List, [], ◌∷◌, ◌==◌, if◌then◌else◌,
  length,
}
use model_lib.Base.Int.{ℤ, pos}
use model_lib.Base.Text.{Text, codes, text_eq, is_empty, starts_with, lower, strip}
use model_lib.Errors.{AppError}
use model_lib.Json.{Fields, Runtime, get, truthy, text_of}
use model_lib.Session.{Result, ok, err, Action, ⊤, raise, raise_if}

pub record GatewaySettings : Type 0 where
  -- `JwtVerifier._signing_key`; `none` where it raises
  pub signing_key : Text → Option Text
  -- `jwt.decode` with the key; `none` for `InvalidTokenError`
  pub decode : (token key : Text) → Option Fields
  pub admin_api_secret : Text
  pub admin_api_secret_prev : Text
  pub adapty_webhook_secret : Text
  -- `ip_address(ip)` is one of `trusted_proxy_networks()`
  pub is_trusted_proxy : Text → Bool
  pub trusted_proxy_hop_count : ℤ

-- the user of verified claims
unfoldable pub user_of_claims : Runtime → Fields → Result ℕ
user_of_claims py claims =
    if not (truthy (get "sub" claims))
    then err AppError.unauthorized
    else elim (py.uuid (text_of py (get "sub" claims))) [
      | none ↦ err AppError.unauthorized
      | some user_id ↦ ok user_id
    ]

-- `JwtVerifier.verify`
unfoldable pub verify_jwt : Runtime → GatewaySettings → Text → Result ℕ
unfolding user_of_claims
verify_jwt py settings token = elim (settings.signing_key token) [
  | none ↦ err AppError.unauthorized
  | some key ↦ elim (settings.decode token key) [
    | none ↦ err AppError.unauthorized
    | some claims ↦ user_of_claims py claims
  ]
]

-- what follows the first space
unfoldable pub after_space : Text → Text
after_space [] = []
after_space (c ∷ s) = if c == 32 then s else after_space s

unfoldable pub verify_bearer_token : Runtime → GatewaySettings → Option Text → Result ℕ
unfolding verify_jwt after_space
verify_bearer_token py settings none = err AppError.unauthorized
verify_bearer_token py settings (some authorization) =
    if starts_with (lower authorization) (codes "bearer ")
    then verify_jwt py settings (strip (after_space authorization))
    else err AppError.unauthorized

-- `require_owner`
unfoldable pub require_owner : (body_user_id user_id : ℕ) → Action ⊤
require_owner body_user_id user_id = raise_if (not (body_user_id == user_id)) AppError.forbidden

-- one configured secret; an empty one never matches
unfoldable pub matches_secret : Text → Text → Bool
matches_secret presented candidate = not (is_empty candidate) && text_eq presented candidate

-- `_admin_token_matches`
unfoldable pub admin_token_matches : GatewaySettings → Text → Bool
unfolding matches_secret
admin_token_matches settings presented =
    matches_secret presented settings.admin_api_secret
    || matches_secret presented settings.admin_api_secret_prev

unfoldable pub require_admin : GatewaySettings → Option Text → Action ⊤
unfolding admin_token_matches
require_admin settings none = raise AppError.unauthorized
require_admin settings (some token) =
    raise_if (not (admin_token_matches settings token)) AppError.unauthorized

-- `require_adapty_webhook`, on the credentials of the Authorization header; an unset secret is the
-- server's own error
unfoldable pub require_adapty_webhook : GatewaySettings → Option Text → Action ⊤
require_adapty_webhook settings none = raise (
    if is_empty settings.adapty_webhook_secret
    then AppError.adapty_webhook_misconfigured
    else AppError.unauthorized)
require_adapty_webhook settings (some presented) =
    if is_empty settings.adapty_webhook_secret
    then raise AppError.adapty_webhook_misconfigured
    else raise_if (not (text_eq presented settings.adapty_webhook_secret)) AppError.unauthorized

-- `text.split(",")`
unfoldable pub split_commas : Text → List Text
split_commas [] = [] ∷ []
split_commas (c ∷ s) =
    let rest = split_commas s in
    if c == 44 then [] ∷ rest else elim rest [ [] ↦ (c ∷ []) ∷ [] | t ∷ ts ↦ (c ∷ t) ∷ ts ]

-- the stripped entries that are not empty
unfoldable pub hops_of : List Text → List Text
hops_of [] = []
hops_of (h ∷ hs) = let rest = hops_of hs in if is_empty (strip h) then rest else strip h ∷ rest

unfoldable pub nth_or : Text → ℕ → List Text → Text
nth_or default n [] = default
nth_or default zero (h ∷ hs) = h
nth_or default (suc n) (h ∷ hs) = nth_or default n hs

-- `max(trusted_proxy_hop_count, 1)`
unfoldable pub own_hops : ℤ → ℕ
own_hops (pos (suc n)) = suc n
own_hops _ = 1

-- `hops[max(len(hops) - hop_count - 1, 0)]`
unfoldable pub client_hop : ℤ → Text → List Text → Text
unfolding nth_or own_hops
client_hop hop_count first hops =
    nth_or first (length (first ∷ hops) - own_hops hop_count - 1) (first ∷ hops)

-- the header X-Real-IP, or the peer
unfoldable pub real_ip_or : Text → Option Text → Text
real_ip_or peer none = peer
real_ip_or peer (some real_ip) = if is_empty real_ip then peer else strip real_ip

unfoldable pub forwarded_client : GatewaySettings → Text → List Text → Option Text → Text
unfolding client_hop real_ip_or
forwarded_client settings peer [] real_ip = real_ip_or peer real_ip
forwarded_client settings peer (h ∷ hs) real_ip = client_hop settings.trusted_proxy_hop_count h hs

-- the entries of the header X-Forwarded-For
unfoldable pub forwarded_hops : Option Text → List Text
unfolding split_commas hops_of
forwarded_hops none = []
forwarded_hops (some header) = hops_of (split_commas header)

-- `client_ip`
unfoldable pub client_ip :
    GatewaySettings → (peer forwarded_for real_ip : Option Text) → Option Text
unfolding forwarded_client forwarded_hops
client_ip settings none forwarded_for real_ip = none
client_ip settings (some peer) forwarded_for real_ip =
    if settings.is_trusted_proxy peer
    then some (forwarded_client settings peer (forwarded_hops forwarded_for) real_ip)
    else some peer
