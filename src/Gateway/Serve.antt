-- ===== src/Gateway/Serve.antt =====
-- The requests that move money, as src/app/api_gateway/routers serve them: authentication, the
-- owner check, the rate limit and the service, in one transaction.
use model_lib.Base.{ℕ, Bool, false, not, Option, none, some, List, [], ◌∷◌, ◌==◌, if◌then◌else◌}
use model_lib.Base.Int.{ℤ, ltb_ℤ}
use model_lib.Base.Text.{Text}
use model_lib.Errors.{AppError}
use model_lib.Json.{Json, Runtime}
use model_lib.Session.{
  Session, Result, ok, err, Action, ⊤, pure, raise_if, modify, session_scope, ◌>>◌,
}
use model_lib.RateLimit.{
  Redis, Link, RateSettings, enforce_other_limits, enforce_admin_limits,
  enforce_cloudpayments_webhook_limits,
}
use model_lib.Auth.Identity.{provision_user}
use model_lib.Wallet.{consume}
use model_lib.Subscription.StoreKit.{VerifiedTransaction}
use model_lib.Subscription.Service.{sync}
use model_lib.TokenPurchase.{Products, purchase}
use model_lib.Admin.{admin_grant, grant_subscription}
use model_lib.Adapty.Service.{AdaptySettings}
use model_lib.Adapty.Service as adapty_webhook
use model_lib.CloudPayments.Credit.{CloudPaymentsSettings}
use model_lib.CloudPayments.Verify.{Reply}
use model_lib.CloudPayments.Service as cloudpayments_webhook
use model_lib.Gateway.Caller.{
  GatewaySettings, verify_bearer_token, require_owner, require_admin, require_adapty_webhook,
  client_ip,
}

pub record Server : Type 0 where
  pub py : Runtime
  pub gateway : GatewaySettings
  pub rates : RateSettings
  pub admin_size_limit_body : ℤ
  pub subscription_credits_per_period : ℤ
  pub token_products : Products
  pub adapty : AdaptySettings
  pub cloudpayments : CloudPaymentsSettings
  -- `StoreKitVerifier.verify`
  pub verify_transaction : Text → Result VerifiedTransaction

-- what the network gives to one request
pub record Wire : Type 0 where
  pub now : ℕ
  pub redis_link : Link
  pub authorization : Option Text
  -- the parsed header Content-Length, if it is a number
  pub content_length : Option ℤ
  pub peer : Option Text
  pub forwarded_for : Option Text
  pub real_ip : Option Text
  -- the replies of the payment service to a callback's requests
  pub fetch : ℕ → Reply

pub data UserCall : Type 0 where
  wallet_consume : ℤ → Text → Json → Option ℕ → UserCall
  subscription_sync : Text → UserCall
  purchase_tokens : Text → UserCall

pub data AdminCall : Type 0 where
  admin_wallet_grant : ℕ → ℤ → Text → Text → AdminCall
  admin_subscription_grant : ℕ → ℕ → Text → Text → Option ℤ → AdminCall

pub data Request : Type 0 where
  of_user : (body_user_id : ℕ) → UserCall → Request
  of_admin : (admin_token : Option Text) → AdminCall → Request
  of_adapty : (credentials : Option Text) → List ℕ → Request
  of_cloudpayments : List ℕ → Request

-- the database of a session, and Redis
abbrev pub World : Type 0
World = Session × Redis

unfoldable pub run_user_call : Server → ℕ → UserCall → Action ⊤
run_user_call server user_id (UserCall.wallet_consume amount key meta session_id) =
    consume user_id amount key meta session_id >> pure tt
run_user_call server user_id (UserCall.subscription_sync jws) =
    sync server.verify_transaction user_id server.subscription_credits_per_period jws >> pure tt
run_user_call server user_id (UserCall.purchase_tokens jws) =
    purchase server.verify_transaction server.token_products user_id jws >> pure tt

unfoldable pub run_admin_call : Server → AdminCall → Action ⊤
run_admin_call server (AdminCall.admin_wallet_grant user_id amount key reason) =
    admin_grant user_id amount key reason >> pure tt
run_admin_call server (AdminCall.admin_subscription_grant user_id expires_at plan key credits) =
    grant_subscription user_id expires_at plan key credits server.subscription_credits_per_period
    >> pure tt

-- `get_current_user`'s provisioning, the owner check, the rate limit, then the service
unfoldable pub user_action :
    Server → (user_id body_user_id : ℕ) → (admitted : Bool) → UserCall → Action ⊤
unfolding provision_user require_owner run_user_call
user_action server user_id body_user_id admitted call = do
  modify (provision_user user_id)
  require_owner body_user_id user_id
  raise_if (not admitted) AppError.rate_limited
  run_user_call server user_id call

abbrev pub is_oversized : Server → Wire → Bool
is_oversized server wire = elim wire.content_length [
  | none ↦ false
  | some n ↦ ltb_ℤ server.admin_size_limit_body n
]

unfoldable pub admin_action : Server → Wire → Option Text → (admitted : Bool) → AdminCall → Action ⊤
unfolding require_admin run_admin_call
admin_action server wire token admitted call = do
  require_admin server.gateway token
  raise_if (is_oversized server wire) AppError.payload_too_large
  raise_if (not admitted) AppError.rate_limited
  run_admin_call server call

unfoldable pub adapty_action : Server → Option Text → List ℕ → Action ⊤
unfolding require_adapty_webhook adapty_webhook.handle
adapty_action server credentials raw = do
  require_adapty_webhook server.gateway credentials
  adapty_webhook.handle server.py server.adapty raw >> pure tt

unfoldable pub cloudpayments_action : Server → Wire → (admitted : Bool) → List ℕ → Action ⊤
unfolding cloudpayments_webhook.handle
cloudpayments_action server wire admitted raw = do
  raise_if (not admitted) AppError.rate_limited
  cloudpayments_webhook.handle server.py server.cloudpayments wire.fetch raw >> pure tt

abbrev pub wire_ip : Server → Wire → Option Text
wire_ip server wire = client_ip server.gateway wire.peer wire.forwarded_for wire.real_ip

-- the answer of a limiter with what it leaves in Redis, or Redis untouched where it is not reached
abbrev pub counted : Bool → Bool × Redis → Redis → Bool × Redis
counted reached limiter redis = if reached then limiter else (false, redis)

-- the request of a caller who was authenticated or not; without one there is no transaction
unfoldable pub serve_user :
    Server → Wire → (body_user_id : ℕ) → UserCall → Result ℕ → World → Result ⊤ × World
unfolding session_scope user_action
serve_user server wire body_user_id call (err e) (s, redis) = (err e, (s, redis))
serve_user server wire body_user_id call (ok user_id) (s, redis) =
    let (admitted, redis') =
      counted (body_user_id == user_id)
        (enforce_other_limits server.rates wire.redis_link wire.now (server.py.uuid_text user_id)
          redis)
        redis in
    let (r, s') =
      session_scope (user_action server user_id body_user_id admitted call)
        (record s { now = wire.now }) in
    (r, (s', redis'))

-- A request runs in its own transaction, at its own instant.
unfoldable pub serve : Server → Wire → Request → World → Result ⊤ × World
unfolding session_scope serve_user admin_action adapty_action cloudpayments_action
serve server wire (Request.of_user body_user_id call) world =
    serve_user server wire body_user_id call
      (verify_bearer_token server.py server.gateway wire.authorization) world
serve server wire (Request.of_admin token call) (s, redis) =
    let (r₀, s₀) = require_admin server.gateway token s in
    let (admitted, redis') =
      counted (elim r₀ [ ok _ ↦ not (is_oversized server wire) | err _ ↦ false ])
        (enforce_admin_limits server.rates wire.redis_link wire.now (wire_ip server wire) redis)
        redis in
    let (r, s') =
      session_scope (admin_action server wire token admitted call) (record s { now = wire.now }) in
    (r, (s', redis'))
serve server wire (Request.of_adapty credentials raw) (s, redis) =
    let (r, s') =
      session_scope (adapty_action server credentials raw) (record s { now = wire.now }) in
    (r, (s', redis))
serve server wire (Request.of_cloudpayments raw) (s, redis) =
    let (admitted, redis') =
      enforce_cloudpayments_webhook_limits server.rates wire.redis_link wire.now
        (wire_ip server wire) redis in
    let (r, s') =
      session_scope (cloudpayments_action server wire admitted raw) (record s { now = wire.now }) in
    (r, (s', redis'))

-- the requests, in the order in which they are served
unfoldable pub serve_all : Server → List (Wire × Request) → World → World
unfolding serve
serve_all server [] world = world
serve_all server ((wire, request) ∷ requests) world =
    serve_all server requests (serve server wire request world).1
