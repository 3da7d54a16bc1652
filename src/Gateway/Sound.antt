-- ===== src/Gateway/Sound.antt =====
-- What every sequence of the requests of src/app/api_gateway keeps of the money.
use model_lib.Base.{
  ℕ, ◌≡◌, refl, inl, inr, Bool, not, Option, none, some, List, [], ◌∷◌, arith, ◌==◌, Option-cases,
}
use model_lib.Base.Int.{ℤ}
use model_lib.Base.Text.{Text}
use model_lib.Errors.{AppError}
use model_lib.Json.{Json}
use model_lib.Tables.{Db}
use model_lib.Session.{Session, Result, ok, err, Action, pure, session_scope, ◌>>◌}
use model_lib.Session.{settle}
use model_lib.Session.Keeps.{
  Keeps, Keeps-bind, Keeps-pure, Keeps-modify, Keeps-raise_if, Keeps-raise,
}
use model_lib.Session.Durable.{Durable, Durable-bind, Durable-Keeps, durable-request}
use model_lib.RateLimit.{Redis}
use model_lib.Auth.Identity.{provision_user}
use model_lib.Wallet.{consume}
use model_lib.Wallet.Integrity.{IsSound, consume-IsSound, committed-consume}
use model_lib.Subscription.Service.{sync, sync_verified}
use model_lib.Subscription.Sync.{sync-Keeps-IsSound}
use model_lib.Subscription.StoreKit.{VerifiedTransaction}
use model_lib.TokenPurchase.Laws.{purchase-Keeps-IsSound}
use model_lib.Admin.Laws.{admin_grant-Keeps-IsSound, grant_subscription-Keeps-IsSound}
use model_lib.Adapty.Credits.{handle-Keeps-IsSound}
use model_lib.CloudPayments.Durable.{handle-Durable-IsSound}
use model_lib.Gateway.Caller.{GatewaySettings, require_owner, require_admin, require_adapty_webhook}
use model_lib.Gateway.Serve.{
  Server, Wire, UserCall, AdminCall, Request, World, serve, serve_user, serve_all, user_action,
  admin_action, adapty_action, cloudpayments_action, run_user_call, run_admin_call, is_oversized,
}

provision-IsSound : (u : ℕ) (db : Db) → IsSound db → IsSound (provision_user u db)
unfolding provision_user
provision-IsSound u db h = elim (Option-cases (db.users u)) [
  | inr (user, e) ↦ rw (provision_user, e) h
  | inl e ↦
      rw (provision_user, e)
        (record {
          balanced = h.balanced;
          bounded = h.bounded;
          unique = h.unique;
          in_range = h.in_range;
          owned = λ v n. h.owned v (ground arith);
        })
]

verify-Keeps : (x : Result VerifiedTransaction) → Keeps IsSound (λ s. (x, s))
verify-Keeps (ok tx) = Keeps-pure tx
verify-Keeps (err e) = Keeps-raise e

consume-Keeps :
    (user_id : ℕ) (amount : ℤ) (key : Text) (meta : Json) (session_id : Option ℕ)
    → Keeps IsSound (consume user_id amount key meta session_id)
consume-Keeps user_id amount key meta session_id = record {
  at = λ s h. consume-IsSound user_id amount key meta session_id s h;
  stays = λ s. committed-consume user_id amount key meta session_id s;
}

-- a service whose answer is dropped
dropped : {A : Type 0} (m : Action A) → Keeps IsSound m → Keeps IsSound (m >> pure tt)
dropped m k = Keeps-bind m _ k λ _. Keeps-pure tt

module _ (server : Server) where
  run_user-Keeps :
      (user_id : ℕ) (call : UserCall) → Keeps IsSound (run_user_call server user_id call)
  unfolding run_user_call sync
  run_user-Keeps user_id (UserCall.wallet_consume amount key meta session_id) =
      dropped _ (consume-Keeps user_id amount key meta session_id)
  run_user-Keeps user_id (UserCall.subscription_sync jws) = dropped _ (
      Keeps-bind _ (sync_verified user_id server.subscription_credits_per_period)
        (verify-Keeps (server.verify_transaction jws))
        λ tx. sync-Keeps-IsSound user_id server.subscription_credits_per_period tx)
  run_user-Keeps user_id (UserCall.purchase_tokens jws) =
      dropped _ (purchase-Keeps-IsSound server.verify_transaction server.token_products user_id jws)

  run_admin-Keeps : (call : AdminCall) → Keeps IsSound (run_admin_call server call)
  unfolding run_admin_call
  run_admin-Keeps (AdminCall.admin_wallet_grant user_id amount key reason) =
      dropped _ (admin_grant-Keeps-IsSound user_id amount key reason)
  run_admin-Keeps (AdminCall.admin_subscription_grant user_id expires_at plan key credits) =
      dropped _ (
        grant_subscription-Keeps-IsSound user_id expires_at plan key credits
          server.subscription_credits_per_period)

  user-Durable :
      (user_id body_user_id : ℕ) (admitted : Bool) (call : UserCall)
      → Durable IsSound (user_action server user_id body_user_id admitted call)
  unfolding user_action require_owner
  user-Durable user_id body_user_id admitted call = Durable-Keeps (
      Keeps-bind _ _ (Keeps-modify (provision_user user_id) (provision-IsSound user_id)) λ _.
        Keeps-bind _ _ (Keeps-raise_if (not (body_user_id == user_id)) AppError.forbidden) λ _.
          Keeps-bind _ _ (Keeps-raise_if (not admitted) AppError.rate_limited)
            λ _. run_user-Keeps user_id call)

  admin_token-Keeps :
      (settings : GatewaySettings) (token : Option Text)
      → Keeps IsSound (require_admin settings token)
  unfolding require_admin
  admin_token-Keeps settings none = Keeps-raise AppError.unauthorized
  admin_token-Keeps settings (some token) = Keeps-raise_if _ AppError.unauthorized

  admin-Durable :
      (wire : Wire) (token : Option Text) (admitted : Bool) (call : AdminCall)
      → Durable IsSound (admin_action server wire token admitted call)
  unfolding admin_action
  admin-Durable wire token admitted call = Durable-Keeps (
      Keeps-bind _ _ (admin_token-Keeps server.gateway token) λ _.
        Keeps-bind _ _ (Keeps-raise_if (is_oversized server wire) AppError.payload_too_large) λ _.
          Keeps-bind _ _ (Keeps-raise_if (not admitted) AppError.rate_limited)
            λ _. run_admin-Keeps call)

  adapty_token-Keeps :
      (settings : GatewaySettings) (credentials : Option Text)
      → Keeps IsSound (require_adapty_webhook settings credentials)
  unfolding require_adapty_webhook
  adapty_token-Keeps settings credentials = record {
    at = λ s h. ground arith;
    stays = λ s. ground arith;
  }

  adapty-Durable :
      (credentials : Option Text) (raw : List ℕ)
      → Durable IsSound (adapty_action server credentials raw)
  unfolding adapty_action
  adapty-Durable credentials raw = Durable-Keeps (
      Keeps-bind _ _ (adapty_token-Keeps server.gateway credentials)
        λ _. dropped _ (handle-Keeps-IsSound server.py server.adapty raw))

  cloudpayments-Durable :
      (wire : Wire) (admitted : Bool) (raw : List ℕ)
      → Durable IsSound (cloudpayments_action server wire admitted raw)
  unfolding cloudpayments_action
  cloudpayments-Durable wire admitted raw =
      Durable-bind _ _ (Durable-Keeps (Keeps-raise_if (not admitted) AppError.rate_limited)) λ _.
        Durable-bind _ _ (handle-Durable-IsSound server.py server.cloudpayments wire.fetch raw)
          λ _. Durable-Keeps (Keeps-pure tt)

-- nothing is open, and the tables are sound
abbrev IsSettled : Session → Type 0
IsSettled s = (s.committed ≡ s.current) × IsSound s.committed

settle-start : {A : Type 0} (x : Result A × Session) → (settle x).1.committed ≡ (settle x).1.current
unfolding settle
settle-start (ok a, s) = refl
settle-start (err e, s) = refl

request-IsSettled :
    {A : Type 0} (m : Action A) (s : Session) (t : ℕ)
    → Durable IsSound m
    → IsSettled s
    → IsSettled (session_scope m (record s { now = t })).1
unfolding session_scope
request-IsSettled m s t d (start, h) =
    (settle-start (m (record s { now = t })), durable-request m (record s { now = t }) d start h)

serve_user-IsSettled :
    (server : Server) (wire : Wire) (body_user_id : ℕ) (call : UserCall) (r : Result ℕ)
    (world : World)
    → IsSettled world.0
    → IsSettled (serve_user server wire body_user_id call r world).1.0
unfolding serve_user
serve_user-IsSettled server wire body_user_id call (err e) (s, redis) h = h
serve_user-IsSettled server wire body_user_id call (ok user_id) (s, redis) h =
    request-IsSettled (user_action server user_id body_user_id _ call) s wire.now
      (user-Durable server user_id body_user_id _ call) h

serve-IsSettled :
    (server : Server) (wire : Wire) (request : Request) (world : World)
    → IsSettled world.0
    → IsSettled (serve server wire request world).1.0
unfolding serve
serve-IsSettled server wire (Request.of_user body_user_id call) world h =
    serve_user-IsSettled server wire body_user_id call _ world h
serve-IsSettled server wire (Request.of_admin token call) (s, redis) h =
    request-IsSettled (admin_action server wire token _ call) s wire.now
      (admin-Durable server wire token _ call) h
serve-IsSettled server wire (Request.of_adapty credentials raw) (s, redis) h =
    request-IsSettled (adapty_action server credentials raw) s wire.now
      (adapty-Durable server credentials raw) h
serve-IsSettled server wire (Request.of_cloudpayments raw) (s, redis) h =
    request-IsSettled (cloudpayments_action server wire _ raw) s wire.now
      (cloudpayments-Durable server wire _ raw) h

-- From a sound database with nothing uncommitted, every sequence of requests, of users, of the
-- operator and of the two webhooks, whoever sends them, whatever is in them and whether they
-- succeed or fail, commits a sound database and leaves nothing uncommitted.
pub serve_all-IsSettled :
    (server : Server) (requests : List (Wire × Request)) (s : Session) (redis : Redis)
    → s.committed ≡ s.current
    → IsSound s.committed
    → let s' = (serve_all server requests (s, redis)).0 in
      (s'.committed ≡ s'.current) × IsSound s'.committed
unfolding serve_all
serve_all-IsSettled server [] s redis start h = (start, h)
serve_all-IsSettled server ((wire, request) ∷ requests) s redis start h =
    let (start', h') = serve-IsSettled server wire request (s, redis) (start, h) in
    let (s', redis') = (serve server wire request (s, redis)).1 in
    serve_all-IsSettled server requests s' redis' start' h'
