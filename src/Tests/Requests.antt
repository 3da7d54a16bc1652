-- ===== src/Tests/Requests.antt =====
-- The requests of two users and of the operator, served one after the other.
use model_lib.Base.{◌≡◌, refl, false, none, some, List, [], ◌∷◌}
use model_lib.Base.Int.{pos}
use model_lib.Base.Text.{codes}
use model_lib.Errors.{AppError}
use model_lib.Json.{Json, Fields}
use model_lib.Session.{err}
use model_lib.RateLimit.{Redis, Link}
use model_lib.Wallet.Integrity.{IsSound}
use model_lib.Gateway.Serve.{Server, Wire, UserCall, AdminCall, Request, serve_all}
use model_lib.Gateway.Sound.{serve_all-IsSettled}
use model_lib.CloudPayments.Verify.{Reply}
use model_lib.Tests.Data.{request, small_db-IsSound, key_1, no_meta, first_python}

abbrev server : Server
server = record {
  py = first_python;
  gateway = record {
    signing_key = λ t. some t;
    decode = λ t k. some (Fields.field "sub" (Json.str key_1) Fields.end);
    admin_api_secret = key_1;
    admin_api_secret_prev = [];
    adapty_webhook_secret = key_1;
    is_trusted_proxy = λ ip. false;
    trusted_proxy_hop_count = pos 1;
  };
  rates = record {
    rate_limit_chat_per_user = 30;
    rate_limit_chat_per_device = 60;
    rate_limit_chat_per_ip = 120;
    rate_limit_other_per_user = 60;
    rate_limit_window_seconds = 60;
    admin_rate_limit_per_min = 10;
    auth_rate_limit_per_ip = 10;
    cloudpayments_webhook_rate_limit_per_ip = 120;
  };
  admin_size_limit_body = pos 8192;
  subscription_credits_per_period = pos 100;
  token_products = [];
  adapty = record { product_tokens = []; subscription_tokens_grant = pos 100 };
  cloudpayments = record {
    api_token = key_1;
    token_products = [];
    product_tokens = [];
    subscription_tokens_grant = pos 100;
    paid_statuses = [];
    freshness_hours = 24;
  };
  verify_transaction = λ t. err AppError.validation_error;
}

abbrev wire : Wire
wire = record {
  now = 200000000000000;
  redis_link = Link.works;
  authorization = some (codes "Bearer x");
  content_length = none;
  peer = none;
  forwarded_for = none;
  real_ip = none;
  fetch = λ n. Reply.timeout;
}

-- a credit by the operator, then a debit by the user
abbrev requests : List (Wire × Request)
requests =
    (wire, Request.of_admin (some key_1) (AdminCall.admin_wallet_grant 1 (pos 5) key_1 key_1))
    ∷ (wire, Request.of_user 1 (UserCall.wallet_consume (pos 3) (codes "c") no_meta none))
    ∷ (wire, Request.of_adapty (some key_1) [])
    ∷ []

abbrev no_scores : Redis
no_scores k = record { scores = []; expires_at = 0 }

serve_all-IsSettled_example :
    let s' = (serve_all server requests (request, no_scores)).0 in
    (s'.committed ≡ s'.current) × IsSound s'.committed
serve_all-IsSettled_example =
    serve_all-IsSettled server requests request no_scores refl small_db-IsSound
