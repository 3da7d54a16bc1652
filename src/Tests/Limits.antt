-- ===== src/Tests/Limits.antt =====
-- Rate limits, and the address that they count.
use model_lib.Base.{◌≤◌, ◌<◌, ◌++◌, ◌≡◌, refl, ◌↔◌, true, none, some, [], ◌∷◌, arith, if◌then◌else◌}
use model_lib.Base.Int.{pos}
use model_lib.Base.Text.{codes, text_eq, is_empty, strip}
use model_lib.RateLimit.{Redis, Link, RateSettings, microseconds, enforce_chat_limits}
use model_lib.RateLimit.Window.{Calls, allowed_within, allowed_within_bound}
use model_lib.RateLimit.Checks.{live_count, HasRoomFor, enforce_chat_limits_iff}
use model_lib.Gateway.Caller.{GatewaySettings, client_ip, forwarded_hops, own_hops}
use model_lib.Gateway.Address.{client_ip_lem}
use model_lib.Tests.Data.{key_1}

abbrev empty_redis : Redis
empty_redis k = record { scores = []; expires_at = 0 }

-- three calls within a minute, one of which did not reach Redis
abbrev calls : Calls
calls = (50000000, Link.works) ∷ (30000000, Link.unreachable) ∷ (10000000, Link.works) ∷ []

allowed_within_bound_example : allowed_within 5000000 key_1 1 60000000 calls empty_redis ≤ 1
allowed_within_bound_example =
    allowed_within_bound 5000000 key_1 1 60000000 calls empty_redis
      ((omega arith, (omega arith, tt)), ((omega arith, tt), (tt, tt)))

abbrev rates : RateSettings
rates = record {
  rate_limit_chat_per_user = 30;
  rate_limit_chat_per_device = 60;
  rate_limit_chat_per_ip = 120;
  rate_limit_other_per_user = 60;
  rate_limit_window_seconds = 60;
  admin_rate_limit_per_min = 10;
  auth_rate_limit_per_ip = 10;
  cloudpayments_webhook_rate_limit_per_ip = 120;
}

enforce_chat_limits_iff_example :
    ((enforce_chat_limits rates (λ k. Link.works) 7 key_1 (some key_1) (some key_1) empty_redis).0
      ≡ true)
    ↔ ((live_count (microseconds rates) 7 empty_redis (codes "rl:user:" ++ key_1) < 30)
        × HasRoomFor (microseconds rates) 7 empty_redis (codes "rl:dev:") (some key_1) 60
        × HasRoomFor (microseconds rates) 7 empty_redis (codes "rl:ip:") (some key_1) 120)
enforce_chat_limits_iff_example =
    enforce_chat_limits_iff rates 7 key_1 (some key_1) (some key_1) empty_redis

abbrev gateway : GatewaySettings
gateway = record {
  signing_key = λ t. none;
  decode = λ t k. none;
  admin_api_secret = [];
  admin_api_secret_prev = [];
  adapty_webhook_secret = [];
  is_trusted_proxy = λ ip. text_eq ip (codes "10.0.0.1");
  trusted_proxy_hop_count = pos 1;
}

-- a forged entry, the client, and the own hop
client_ip_lem_example :
    client_ip gateway (some (codes "10.0.0.1")) (some (codes "6.6.6.6, 1.2.3.4,10.0.0.9")) none
    ≡ some
        (if gateway.is_trusted_proxy (codes "10.0.0.1") then codes "1.2.3.4" else codes "10.0.0.1")
unfolding own_hops forwarded_hops is_empty strip
client_ip_lem_example =
    client_ip_lem gateway (codes "10.0.0.1") (codes "1.2.3.4")
      (some (codes "6.6.6.6, 1.2.3.4,10.0.0.9")) none (codes "6.6.6.6" ∷ []) (codes "10.0.0.9" ∷ [])
      refl refl
