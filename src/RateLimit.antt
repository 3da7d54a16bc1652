-- ===== src/RateLimit.antt =====
-- src/app/api_gateway/rate_limit.py: the sliding windows in Redis. A sorted set is the list of its
-- scores, since every member has a fresh UUID in it; a score is an instant in microseconds. A key
-- that has expired is gone before the next command reads it.
pub mod Window
pub mod Checks
use model_lib.Base.{
  ℕ, ◌+◌, ◌*◌, Bool, true, false, Option, none, some, List, [], ◌∷◌, ◌++◌, leb, if◌then◌else◌,
  length,
}
use model_lib.Base.Text.{Text, codes, text_eq, is_empty}

-- a sorted set and the instant at which `expire` drops it
pub record Bucket : Type 0 where
  pub scores : List ℕ
  pub expires_at : ℕ

abbrev pub Redis : Type 0
Redis = Text → Bucket

-- what becomes of a pipeline: it runs, it fails before it reached the server, or its reply is lost
pub data Link : Type 0 where
  works unreachable reply_lost : Link

pub record RateSettings : Type 0 where
  pub rate_limit_chat_per_user : ℕ
  pub rate_limit_chat_per_device : ℕ
  pub rate_limit_chat_per_ip : ℕ
  pub rate_limit_other_per_user : ℕ
  pub rate_limit_window_seconds : ℕ
  pub admin_rate_limit_per_min : ℕ
  pub auth_rate_limit_per_ip : ℕ
  pub cloudpayments_webhook_rate_limit_per_ip : ℕ

-- `zremrangebyscore key 0 (now - window)`: a score stays if it is later than that
unfoldable pub zremrangebyscore : (window now : ℕ) → List ℕ → List ℕ
zremrangebyscore window now [] = []
zremrangebyscore window now (x ∷ xs) =
    let rest = zremrangebyscore window now xs in if leb (x + window) now then rest else x ∷ rest

unfoldable pub live_scores : ℕ → Bucket → List ℕ
live_scores now bucket = if leb bucket.expires_at now then [] else bucket.scores

-- the four commands of the pipeline on one key
unfoldable pub slide : (window now : ℕ) → Bucket → Bucket
unfolding zremrangebyscore live_scores
slide window now bucket = record {
  scores = now ∷ zremrangebyscore window now (live_scores now bucket);
  expires_at = now + window;
}

unfoldable pub put_bucket : Redis → Text → Bucket → Redis
put_bucket redis key bucket k = if text_eq k key then bucket else redis k

-- `_allow`; `none` is a `RedisError`
unfoldable pub allow : Link → Text → (limit window now : ℕ) → Redis → Option Bool × Redis
unfolding slide put_bucket
allow Link.unreachable key limit window now redis = (none, redis)
allow Link.reply_lost key limit window now redis =
    (none, put_bucket redis key (slide window now (redis key)))
allow Link.works key limit window now redis = (
  some (leb (length (slide window now (redis key)).scores) limit),
  put_bucket redis key (slide window now (redis key)),
)

abbrev pub microseconds : RateSettings → ℕ
microseconds settings = settings.rate_limit_window_seconds * 1000000

-- the list of `(key, limit)` to check; an empty device id or address adds none
unfoldable pub optional_check : Text → Option Text → ℕ → List (Text × ℕ)
optional_check prefix none limit = []
optional_check prefix (some value) limit =
    if is_empty value then [] else (prefix ++ value, limit) ∷ []

unfoldable pub chat_checks :
    RateSettings → (user_id : Text) → (device_id ip : Option Text) → List (Text × ℕ)
unfolding optional_check
chat_checks settings user_id device_id ip =
    (codes "rl:user:" ++ user_id, settings.rate_limit_chat_per_user)
    ∷ (optional_check (codes "rl:dev:") device_id settings.rate_limit_chat_per_device
        ++ optional_check (codes "rl:ip:") ip settings.rate_limit_chat_per_ip)

-- the loop of `enforce_chat_limits`: the first exceeded check answers, an error lets the request pass
unfoldable pub run_checks :
    (Text → Link) → (window now : ℕ) → List (Text × ℕ) → Redis → Bool × Redis
unfolding allow
run_checks link window now [] redis = (true, redis)
run_checks link window now ((key, limit) ∷ checks) redis =
    let rest = run_checks link window now checks (allow (link key) key limit window now redis).1 in
    elim (allow (link key) key limit window now redis).0 [
      | none ↦ (true, (allow (link key) key limit window now redis).1)
      | some true ↦ rest
      | some false ↦ (false, (allow (link key) key limit window now redis).1)
    ]

unfoldable pub enforce_chat_limits :
    RateSettings → (Text → Link) → ℕ → Text → (device_id ip : Option Text) → Redis → Bool × Redis
unfolding chat_checks run_checks
enforce_chat_limits settings link now user_id device_id ip =
    run_checks link (microseconds settings) now (chat_checks settings user_id device_id ip)

-- `return await _allow(...)`, and True on a `RedisError`
unfoldable pub fail_open : Option Bool × Redis → Bool × Redis
fail_open (none, redis) = (true, redis)
fail_open (some b, redis) = (b, redis)

-- `ip or "unknown"`
unfoldable pub ip_bucket : Option Text → Text
ip_bucket none = codes "unknown"
ip_bucket (some ip) = if is_empty ip then codes "unknown" else ip

unfoldable pub enforce_admin_limits : RateSettings → Link → ℕ → Option Text → Redis → Bool × Redis
unfolding fail_open ip_bucket allow
enforce_admin_limits settings link now ip redis = fail_open (
    allow link (codes "rl:admin:" ++ ip_bucket ip) settings.admin_rate_limit_per_min
      (microseconds settings) now redis)

unfoldable pub enforce_auth_limits : RateSettings → Link → ℕ → Option Text → Redis → Bool × Redis
unfolding fail_open ip_bucket allow
enforce_auth_limits settings link now ip redis = fail_open (
    allow link (codes "rl:auth:" ++ ip_bucket ip) settings.auth_rate_limit_per_ip
      (microseconds settings) now redis)

unfoldable pub enforce_cloudpayments_webhook_limits :
    RateSettings → Link → ℕ → Option Text → Redis → Bool × Redis
unfolding fail_open ip_bucket allow
enforce_cloudpayments_webhook_limits settings link now ip redis = fail_open (
    allow link (codes "rl:cpwebhook:" ++ ip_bucket ip)
      settings.cloudpayments_webhook_rate_limit_per_ip (microseconds settings) now redis)

unfoldable pub enforce_other_limits : RateSettings → Link → ℕ → Text → Redis → Bool × Redis
unfolding fail_open allow
enforce_other_limits settings link now user_id redis = fail_open (
    allow link (codes "rl:other:" ++ user_id) settings.rate_limit_other_per_user
      (microseconds settings) now redis)
