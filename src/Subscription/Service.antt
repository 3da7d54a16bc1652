-- ===== src/Subscription/Service.antt =====
-- src/app/subscription/service.py: `sync` reconciles the stored subscription with a verified
-- transaction and grants the period's credits.
use model_lib.Base.{
  ℕ, Bool, true, false, not, ◌&&◌, Option, none, some, ◌++◌, ltb, if◌then◌else◌, put,
}
use model_lib.Base.Int.{ℤ}
use model_lib.Base.Text.{Text, codes, is_empty}
use model_lib.Json.{Json, Fields}
use model_lib.Tables.{SubscriptionStatus, AuditPayload}
use model_lib.Session.{Result, ok, Action, ⊤, pure, clock, modify, ◌>>=◌, ◌>>◌}
use model_lib.Audit.{AuditEvent, record_event, check_user}
use model_lib.Wallet.{grant}
use model_lib.Subscription.StoreKit.{VerifiedTransaction}

pub record SubscriptionResult : Type 0 where
  pub is_subscribed : Bool
  pub expires_at : Option ℕ
  pub plan : Option Text

-- `not verified.revoked and verified.expires_at is not None and verified.expires_at > _now()`
unfoldable pub is_current : VerifiedTransaction → ℕ → Bool
is_current verified now =
    not verified.revoked && elim verified.expires_at [ none ↦ false | some t ↦ ltb now t ]

-- `verified.product_id or None`
unfoldable pub plan_of : Text → Option Text
unfolding is_empty
plan_of product_id = if is_empty product_id then none else some product_id

unfoldable pub status_of : Bool → SubscriptionStatus
status_of active = if active then SubscriptionStatus.active else SubscriptionStatus.expired

-- the row is added, or its fields are assigned; either way it holds the transaction's values
unfoldable pub put_subscription : ℕ → SubscriptionStatus → Option Text → Option ℕ → Action ⊤
unfolding check_user
put_subscription user_id status plan expires_at = do
  check_user user_id
  now ← clock
  modify (λ db. record db {
    subscriptions =
        put db.subscriptions user_id
          (record { status = status; plan = plan; expires_at = expires_at; updated_at = now });
  })

sub_grant_prefix : Text
sub_grant_prefix = codes "sub-grant:"

unfoldable pub sub_reason : Text
sub_reason = codes "subscription_period"

-- f"sub-grant:{verified.transaction_id}"
unfoldable pub sub_grant_key : Text → Text
unfolding sub_grant_prefix
sub_grant_key transaction_id = sub_grant_prefix ++ transaction_id

unfoldable pub sub_meta : VerifiedTransaction → Json
unfolding sub_reason
sub_meta verified = Json.obj (
    Fields.field "reason" (Json.str sub_reason) (
      Fields.field "transactionId" (Json.str verified.transaction_id)
        (Fields.field "productId" (Json.str verified.product_id) Fields.end)))

-- the credits of the period, for an active subscription only
unfoldable pub grant_period : ℕ → ℤ → VerifiedTransaction → Bool → Action ⊤
grant_period user_id credits verified false s = (ok tt, s)
grant_period user_id credits verified true s =
    (grant user_id credits (sub_grant_key verified.transaction_id) (sub_meta verified) sub_reason
        >> pure tt)
      s

unfoldable pub subscription_event : ℕ → VerifiedTransaction → ℕ → AuditEvent
unfolding is_current plan_of status_of
subscription_event user_id verified now = record {
  user_id = user_id;
  session_id = none;
  payload =
      AuditPayload.subscription_change (status_of (is_current verified now))
        (plan_of verified.product_id) verified.transaction_id verified.environment verified.revoked;
}

unfoldable pub result_of : VerifiedTransaction → ℕ → SubscriptionResult
unfolding is_current plan_of
result_of verified now = record {
  is_subscribed = is_current verified now;
  expires_at = verified.expires_at;
  plan = plan_of verified.product_id;
}

-- `sync` after `self._verifier.verify(signed_transaction)`; `credits` is the setting
-- `subscription_credits_per_period`
unfoldable pub sync_verified : ℕ → ℤ → VerifiedTransaction → Action SubscriptionResult
unfolding is_current plan_of status_of subscription_event result_of
sync_verified user_id credits verified = do
  now ← clock
  put_subscription user_id (status_of (is_current verified now)) (plan_of verified.product_id)
      verified.expires_at
  grant_period user_id credits verified (is_current verified now)
  record_event (subscription_event user_id verified now)
  pure (result_of verified now)

-- `SubscriptionService.sync`
unfoldable pub sync : (Text → Result VerifiedTransaction) → ℕ → ℤ → Text → Action SubscriptionResult
unfolding sync_verified
sync verify user_id credits signed_transaction = do
  verified ← (λ s. (verify signed_transaction, s))
  sync_verified user_id credits verified
