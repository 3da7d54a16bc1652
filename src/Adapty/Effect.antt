-- ===== src/Adapty/Effect.antt =====
-- What one applied event does (`_apply`, src/app/billing_adapty/service.py).
use model_lib.Base.{ℕ, ◌≡◌, ◌≢◌, some, arith}
use model_lib.Tables.{SubscriptionStatus, Semantics}
use model_lib.Session.{Session, ok}
use model_lib.Audit.{record_event}
use model_lib.Wallet.Frame.{IsUsed, grant_uses, subscriptions-grant}
use model_lib.Policy.Loader.{policy_state}
use model_lib.Subscription.Service.{put_subscription}
use model_lib.Adapty.Parser.{ParsedEvent, classify_event}
use model_lib.Adapty.Service.{
  AdaptySettings, applied, apply_semantics, apply_new, grant_tier, adapty_txn_key, period_id,
  plan_of, expiry_of,
}

-- A granting event that was applied makes the user's subscription active with the event's
-- product and expiry, and the key of its period is in the ledger.
apply_new_granting :
    (settings : AdaptySettings) (event : ParsedEvent) (s s' : Session)
    → classify_event event ≡ Semantics.granting
    → apply_new settings event s ≡ (ok applied, s')
    → (s'.current.subscriptions event.customer_user_id
        ≡ some (record {
          status = SubscriptionStatus.active;
          plan = event.vendor_product_id;
          expires_at = event.expires_at;
          updated_at = s.now;
        }))
      × IsUsed event.customer_user_id (adapty_txn_key (period_id event)) s'.current
unfolding apply_new apply_semantics grant_tier put_subscription record_event
apply_new_granting settings event s s' g h =
    (grind (arith, subscriptions-grant), grind (arith, grant_uses))

-- An expiring event that was applied leaves the user a subscription that is expired, with the
-- product and the expiry it had, so that the policy engine sees it as active at no time.
apply_new_expiring :
    (settings : AdaptySettings) (event : ParsedEvent) (s s' : Session) (t : ℕ)
    → classify_event event ≡ Semantics.expiring
    → apply_new settings event s ≡ (ok applied, s')
    → (s'.current.subscriptions event.customer_user_id
        ≡ some (record {
          status = SubscriptionStatus.expired;
          plan = plan_of (s.current.subscriptions event.customer_user_id);
          expires_at = expiry_of (s.current.subscriptions event.customer_user_id);
          updated_at = s.now;
        }))
      × ((policy_state event.customer_user_id s'.current t).subscription_status
          ≢ SubscriptionStatus.active)
unfolding apply_new apply_semantics put_subscription record_event policy_state
apply_new_expiring settings event s s' t g h = (ground arith, ground arith)
