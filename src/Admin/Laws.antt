-- ===== src/Admin/Laws.antt =====
-- What the operator's grants of src/app/admin/service.py promise.
use model_lib.Base.{ℕ, ◌<◌, ◌≡◌, ◌↔◌, Bool, true, false, Option, none, some, arith}
use model_lib.Base.Int.{ℤ, pos, ltb_ℤ}
use model_lib.Base.Text.{Text}
use model_lib.Errors.{AppError}
use model_lib.Tables.{SubscriptionStatus, Db}
use model_lib.Session.{Session, ok, err}
use model_lib.Session.Keeps.{Keeps, Keeps-bind, Keeps-pure}
use model_lib.Audit.{record_event}
use model_lib.Wallet.{grant}
use model_lib.Wallet.Integrity.{IsSound}
use model_lib.Wallet.Frame.{
  IsMoneyFact, IsSound-money, record_event-Keeps, grant-Keeps-IsSound, subscriptions-grant,
}
use model_lib.Policy.Loader.{policy_state}
use model_lib.Subscription.Service.{put_subscription}
use model_lib.Subscription.Sync.{put_subscription-Keeps}
use model_lib.Admin.{
  admin_grant, grant_subscription, grant_if_positive, grant_when, require_user_exists, admin_meta,
  admin_grant_event, admin_sub_event, admin_sub_grant_key, admin_sub_reason, effective_credits,
  AdminSubscriptionGrantResult, admin_wallet_view,
}

-- An operation on a user that is not there is refused, and nothing is written.
pub admin_user_not_found :
    (user_id last_n expires_at : ℕ) (amount period : ℤ) (credits : Option ℤ)
    (key reason plan : Text) (s : Session)
    → s.current.users user_id ≡ none
    → (admin_grant user_id amount key reason s ≡ (err AppError.user_not_found, s))
      × (grant_subscription user_id expires_at plan key credits period s
          ≡ (err AppError.user_not_found, s))
      × (admin_wallet_view user_id last_n s ≡ (err AppError.user_not_found, s))
unfolding admin_grant grant_subscription admin_wallet_view
admin_user_not_found user_id last_n expires_at amount period credits key reason plan s h =
    (ground arith, ground arith, ground arith)

-- A subscription grant that went through gives access exactly until its expiry, whatever
-- subscription the user had before.
grant_subscription_access :
    (user_id expires_at : ℕ) (plan key : Text) (credits : Option ℤ) (period : ℤ) (s s' : Session)
    (r : AdminSubscriptionGrantResult) (t : ℕ)
    → grant_subscription user_id expires_at plan key credits period s ≡ (ok r, s')
    → ((policy_state user_id s'.current t).subscription_status ≡ SubscriptionStatus.active)
      ↔ (t < expires_at)
unfolding grant_subscription policy_state put_subscription grant_if_positive record_event
grant_subscription_access user_id expires_at plan key credits period s s' r t h =
    (grind (arith, subscriptions-grant), grind (arith, subscriptions-grant))

require-Keeps : (P : Db → Type 0) (user_id : ℕ) → Keeps P (require_user_exists user_id)
unfolding require_user_exists
require-Keeps P user_id = record { at = λ s h. ground arith; stays = λ s. ground arith }

grant_if_positive-Keeps :
    (P : Db → Type 0) (user_id : ℕ) (credits : ℤ) (key : Text)
    → Keeps P (
        grant user_id credits
          (admin_sub_grant_key key)
          (admin_meta admin_sub_reason)
          admin_sub_reason)
    → Keeps P (grant_if_positive user_id credits key)
unfolding grant_if_positive
grant_if_positive-Keeps P user_id credits key k = grant_when-Keeps (ltb_ℤ (pos 0) credits)
  where
    grant_when-Keeps : (b : Bool) → Keeps P (grant_when b user_id credits key)
    grant_when-Keeps false = Keeps-pure none
    grant_when-Keeps true =
        Keeps-bind
          (grant user_id credits (admin_sub_grant_key key) (admin_meta admin_sub_reason)
            admin_sub_reason)
          _ k λ g. Keeps-pure (some g)

module _ {P : Db → Type 0} (money : IsMoneyFact P) (user_id : ℕ) (key : Text) where
  admin_grant-Keeps :
      (amount : ℤ) (reason : Text)
      → Keeps P (grant user_id amount key (admin_meta reason) reason)
      → Keeps P (admin_grant user_id amount key reason)
  unfolding admin_grant
  admin_grant-Keeps amount reason k =
      Keeps-bind (require_user_exists user_id) _ (require-Keeps P user_id) λ _.
        Keeps-bind (grant user_id amount key (admin_meta reason) reason) _ k λ g.
          Keeps-bind (record_event (admin_grant_event user_id amount key reason g)) _
            (record_event-Keeps money.audit (admin_grant_event user_id amount key reason g))
            λ _. Keeps-pure g

  grant_subscription-Keeps :
      (expires_at : ℕ) (plan : Text) (credits : Option ℤ) (period : ℤ)
      → Keeps P (
          grant user_id
            (effective_credits credits period)
            (admin_sub_grant_key key)
            (admin_meta admin_sub_reason)
            admin_sub_reason)
      → Keeps P (grant_subscription user_id expires_at plan key credits period)
  unfolding grant_subscription
  grant_subscription-Keeps expires_at plan credits period k =
      Keeps-bind (require_user_exists user_id) _ (require-Keeps P user_id) λ _.
        Keeps-bind _ _
          (put_subscription-Keeps money.subs user_id SubscriptionStatus.active (some plan)
            (some expires_at))
          λ _.
            Keeps-bind (grant_if_positive user_id (effective_credits credits period) key) _
              (grant_if_positive-Keeps P user_id (effective_credits credits period) key k)
              λ g.
                Keeps-bind _ _
                  (record_event-Keeps money.audit (
                    admin_sub_event user_id plan expires_at (effective_credits credits period) key
                      g))
                  λ _. Keeps-pure _

-- The operator's two grants keep the tables sound.
pub admin_grant-Keeps-IsSound :
    (user_id : ℕ) (amount : ℤ) (key reason : Text)
    → Keeps IsSound (admin_grant user_id amount key reason)
admin_grant-Keeps-IsSound user_id amount key reason =
    admin_grant-Keeps IsSound-money user_id key amount reason
      (grant-Keeps-IsSound user_id amount key (admin_meta reason) reason)

pub grant_subscription-Keeps-IsSound :
    (user_id expires_at : ℕ) (plan key : Text) (credits : Option ℤ) (period : ℤ)
    → Keeps IsSound (grant_subscription user_id expires_at plan key credits period)
grant_subscription-Keeps-IsSound user_id expires_at plan key credits period =
    grant_subscription-Keeps IsSound-money user_id key expires_at plan credits period (
      grant-Keeps-IsSound user_id (effective_credits credits period) (admin_sub_grant_key key)
        (admin_meta admin_sub_reason) admin_sub_reason)
