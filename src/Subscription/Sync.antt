-- ===== src/Subscription/Sync.antt =====
-- What `SubscriptionService.sync` (src/app/subscription/service.py) does to credits and access.
use model_lib.Base.{ℕ, ◌≤◌, ◌<◌, ◌≡◌, refl, ◌↔◌, Bool, true, false, Option, some, arith, Table, put}
use model_lib.Base.Int.{ℤ}
use model_lib.Base.Text.{Text}
use model_lib.Tables.{SubscriptionStatus, Subscription, Db}
use model_lib.Session.{Session, ok, clock, session_scope}
use model_lib.Session.Keeps.{
  Keeps, Keeps-bind, Keeps-modify, Keeps-clock, Keeps-pure, Keeps-request,
}
use model_lib.Audit.{record_event, check_user}
use model_lib.Wallet.{grant}
use model_lib.Wallet.Integrity.{IsSound}
use model_lib.Wallet.Frame.{
  IsMoneyFact, SameMoney, IsUsed, IsSound-money, SameMoney-money, check_user-Keeps,
  record_event-Keeps, grant-Keeps-IsSound, grant-Keeps-SameMoney, grant_uses, subscriptions-grant,
}
use model_lib.Policy.Loader.{policy_state}
use model_lib.Subscription.StoreKit.{VerifiedTransaction}
use model_lib.Subscription.Service.{
  SubscriptionResult, sync_verified, is_current, plan_of, status_of, sub_grant_key, sub_meta,
  sub_reason, subscription_event, result_of, put_subscription, grant_period,
}

-- After a sync that went through, the policy engine sees the subscription as active exactly when
-- the answer says so and the expiry has not come, at the sync and at every later instant.
pub sync_verified_access :
    (user_id : ℕ) (credits : ℤ) (verified : VerifiedTransaction) (s s' : Session)
    (r : SubscriptionResult) (t : ℕ)
    → s.now ≤ t
    → sync_verified user_id credits verified s ≡ (ok r, s')
    → ((policy_state user_id s'.current t).subscription_status ≡ SubscriptionStatus.active)
      ↔ ((r.is_subscribed ≡ true) × ((e : ℕ) × (verified.expires_at ≡ some e) × (t < e)))
unfolding sync_verified policy_state put_subscription grant_period record_event
sync_verified_access user_id credits verified s s' r t le h =
    (grind (arith, subscriptions-grant), grind (arith, subscriptions-grant))

module _ {P : Db → Type 0} where
  pub put_subscription-Keeps :
      ((db : Db) (t : Table Subscription) → P db → P (record db { subscriptions = t }))
      → (user_id : ℕ) (status : SubscriptionStatus) (plan : Option Text) (expires_at : Option ℕ)
      → Keeps P (put_subscription user_id status plan expires_at)
  unfolding put_subscription
  put_subscription-Keeps subs user_id status plan expires_at =
      Keeps-bind (check_user user_id) _ (check_user-Keeps user_id) λ _.
        Keeps-bind clock _ Keeps-clock λ now. Keeps-modify _ (λ db h.
          subs db
            (put db.subscriptions user_id
              (record { status = status; plan = plan; expires_at = expires_at; updated_at = now }))
            h)

module _ {P : Db → Type 0} (money : IsMoneyFact P) where
  sync_verified-Keeps :
      (user_id : ℕ) (credits : ℤ) (verified : VerifiedTransaction)
      → ((active : Bool) → Keeps P (grant_period user_id credits verified active))
      → Keeps P (sync_verified user_id credits verified)
  unfolding sync_verified
  sync_verified-Keeps user_id credits verified period = Keeps-bind clock _ Keeps-clock λ now.
      Keeps-bind
        (put_subscription user_id (status_of (is_current verified now))
          (plan_of verified.product_id) verified.expires_at)
        _
        (put_subscription-Keeps money.subs user_id (status_of (is_current verified now))
          (plan_of verified.product_id) verified.expires_at)
        λ _.
          Keeps-bind (grant_period user_id credits verified (is_current verified now)) _
            (period (is_current verified now))
            λ _.
              Keeps-bind (record_event (subscription_event user_id verified now)) _
                (record_event-Keeps money.audit (subscription_event user_id verified now))
                λ _. Keeps-pure (result_of verified now)

module _ (user_id : ℕ) (credits : ℤ) (verified : VerifiedTransaction) where
  grant_period-Keeps-IsSound :
      (active : Bool) → Keeps IsSound (grant_period user_id credits verified active)
  unfolding grant_period
  grant_period-Keeps-IsSound false = Keeps-pure tt
  grant_period-Keeps-IsSound true =
      Keeps-bind
        (grant user_id credits (sub_grant_key verified.transaction_id) (sub_meta verified)
          sub_reason)
        _
        (grant-Keeps-IsSound user_id credits (sub_grant_key verified.transaction_id)
          (sub_meta verified) sub_reason)
        λ _. Keeps-pure tt

  grant_period-Keeps-SameMoney :
      (db₀ : Db)
      → IsUsed user_id (sub_grant_key verified.transaction_id) db₀
      → (active : Bool) → Keeps (SameMoney db₀) (grant_period user_id credits verified active)
  unfolding grant_period
  grant_period-Keeps-SameMoney db₀ used false = Keeps-pure tt
  grant_period-Keeps-SameMoney db₀ used true =
      Keeps-bind
        (grant user_id credits (sub_grant_key verified.transaction_id) (sub_meta verified)
          sub_reason)
        _
        (grant-Keeps-SameMoney user_id credits (sub_grant_key verified.transaction_id)
          (sub_meta verified) sub_reason db₀ used)
        λ _. Keeps-pure tt

-- A sync keeps the tables sound, whatever StoreKit said.
pub sync-Keeps-IsSound :
    (user_id : ℕ) (credits : ℤ) (verified : VerifiedTransaction)
    → Keeps IsSound (sync_verified user_id credits verified)
sync-Keeps-IsSound user_id credits verified =
    sync_verified-Keeps IsSound-money user_id credits verified
      (grant_period-Keeps-IsSound user_id credits verified)

-- Once a transaction's key is in the ledger, every further sync of it, at any time, with any
-- setting and whatever its outcome, leaves all balances and the ledger as they are.
pub sync_request_again :
    (user_id : ℕ) (credits : ℤ) (verified : VerifiedTransaction) (s : Session)
    → s.committed ≡ s.current
    → IsUsed user_id (sub_grant_key verified.transaction_id) s.committed
    → SameMoney s.committed (session_scope (sync_verified user_id credits verified) s).1.committed
sync_request_again user_id credits verified s start used =
    Keeps-request (SameMoney s.committed) (sync_verified user_id credits verified) s
      (sync_verified-Keeps (SameMoney-money s.committed) user_id credits verified
        (grant_period-Keeps-SameMoney user_id credits verified s.committed used))
      start (record { balances = λ u. refl; rows = refl })

-- A sync that went through with an active subscription has put the key there.
pub sync_verified_uses :
    (user_id : ℕ) (credits : ℤ) (verified : VerifiedTransaction) (s s' : Session)
    (r : SubscriptionResult)
    → sync_verified user_id credits verified s ≡ (ok r, s')
    → r.is_subscribed ≡ true
    → IsUsed user_id (sub_grant_key verified.transaction_id) s'.current
unfolding sync_verified put_subscription grant_period record_event
sync_verified_uses user_id credits verified s s' r h active = grind (arith, grant_uses)

sync_commits :
    (user_id : ℕ) (credits : ℤ) (verified : VerifiedTransaction) (s s' : Session)
    (r : SubscriptionResult)
    → session_scope (sync_verified user_id credits verified) s ≡ (ok r, s')
    → r.is_subscribed ≡ true
    → IsUsed user_id (sub_grant_key verified.transaction_id) s'.committed
      × (s'.committed ≡ s'.current)
unfolding session_scope
sync_commits user_id credits verified s s' r h active = ground (
  arith,
  sync_verified_uses user_id credits verified s (sync_verified user_id credits verified s).1 r,
)

-- A sync request that answers with an active subscription has used up its transaction for that
-- user: the same transaction again, at any time, with any credit setting and whatever its
-- outcome, leaves every balance and the ledger as they are.
sync_request_once :
    (user_id : ℕ) (credits credits' : ℤ) (verified : VerifiedTransaction) (s s' : Session)
    (r : SubscriptionResult) (t : ℕ)
    → session_scope (sync_verified user_id credits verified) s ≡ (ok r, s')
    → r.is_subscribed ≡ true
    → SameMoney s'.committed
        (session_scope
          (sync_verified user_id credits' verified)
          (record s' { now = t })).1.committed
sync_request_once user_id credits credits' verified s s' r t h active =
    let (used, start) = sync_commits user_id credits verified s s' r h active in
    sync_request_again user_id credits' verified (record s' { now = t }) start used
