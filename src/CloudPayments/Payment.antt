-- ===== src/CloudPayments/Payment.antt =====
-- What crediting one verified payment does (`_apply_payment`,
-- src/app/billing_cloudpayments/service.py).
use model_lib.Base.{
  ℕ, ◌+◌, ◌*◌, ◌≤◌, ◌<◌, ◌≡◌, ◌≢◌, ◌↔◌, inl, inr, Bool, true, false, Option, none, some, arith,
  if◌then◌else◌, Option-cases,
}
use model_lib.Base.Int.{pos_part}
use model_lib.Base.Text.{Text, text_eq_refl}
use model_lib.Tables.{SubscriptionStatus, Kind, CloudPaymentsWebhookEvent, Db}
use model_lib.Session.{Session, Result, ok}
use model_lib.Audit.{record_event}
use model_lib.Wallet.{current_balance, existing_tx}
use model_lib.Wallet.Integrity.{committed-grant}
use model_lib.Wallet.Frame.{
  IsUsed, is_some, grant_uses, grant_balance, subscriptions-grant,
  cloudpayments_webhook_events-grant,
}
use model_lib.Subscription.Service.{put_subscription}
use model_lib.Policy.Loader.{policy_state}
use model_lib.CloudPayments.Parser.{
  infer_interval_unit_from_code, compute_expiry, expiry_days, day_us, at_least_one,
}
use model_lib.CloudPayments.Verify.{CreditablePayment}
use model_lib.CloudPayments.Credit.{
  CloudPaymentsSettings, Price, price, find_event, insert_event, cp_txn_key, activate, credit_new,
  credit_inserted, or_rollback, credit, apply_payment, paid_until,
}

-- the payment has its row in the dedup journal
abbrev pub is_seen : Option CloudPaymentsWebhookEvent → Bool
is_seen none = false
is_seen (some _) = true

abbrev pub IsSeen : Text → Db → Type 0
IsSeen payment_id db = is_seen (find_event payment_id db.cloudpayments_webhook_events) ≡ true

-- A payment that counts as credited is committed: what is open is what is committed, its row is
-- in the dedup journal and its key in the ledger, the row was not there before, and the user's
-- balance grew by the price that the server's maps give, or by nothing if the key was already
-- used.
pub apply_payment_exact :
    (settings : CloudPaymentsSettings) (payment : CreditablePayment) (user_id : ℕ) (s s' : Session)
    → apply_payment settings payment user_id s ≡ (ok true, s')
    → (p : Price) × (price settings payment ≡ some p)
      × (s'.committed ≡ s'.current)
      × IsSeen payment.payment_id s'.committed
      × (is_seen (find_event payment.payment_id s.current.cloudpayments_webhook_events) ≡ false)
      × IsUsed user_id (cp_txn_key payment.payment_id) s'.committed
      × (current_balance user_id s'.committed
          ≡ current_balance user_id s.current
            + (if is_some (existing_tx user_id (cp_txn_key payment.payment_id) s.current)
                then 0
                else pos_part p.credits))
unfolding apply_payment credit or_rollback credit_inserted credit_new insert_event activate
    put_subscription record_event find_event
apply_payment_exact settings payment user_id s s' h = elim (Option-cases (price settings payment)) [
  | inl e ↦ absurd (ground arith)
  | inr (p, e) ↦ (
    p,
    e,
    ground arith,
    grind (arith, text_eq_refl, cloudpayments_webhook_events-grant),
    ground arith,
    grind (arith, grant_uses),
    grind (arith, grant_balance),
  )
]

-- From a session with nothing uncommitted, a payment that is not credited, because it is skipped
-- or a duplicate or because something raised, leaves the committed and the open database as they
-- were.
pub apply_payment_quiet :
    (settings : CloudPaymentsSettings) (payment : CreditablePayment) (user_id : ℕ) (s s' : Session)
    (r : Result Bool)
    → s.committed ≡ s.current
    → apply_payment settings payment user_id s ≡ (r, s')
    → r ≢ ok true
    → (s'.committed ≡ s.committed) × (s'.current ≡ s.committed)
unfolding apply_payment credit or_rollback credit_inserted credit_new insert_event activate
    put_subscription record_event
apply_payment_quiet settings payment user_id s s' r start h refused =
    (grind (arith, committed-grant), grind (arith, committed-grant))

-- A payment whose row is in the dedup journal is never credited again: with any settings, for any
-- user and at any time, the answer is that nothing was credited, and nothing changes.
pub apply_payment_seen :
    (settings : CloudPaymentsSettings) (payment : CreditablePayment) (user_id : ℕ) (s : Session)
    → s.committed ≡ s.current
    → IsSeen payment.payment_id s.committed
    → apply_payment settings payment user_id s ≡ (ok false, s)
unfolding apply_payment credit or_rollback credit_inserted insert_event
apply_payment_seen settings payment user_id s start seen = ground arith

-- From the moment a subscription payment was credited, the policy engine sees the subscription
-- as active exactly until the days are over that the product code's interval stands for.
apply_payment_access :
    (settings : CloudPaymentsSettings) (payment : CreditablePayment) (user_id : ℕ) (s s' : Session)
    (p : Price) (t : ℕ)
    → apply_payment settings payment user_id s ≡ (ok true, s')
    → price settings payment ≡ some p
    → p.kind ≡ Kind.subscription
    → s.now ≤ t
    → ((policy_state user_id s'.committed t).subscription_status ≡ SubscriptionStatus.active)
      ↔ (t < s.now + expiry_days (infer_interval_unit_from_code payment.product_code) * day_us)
unfolding apply_payment credit or_rollback credit_inserted credit_new insert_event activate
    put_subscription record_event policy_state paid_until compute_expiry at_least_one
apply_payment_access settings payment user_id s s' p t h e k le =
    (grind (arith, subscriptions-grant), grind (arith, subscriptions-grant))
