-- ===== src/CloudPayments/Credit.antt =====
-- src/app/billing_cloudpayments/service.py: crediting one verified payment in a transaction of its
-- own. The log records are not modelled, nor is the `payload` column of the dedup row, which repeats
-- the other columns of it for a reader.
use model_lib.Base.{
  ℕ, suc, Bool, true, false, Option, none, some, List, [], ◌∷◌, ◌++◌, if◌then◌else◌,
}
use model_lib.Base.Int.{ℤ, pos, leb_ℤ}
use model_lib.Base.Text.{Text, codes, text_eq}
use model_lib.Json.{Json, Fields}
use model_lib.Tables.{SubscriptionStatus, Kind, CloudPaymentsWebhookEvent, AuditPayload, Db}
use model_lib.Session.{
  Session, Result, ok, err, Action, pure, clock, modify, commit, rollback, ◌>>=◌, ◌>>◌,
}
use model_lib.Audit.{AuditEvent, record_event, check_user}
use model_lib.Wallet.{grant}
use model_lib.TokenPurchase.{Products, product_credits}
use model_lib.Adapty.Service.{or_credits}
use model_lib.Subscription.Service.{put_subscription}
use model_lib.CloudPayments.Parser.{infer_interval_unit_from_code, compute_expiry}
use model_lib.CloudPayments.Verify.{CreditablePayment}

pub record CloudPaymentsSettings : Type 0 where
  pub api_token : Text
  pub token_products : Products
  pub product_tokens : Products
  pub subscription_tokens_grant : ℤ
  pub paid_statuses : List Text
  pub freshness_hours : ℕ

-- the class, the credits and the reason of a payment's grant
pub record Price : Type 0 where
  pub kind : Kind
  pub credits : ℤ
  pub reason : Text

-- `credits is None or credits <= 0` skips the payment
unfoldable pub token_price : Option ℤ → Option Price
token_price none = none
token_price (some n) =
    if leb_ℤ n (pos 0)
    then none
    else some (record { kind = Kind.tokens; credits = n; reason = codes "cloudpayments_tokens" })

-- the part of `_apply_payment` before its transaction; `none` for a payment that is skipped
unfoldable pub price : CloudPaymentsSettings → CreditablePayment → Option Price
unfolding text_eq product_credits token_price
price settings payment =
    if text_eq payment.payment_type (codes "one_time")
    then token_price (product_credits payment.product_code settings.token_products)
    else if text_eq payment.payment_type (codes "subscription")
    then some (record {
      kind = Kind.subscription;
      credits =
          or_credits (product_credits payment.product_code settings.product_tokens)
            settings.subscription_tokens_grant;
      reason = codes "cloudpayments_subscription";
    })
    else none

unfoldable pub find_event : Text → List CloudPaymentsWebhookEvent → Option CloudPaymentsWebhookEvent
find_event payment_id [] = none
find_event payment_id (e ∷ es) =
    if text_eq e.transaction_id payment_id then some e else find_event payment_id es

abbrev pub event_row : CreditablePayment → ℕ → Kind → CloudPaymentsWebhookEvent
event_row payment user_id kind = record {
  transaction_id = payment.payment_id;
  user_id = user_id;
  product_id = payment.product_code;
  kind = kind;
}

abbrev pub add_row : CloudPaymentsWebhookEvent → Db → Db
add_row row db = record db { cloudpayments_webhook_events = row ∷ db.cloudpayments_webhook_events }

-- INSERT INTO cloudpayments_webhook_events … ON CONFLICT (transaction_id) DO NOTHING
unfoldable pub insert_event : CreditablePayment → ℕ → Kind → Action Bool
unfolding check_user
insert_event payment user_id kind s =
    elim (find_event payment.payment_id s.current.cloudpayments_webhook_events) [
      | some _ ↦ (ok false, s)
      | none ↦
          (do check_user user_id; modify (add_row (event_row payment user_id kind)); pure true) s
    ]

cp_txn_prefix : Text
cp_txn_prefix = codes "cp-txn:"

-- f"cp-txn:{payment.payment_id}"
unfoldable pub cp_txn_key : Text → Text
unfolding cp_txn_prefix
cp_txn_key payment_id = cp_txn_prefix ++ payment_id

unfoldable pub kind_text : Kind → Text
kind_text Kind.tokens = codes "tokens"
kind_text Kind.subscription = codes "subscription"
kind_text Kind.unknown = codes "unknown"

unfoldable pub payment_meta : CreditablePayment → Kind → Json
unfolding kind_text
payment_meta payment kind = Json.obj (
    Fields.field "paymentId" (Json.str payment.payment_id) (
      Fields.field "productCode" (Json.str payment.product_code)
        (Fields.field "kind" (Json.str (kind_text kind)) Fields.end)))

-- what the audit row says of the subscription: `sub_status`, `plan` and `expires_at`
pub record Term : Type 0 where
  pub status : Option SubscriptionStatus
  pub plan : Option Text
  pub expires_at : Option ℕ

-- the expiry of a subscription that is paid for now
unfoldable pub paid_until : CreditablePayment → ℕ → ℕ
unfolding infer_interval_unit_from_code compute_expiry
paid_until payment now = compute_expiry now (infer_interval_unit_from_code payment.product_code) 1

-- the subscription of a payment of that kind, if it is for one
unfoldable pub activate : CreditablePayment → ℕ → Kind → Action Term
unfolding paid_until
activate payment user_id Kind.subscription = do
  now ← clock
  put_subscription user_id SubscriptionStatus.active (some payment.product_code)
      (some (paid_until payment now))
  pure (record {
    status = some SubscriptionStatus.active;
    plan = some payment.product_code;
    expires_at = some (paid_until payment now);
  })
activate payment user_id _ = pure (record { status = none; plan = none; expires_at = none })

unfoldable pub payment_event : CreditablePayment → ℕ → Price → Term → AuditEvent
payment_event payment user_id price term = record {
  user_id = user_id;
  session_id = none;
  payload =
      AuditPayload.cloudpayments_payment payment.payment_id payment.product_code price.kind
        payment.payment_type term.status term.plan term.expires_at price.credits payment.paid_at;
}

-- the rest of the transaction, once the dedup row is in
unfoldable pub credit_new : CreditablePayment → ℕ → Price → Action Bool
credit_new payment user_id price = do
  term ← activate payment user_id price.kind
  grant user_id price.credits (cp_txn_key payment.payment_id) (payment_meta payment price.kind)
      price.reason
  record_event (payment_event payment user_id price term)
  commit
  pure true

unfoldable pub credit_inserted : CreditablePayment → ℕ → Price → Bool → Action Bool
credit_inserted payment user_id price false = rollback >> pure false
credit_inserted payment user_id price true = credit_new payment user_id price

-- `try: … except Exception: await self._session.rollback(); raise`
unfoldable pub or_rollback : Result Bool × Session → Result Bool × Session
or_rollback (ok b, s) = (ok b, s)
or_rollback (err e, s) = (err e, record s { current = s.committed })

-- the transaction of one payment
unfoldable pub credit : CreditablePayment → ℕ → Price → Action Bool
unfolding or_rollback credit_inserted
credit payment user_id price s = or_rollback (
    (do
      inserted ← insert_event payment user_id price.kind
      credit_inserted payment user_id price inserted)
      s)

-- `_apply_payment`
unfoldable pub apply_payment : CloudPaymentsSettings → CreditablePayment → ℕ → Action Bool
unfolding credit
apply_payment settings payment user_id s = elim (price settings payment) [
  | none ↦ (ok false, s)
  | some p ↦ credit payment user_id p s
]

-- the loop of `handle`; the answer is `credited`
unfoldable pub apply_payments : CloudPaymentsSettings → ℕ → List CreditablePayment → Action ℕ
apply_payments settings user_id [] = pure 0
apply_payments settings user_id (payment ∷ payments) = do
  credited ← apply_payment settings payment user_id
  rest ← apply_payments settings user_id payments
  pure (if credited then suc rest else rest)
