-- ===== src/Tests/CloudPayments.antt =====
-- Callbacks from CloudPayments and the payments that broadapps reports.
use model_lib.Base.{
  ℕ, ◌+◌, ◌-◌, ◌*◌, ◌≡◌, refl, ◌↔◌, false, none, some, List, [], ◌∷◌, arith, if◌then◌else◌, length,
  All,
}
use model_lib.Base.Int.{pos, pos_part}
use model_lib.Base.Text.{codes, text_eq}
use model_lib.Json.{Json, Fields, Items, IsoTime, Runtime}
use model_lib.Session.{Session, ok}
use mathlib.Core.List.{Memᴰ}
use model_lib.Audit.{record_event}
use model_lib.Wallet.{grant, current_balance, existing_tx}
use model_lib.Wallet.Frame.{is_some, IsUsed}
use model_lib.TokenPurchase.{product_credits}
use model_lib.Subscription.Service.{put_subscription}
use model_lib.CloudPayments.Verify.{
  creditable, CreditablePayment, Reply, select_creditable_payments, hour_us,
}
use model_lib.CloudPayments.Selection.{IsPaid, select_iff}
use model_lib.CloudPayments.Credit.{
  CloudPaymentsSettings, Price, price, apply_payment, apply_payments, cp_txn_key, find_event,
  credit, credit_inserted, credit_new, insert_event, activate, or_rollback, token_price,
  payment_event,
}
use model_lib.CloudPayments.Payment.{
  IsSeen, is_seen, apply_payment_exact, apply_payment_quiet, apply_payment_seen,
}
use model_lib.CloudPayments.Batch.{IsSettled, apply_payments_settle}
use model_lib.Tests.Data.{request, key_1}

-- the instant of the payments, a second before the request
abbrev paid_time : ℕ
paid_time = 99999999000000

-- the item of the reply: a succeeded one-time payment
abbrev item : Fields
item = Fields.field "status" (Json.str (codes "Succeeded")) (
    Fields.field "paid_at" (Json.str (codes "T")) (
      Fields.field "payment_id" (Json.str (112 ∷ [])) (
        Fields.field "product"
          (Json.obj (
            Fields.field "code" (Json.str key_1)
              (Fields.field "payment_type" (Json.str (codes "one_time")) Fields.end)))
          Fields.end)))

abbrev callback : Fields
callback = Fields.field "Status" (Json.str (codes "Completed")) (
    Fields.field "OperationType" (Json.str (codes "Payment"))
      (Fields.field "AccountId" (Json.str (49 ∷ [])) Fields.end))

abbrev python : Runtime
python = record {
  json_loads = λ raw. some (Json.obj callback);
  uuid = λ t. some 1;
  uuid_text = λ u. [];
  fromisoformat = λ t. some (IsoTime.aware paid_time);
  instant_of_ms = λ v. none;
  container_text = λ v. [];
}

abbrev settings : CloudPaymentsSettings
settings = record {
  api_token = key_1;
  token_products = (key_1, pos 500) ∷ [];
  product_tokens = [];
  subscription_tokens_grant = pos 100;
  paid_statuses = codes "succeeded" ∷ [];
  freshness_hours = 24;
}

abbrev fetch : ℕ → Reply
fetch device_id = Reply.response 200 (
    some
      (Json.obj (Fields.field "data" (Json.arr (Items.cons (Json.obj item) Items.nil)) Fields.end)))

abbrev payment : CreditablePayment
payment = record {
  payment_id = 112 ∷ [];
  product_code = key_1;
  payment_type = codes "one_time";
  status = codes "succeeded";
  paid_at = paid_time;
}

abbrev raw : List ℕ
raw = 123 ∷ 125 ∷ []

abbrev credited : Session
credited = (apply_payment settings payment 1 request).1

apply_payment_exact_example :
    (p : Price) × (price settings payment ≡ some p)
    × (credited.committed ≡ credited.current)
    × IsSeen payment.payment_id credited.committed
    × (is_seen (find_event payment.payment_id request.current.cloudpayments_webhook_events) ≡ false)
    × IsUsed 1 (cp_txn_key payment.payment_id) credited.committed
    × (current_balance 1 credited.committed
        ≡ current_balance 1 request.current
          + (if is_some (existing_tx 1 (cp_txn_key payment.payment_id) request.current)
              then 0
              else pos_part p.credits))
unfolding apply_payment price product_credits text_eq token_price credit or_rollback insert_event
    credit_inserted credit_new activate grant record_event find_event put_subscription payment_event
apply_payment_exact_example = apply_payment_exact settings payment 1 request credited refl

abbrev unknown_payment : CreditablePayment
unknown_payment = record payment { product_code = [] }

apply_payment_quiet_example :
    (request.committed ≡ request.committed) × (request.current ≡ request.committed)
unfolding apply_payment price product_credits text_eq token_price credit or_rollback insert_event
    credit_inserted credit_new activate grant record_event find_event put_subscription payment_event
apply_payment_quiet_example =
    apply_payment_quiet settings unknown_payment 1 request request (ok false) refl refl
      (ground arith)

apply_payment_seen_example : apply_payment settings payment 1 credited ≡ (ok false, credited)
unfolding apply_payment price product_credits text_eq token_price credit or_rollback insert_event
    credit_inserted credit_new activate grant record_event find_event put_subscription payment_event
apply_payment_seen_example = apply_payment_seen settings payment 1 credited refl refl

abbrev week_payment : CreditablePayment
week_payment = record payment { product_code = codes "week"; payment_type = codes "subscription" }

abbrev both : List CreditablePayment
both = payment ∷ week_payment ∷ []

abbrev looped : Session
looped = (apply_payments settings 1 both request).1

-- the second payment has the id of the first
apply_payments_settle_example :
    (looped.committed ≡ looped.current)
    × All (IsSettled settings looped.committed) both
    × (length looped.committed.cloudpayments_webhook_events
        ≡ 1 + length request.committed.cloudpayments_webhook_events)
unfolding apply_payments apply_payment price product_credits text_eq token_price credit or_rollback
    insert_event credit_inserted credit_new activate grant record_event find_event put_subscription
    payment_event
apply_payments_settle_example = apply_payments_settle settings 1 both request looped 1 refl refl

select_iff_example : Memᴰ payment (payment ∷ []) ↔ (
    (i : Fields) × Memᴰ i (item ∷ [])
    × IsPaid python settings.paid_statuses (request.now - 24 * hour_us) i payment)
unfolding select_creditable_payments creditable text_eq
select_iff_example =
    select_iff python (item ∷ []) settings.paid_statuses request.now 24 (payment ∷ []) payment refl
