-- ===== src/CloudPayments/Durable.antt =====
-- What a CloudPayments callback keeps of the committed database, payment by payment
-- (src/app/billing_cloudpayments/service.py).
use model_lib.Base.{
  ℕ, suc, ◌≡◌, inl, inr, Bool, true, false, Option, none, some, List, [], ◌∷◌, arith, if◌then◌else◌,
  Bool-cases, Table,
}
use model_lib.Base.Int.{ℤ}
use model_lib.Base.Text.{Text, is_empty}
use model_lib.Json.{Json, Fields, Runtime}
use model_lib.Tables.{
  SubscriptionStatus, Subscription, Kind, CloudPaymentsWebhookEvent, AuditLog, Db,
}
use model_lib.Session.{
  Session, Result, ok, err, Action, pure, clock, commit, rollback, session_scope,
}
use model_lib.Session.{Ensures}
use model_lib.Session.Keeps.{
  Keeps, Keeps-bind, Keeps-pure, Keeps-raise, Keeps-clock, Keeps-modify, Keeps-option,
}
use model_lib.Wallet.{GrantResult, grant}
use model_lib.Wallet.Integrity.{IsSound, committed-grant}
use model_lib.Wallet.Frame.{
  IsSound-money, check_user-Keeps, record_event-Keeps, grant-Keeps-IsSound,
  cloudpayments_webhook_events-grant,
}
use model_lib.Subscription.Sync.{put_subscription-Keeps}
use model_lib.CloudPayments.Verify.{CreditablePayment, Reply, list_payments}
use model_lib.CloudPayments.Parser.{
  parse_gate, parse_status, parse_operation_type, parse_user_id, parse_data,
}
use model_lib.CloudPayments.Payment.{IsSeen}
use model_lib.CloudPayments.Credit.{
  CloudPaymentsSettings, Price, price, find_event, event_row, add_row, insert_event, cp_txn_key,
  payment_meta, activate, payment_event, credit_new, credit_inserted, or_rollback, credit,
  apply_payment, apply_payments, paid_until,
}
use model_lib.CloudPayments.Service.{
  WebhookOutcome, ignored, user_not_found, not_a_completed_payment, invalid_account_id,
  resolve_user, outcome_of, reconcile, verify_payments, settle_device, data_of, handle_object,
  handle_json, handle,
}
use model_lib.Session.Durable.{
  Durable, Durable-Keeps, durable-request, Durable-bind, Durable-option, Durable-commit,
  Durable-rollback,
}

-- what the payments' statements keep
pub record IsPaymentFact (P : Db → Type 0) : Type 0 where
  pub audit : (db : Db) (t : List AuditLog) → P db → P (record db { audit_logs = t })
  pub subs : (db : Db) (t : Table Subscription) → P db → P (record db { subscriptions = t })
  pub row : (db : Db) (r : CloudPaymentsWebhookEvent) → P db → P (add_row r db)
  pub grants :
      (user_id : ℕ) (amount : ℤ) (key : Text) (meta : Json) (reason : Text)
      → Keeps P (grant user_id amount key meta reason)

module _ {P : Db → Type 0} where
  or_rollback-Durable : (m : Action Bool) → Durable P m → Durable P (λ s. or_rollback (m s))
  unfolding or_rollback
  or_rollback-Durable m d = record { at = λ s c o. rolled (m s) (d.at s c o) }
    where
      rolled :
          (x : Result Bool × Session)
          → P x.1.committed × Ensures (λ s'. P s'.current) x
          → P (or_rollback x).1.committed × Ensures (λ s'. P s'.current) (or_rollback x)
      rolled (ok b, s) h = h
      rolled (err e, s) (c, o) = (c, tt)

module _ {P : Db → Type 0} (fact : IsPaymentFact P) where
  activate-Keeps :
      (payment : CreditablePayment) (user_id : ℕ) (kind : Kind)
      → Keeps P (activate payment user_id kind)
  unfolding activate
  activate-Keeps payment user_id Kind.tokens = Keeps-pure _
  activate-Keeps payment user_id Kind.unknown = Keeps-pure _
  activate-Keeps payment user_id Kind.subscription = Keeps-bind clock _ Keeps-clock λ now.
      Keeps-bind _ _
        (put_subscription-Keeps fact.subs user_id SubscriptionStatus.active
          (some payment.product_code) (some (paid_until payment now)))
        λ _. Keeps-pure _

  insert_event-Keeps :
      (payment : CreditablePayment) (user_id : ℕ) (kind : Kind)
      → Keeps P (insert_event payment user_id kind)
  unfolding insert_event
  insert_event-Keeps payment user_id kind =
      Keeps-option (λ s. find_event payment.payment_id s.current.cloudpayments_webhook_events) _
        (λ _. pure false)
        (Keeps-bind _ _ (check_user-Keeps user_id) λ _.
          Keeps-bind _ _
            (Keeps-modify (add_row (event_row payment user_id kind))
              λ db h. fact.row db (event_row payment user_id kind) h)
            λ _. Keeps-pure true)
        λ _. Keeps-pure false

  credit-Durable :
      (payment : CreditablePayment) (user_id : ℕ) (p : Price) → Durable P (credit payment user_id p)
  unfolding credit credit_inserted credit_new
  credit-Durable payment user_id p =
      or_rollback-Durable _
        (Durable-bind _ _ (Durable-Keeps (insert_event-Keeps payment user_id p.kind)) inserted)
    where
      inserted : (b : Bool) → Durable P (credit_inserted payment user_id p b)
      inserted false =
          Durable-bind rollback _ Durable-rollback λ _. Durable-Keeps (Keeps-pure false)
      inserted true =
          Durable-bind _ _ (Durable-Keeps (activate-Keeps payment user_id p.kind)) λ term.
            Durable-bind _ _
              (Durable-Keeps (
                fact.grants user_id p.credits (cp_txn_key payment.payment_id)
                  (payment_meta payment p.kind) p.reason))
              λ _.
                Durable-bind _ _
                  (Durable-Keeps
                    (record_event-Keeps fact.audit (payment_event payment user_id p term)))
                  λ _. Durable-bind commit _ Durable-commit λ _. Durable-Keeps (Keeps-pure true)

  pub apply_payments-Durable :
      (settings : CloudPaymentsSettings) (user_id : ℕ) (payments : List CreditablePayment)
      → Durable P (apply_payments settings user_id payments)
  unfolding apply_payments apply_payment
  apply_payments-Durable settings user_id [] = Durable-Keeps (Keeps-pure 0)
  apply_payments-Durable settings user_id (payment ∷ payments) =
      Durable-bind (apply_payment settings payment user_id) _
        (Durable-option (λ _. price settings payment) (pure false) _
          (Durable-Keeps (Keeps-pure false)) λ p. credit-Durable payment user_id p)
        λ credited.
          Durable-bind _ _ (apply_payments-Durable settings user_id payments)
            λ rest. Durable-Keeps (Keeps-pure (if credited then suc rest else rest))

  reconcile-Durable :
      (settings : CloudPaymentsSettings) (user_id : ℕ) (x : Result (List CreditablePayment))
      → Durable P (reconcile settings user_id x)
  unfolding reconcile
  reconcile-Durable settings user_id (err e) = Durable-Keeps (Keeps-raise e)
  reconcile-Durable settings user_id (ok []) = Durable-Keeps (Keeps-pure _)
  reconcile-Durable settings user_id (ok (p ∷ ps)) =
      Durable-bind _ _ (apply_payments-Durable settings user_id (p ∷ ps))
        λ credited. Durable-Keeps (Keeps-pure (outcome_of credited))

  verify_payments-Durable :
      (py : Runtime) (settings : CloudPaymentsSettings) (user_id : ℕ) (x : Result (List Fields))
      → Durable P (verify_payments py settings user_id x)
  unfolding verify_payments
  verify_payments-Durable py settings user_id (err e) = Durable-Keeps (Keeps-raise e)
  verify_payments-Durable py settings user_id (ok payments) =
      Durable-bind clock _ (Durable-Keeps Keeps-clock) λ now. reconcile-Durable settings user_id _

module _ {P : Db → Type 0} (fact : IsPaymentFact P) (py : Runtime)
    (settings : CloudPaymentsSettings) (fetch : ℕ → Reply) where
  handle_object-Durable : (body : Fields) → Durable P (handle_object py settings fetch body)
  unfolding handle_object settle_device
  handle_object-Durable body =
      gate (parse_gate (parse_status py body) (parse_operation_type py body))
    where
      gate :
          (b : Bool)
          → Durable {A = WebhookOutcome} P (λ s. elim b [
            | false ↦ (ok (ignored not_a_completed_payment), s)
            | true ↦ elim (parse_user_id py body (data_of (parse_data py body))) [
              | none ↦ (ok (ignored invalid_account_id), s)
              | some device_id ↦ settle_device py settings fetch device_id s
            ]
          ])
      gate false = Durable-Keeps (Keeps-pure _)
      gate true =
          Durable-option (λ _. parse_user_id py body (data_of (parse_data py body)))
            (pure (ignored invalid_account_id)) _ (Durable-Keeps (Keeps-pure _))
            λ device_id.
              Durable-option (λ s. resolve_user py device_id s.current)
                (pure (ignored user_not_found)) _ (Durable-Keeps (Keeps-pure _))
                λ user_id. Durable-bind commit _ Durable-commit λ _.
                  verify_payments-Durable fact py settings user_id (list_payments (fetch device_id))

  handle_json-Durable : (x : Option Json) → Durable P (handle_json py settings fetch x)
  unfolding handle_json
  handle_json-Durable none = Durable-Keeps (Keeps-pure _)
  handle_json-Durable (some (Json.obj body)) = handle_object-Durable body
  handle_json-Durable (some Json.null) = Durable-Keeps (Keeps-pure _)
  handle_json-Durable (some (Json.bool _)) = Durable-Keeps (Keeps-pure _)
  handle_json-Durable (some (Json.str _)) = Durable-Keeps (Keeps-pure _)
  handle_json-Durable (some (Json.int _)) = Durable-Keeps (Keeps-pure _)
  handle_json-Durable (some (Json.arr _)) = Durable-Keeps (Keeps-pure _)
  handle_json-Durable (some (Json.float _)) = Durable-Keeps (Keeps-pure _)

  handle-Durable : (raw : List ℕ) → Durable P (handle py settings fetch raw)
  unfolding handle
  handle-Durable raw = elim (Bool-cases (is_empty settings.api_token)) [
    | inl e ↦ rw (e) (Durable-Keeps (Keeps-raise _))
    | inr e ↦ elim (Bool-cases (is_empty raw)) [
      | inl e' ↦ rw (e, e') (Durable-Keeps (Keeps-pure _))
      | inr e' ↦ rw (e, e') (handle_json-Durable (py.json_loads raw))
    ]
  ]

IsSound-payments : IsPaymentFact IsSound
IsSound-payments = record {
  audit = IsSound-money.audit;
  subs = IsSound-money.subs;
  row = λ db r h. IsSound-money.cloudpayments db (r ∷ db.cloudpayments_webhook_events) h;
  grants = λ u a k m r. grant-Keeps-IsSound u a k m r;
}

pub IsSeen-payments : (payment_id : Text) → IsPaymentFact (IsSeen payment_id)
unfolding find_event
IsSeen-payments payment_id = record {
  audit = λ db t h. h;
  subs = λ db t h. h;
  row = λ db r h. ground arith;
  grants = λ u a k m r. record {
    at = λ s h. seen (grant u a k m r s) (rw (cloudpayments_webhook_events-grant u a k m r s) h);
    stays = λ s. committed-grant u a k m r s;
  };
}
  where
    seen :
        (x : Result GrantResult × Session)
        → IsSeen payment_id x.1.current
        → Ensures (λ s'. IsSeen payment_id s'.current) x
    seen (ok g, s) h = h
    seen (err e, s) h = tt

-- A callback keeps the tables sound, also of what it commits before it raises.
pub handle-Durable-IsSound :
    (py : Runtime) (settings : CloudPaymentsSettings) (fetch : ℕ → Reply) (raw : List ℕ)
    → Durable IsSound (handle py settings fetch raw)
handle-Durable-IsSound py settings fetch raw = handle-Durable IsSound-payments py settings fetch raw

-- A payment that is in the committed dedup journal stays there through a callback that starts
-- with nothing uncommitted, even one that raises.
callback_request_keeps_IsSeen :
    (py : Runtime) (settings : CloudPaymentsSettings) (fetch : ℕ → Reply) (raw : List ℕ)
    (payment_id : Text) (s : Session)
    → s.committed ≡ s.current
    → IsSeen payment_id s.committed
    → IsSeen payment_id (session_scope (handle py settings fetch raw) s).1.committed
callback_request_keeps_IsSeen py settings fetch raw payment_id s =
    durable-request (handle py settings fetch raw) s
      (handle-Durable (IsSeen-payments payment_id) py settings fetch raw)
