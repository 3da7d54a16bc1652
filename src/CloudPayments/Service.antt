-- ===== src/CloudPayments/Service.antt =====
-- src/app/billing_cloudpayments/service.py: one callback, from the raw body to the outcome. The log
-- record of an outcome is not modelled.
use model_lib.Base.{ℕ, zero, suc, true, false, Option, none, some, List, [], ◌∷◌, if◌then◌else◌}
use model_lib.Base.Text.{is_empty}
use model_lib.Errors.{AppError}
use model_lib.Json.{Json, Fields, Runtime}
use model_lib.Tables.{Db}
use model_lib.Session.{Result, ok, err, Action, pure, raise, clock, commit, ◌>>=◌, ◌>>◌}
use model_lib.CloudPayments.Parser.{
  parse_data, parse_status, parse_operation_type, parse_gate, parse_user_id,
}
use model_lib.CloudPayments.Verify.{
  CreditablePayment, Reply, list_payments, select_creditable_payments,
}
use model_lib.CloudPayments.Credit.{CloudPaymentsSettings, apply_payments}

pub data Reason : Type 0 where
  empty_body invalid_json not_an_object not_a_completed_payment invalid_account_id user_not_found
        no_creditable_payment :
      Reason

pub data WebhookOutcome : Type 0 where
  ignored : Reason → WebhookOutcome
  duplicate applied : WebhookOutcome

-- `_resolve_user`
unfoldable pub resolve_user : Runtime → ℕ → Db → Option ℕ
resolve_user py x db = elim (db.users x) [
  | some _ ↦ some x
  | none ↦ db.auth_devices (py.uuid_text x)
]

unfoldable pub outcome_of : ℕ → WebhookOutcome
outcome_of zero = duplicate
outcome_of (suc n) = applied

-- stages 5 and 6 of `handle`, on what the reconciliation gave
unfoldable pub reconcile :
    CloudPaymentsSettings → ℕ → Result (List CreditablePayment) → Action WebhookOutcome
unfolding outcome_of
reconcile settings user_id (err e) = raise e
reconcile settings user_id (ok []) = pure (ignored no_creditable_payment)
reconcile settings user_id (ok (p ∷ ps)) = do
  credited ← apply_payments settings user_id (p ∷ ps)
  pure (outcome_of credited)

-- stage 4 of `handle`
unfoldable pub verify_payments :
    Runtime → CloudPaymentsSettings → ℕ → Result (List Fields) → Action WebhookOutcome
unfolding reconcile
verify_payments py settings user_id (err e) = raise e
verify_payments py settings user_id (ok payments) = do
  now ← clock
  reconcile settings user_id
      (select_creditable_payments py payments settings.paid_statuses now settings.freshness_hours)

-- stage 3 of `handle`; `fetch` is the GET for a device id
unfoldable pub settle_device :
    Runtime → CloudPaymentsSettings → (ℕ → Reply) → ℕ → Action WebhookOutcome
unfolding verify_payments
settle_device py settings fetch device_id s = elim (resolve_user py device_id s.current) [
  | none ↦ (ok (ignored user_not_found), s)
  | some user_id ↦
      (commit >> verify_payments py settings user_id (list_payments (fetch device_id))) s
]

-- `_parse_data(body) or {}`
abbrev pub data_of : Option Fields → Fields
data_of none = Fields.end
data_of (some fields) = fields

-- stage 2 of `handle`
unfoldable pub handle_object :
    Runtime → CloudPaymentsSettings → (ℕ → Reply) → Fields → Action WebhookOutcome
unfolding settle_device
handle_object py settings fetch body s =
    elim (parse_gate (parse_status py body) (parse_operation_type py body)) [
      | false ↦ (ok (ignored not_a_completed_payment), s)
      | true ↦ elim (parse_user_id py body (data_of (parse_data py body))) [
        | none ↦ (ok (ignored invalid_account_id), s)
        | some device_id ↦ settle_device py settings fetch device_id s
      ]
    ]

-- stage 1 of `handle`, after `json.loads`
unfoldable pub handle_json :
    Runtime → CloudPaymentsSettings → (ℕ → Reply) → Option Json → Action WebhookOutcome
unfolding handle_object
handle_json py settings fetch none = pure (ignored invalid_json)
handle_json py settings fetch (some (Json.obj body)) = handle_object py settings fetch body
handle_json py settings fetch (some _) = pure (ignored not_an_object)

-- `CloudPaymentsWebhookService.handle`
unfoldable pub handle :
    Runtime → CloudPaymentsSettings → (ℕ → Reply) → List ℕ → Action WebhookOutcome
unfolding handle_json is_empty
handle py settings fetch raw =
    if is_empty settings.api_token
    then raise AppError.cloudpayments_webhook_misconfigured
    else if is_empty raw
    then pure (ignored empty_body)
    else handle_json py settings fetch (py.json_loads raw)
