-- ===== src/Adapty/Service.antt =====
-- src/app/billing_adapty/service.py: one webhook delivery, from the raw body to the outcome. The
-- log record of an outcome is not modelled.
use model_lib.Base.{
  ℕ, zero, Bool, true, false, Option, none, some, List, [], ◌∷◌, ◌++◌, if◌then◌else◌,
}
use model_lib.Base.Int.{ℤ, pos}
use model_lib.Base.Text.{Text, codes, text_eq, is_empty}
use model_lib.Json.{Json, Fields, Runtime}
use model_lib.Tables.{SubscriptionStatus, Subscription, AdaptyWebhookEvent, Semantics, AuditPayload}
use model_lib.Session.{ok, Action, ⊤, pure, gets, modify, ◌>>=◌, ◌>>◌}
use model_lib.Audit.{AuditEvent, record_event, check_user}
use model_lib.Wallet.{grant}
use model_lib.TokenPurchase.{Products, product_credits}
use model_lib.Subscription.Service.{put_subscription}
use model_lib.Adapty.Parser.{
  ParsedEvent, parse_event_id, parse_event_type, parse_customer_user_id, is_known_event,
  parse_event, classify_event,
}

-- the settings `adapty_product_tokens()` and `adapty_subscription_tokens_grant`
pub record AdaptySettings : Type 0 where
  pub product_tokens : Products
  pub subscription_tokens_grant : ℤ

pub data Reason : Type 0 where
  empty_body invalid_json not_an_object missing_event_id missing_customer_user_id user_not_found :
      Reason
  unknown_event : Text → Reason

pub data WebhookOutcome : Type 0 where
  ignored : Reason → WebhookOutcome
  duplicate applied : WebhookOutcome

unfoldable pub find_event : Text → List AdaptyWebhookEvent → Option AdaptyWebhookEvent
find_event event_id [] = none
find_event event_id (e ∷ es) =
    if text_eq e.event_id event_id then some e else find_event event_id es

abbrev pub event_row : ParsedEvent → Fields → AdaptyWebhookEvent
event_row event body = record {
  event_id = event.event_id;
  user_id = event.customer_user_id;
  event_type = event.event_type;
  payload = Json.obj body;
}

-- INSERT INTO adapty_webhook_events … ON CONFLICT (event_id) DO NOTHING RETURNING event_id
unfoldable pub insert_event : ParsedEvent → Fields → Action Bool
unfolding check_user
insert_event event body s = elim (find_event event.event_id s.current.adapty_webhook_events) [
  | some _ ↦ (ok false, s)
  | none ↦
      (do
        check_user event.customer_user_id
        modify (λ db. record db {
          adapty_webhook_events = event_row event body ∷ db.adapty_webhook_events;
        })
        pure true)
        s
]

-- `a or b` on texts
abbrev pub or_text : Option Text → Text → Text
or_text none d = d
or_text (some t) d = if is_empty t then d else t

-- `event.transaction_id or event.original_transaction_id or event.event_id`
unfoldable pub period_id : ParsedEvent → Text
unfolding is_empty
period_id event =
    or_text event.transaction_id (or_text event.original_transaction_id event.event_id)

-- `mapped or fallback`
abbrev pub or_credits : Option ℤ → ℤ → ℤ
or_credits none d = d
or_credits (some (pos zero)) d = d
or_credits (some n) d = n

-- `_tier_for`
unfoldable pub tier_for : AdaptySettings → Option Text → ℤ
unfolding product_credits is_empty
tier_for settings vendor_product_id =
    or_credits (product_credits (or_text vendor_product_id []) settings.product_tokens)
      settings.subscription_tokens_grant

adapty_txn_prefix : Text
adapty_txn_prefix = codes "adapty-txn:"

-- f"adapty-txn:{txn}"
unfoldable pub adapty_txn_key : Text → Text
unfolding adapty_txn_prefix
adapty_txn_key txn = adapty_txn_prefix ++ txn

unfoldable pub adapty_reason : Text
adapty_reason = codes "adapty_subscription"

unfoldable pub optional_text : Option Text → Json
optional_text none = Json.null
optional_text (some t) = Json.str t

unfoldable pub adapty_meta : ParsedEvent → Json
unfolding optional_text period_id
adapty_meta event = Json.obj (
    Fields.field "transactionId" (Json.str (period_id event)) (
      Fields.field "eventType" (Json.str event.event_type)
        (Fields.field "vendorProductId" (optional_text event.vendor_product_id) Fields.end)))

-- `_grant`
unfoldable pub grant_tier : AdaptySettings → ParsedEvent → Action ⊤
grant_tier settings event = do
  grant event.customer_user_id (tier_for settings event.vendor_product_id)
      (adapty_txn_key (period_id event)) (adapty_meta event) adapty_reason
  pure tt

unfoldable pub status_of : Option Subscription → Option SubscriptionStatus
status_of none = none
status_of (some row) = some row.status

unfoldable pub plan_of : Option Subscription → Option Text
plan_of none = none
plan_of (some row) = row.plan

unfoldable pub expiry_of : Option Subscription → Option ℕ
expiry_of none = none
expiry_of (some row) = row.expires_at

-- `_upsert_subscription` and `_grant`, or `_read_subscription`, by the event's semantics; the answer
-- is the status and the plan for the audit row
unfoldable pub apply_semantics :
    AdaptySettings → ParsedEvent → Semantics → Action (Option SubscriptionStatus × Option Text)
unfolding status_of plan_of expiry_of
apply_semantics settings event Semantics.noop = do
  row ← gets (λ db. db.subscriptions event.customer_user_id)
  pure (status_of row, plan_of row)
apply_semantics settings event Semantics.granting = do
  put_subscription event.customer_user_id SubscriptionStatus.active event.vendor_product_id
      event.expires_at
  grant_tier settings event
  pure (some SubscriptionStatus.active, event.vendor_product_id)
apply_semantics settings event Semantics.expiring = do
  row ← gets (λ db. db.subscriptions event.customer_user_id)
  put_subscription event.customer_user_id SubscriptionStatus.expired (plan_of row) (expiry_of row)
  pure (some SubscriptionStatus.expired, plan_of row)

unfoldable pub adapty_event : ParsedEvent → Option SubscriptionStatus × Option Text → AuditEvent
adapty_event event (status, plan) = record {
  user_id = event.customer_user_id;
  session_id = none;
  payload =
      AuditPayload.adapty_subscription event.event_id event.event_type (classify_event event) status
        plan event.expires_at (period_id event) event.will_renew event.customer_user_id;
}

-- `_apply` of an event that was not seen before
unfoldable pub apply_new : AdaptySettings → ParsedEvent → Action WebhookOutcome
apply_new settings event = do
  seen ← apply_semantics settings event (classify_event event)
  record_event (adapty_event event seen)
  pure applied

unfoldable pub apply_inserted : AdaptySettings → ParsedEvent → Bool → Action WebhookOutcome
apply_inserted settings event false = pure duplicate
apply_inserted settings event true = apply_new settings event

-- `_apply`
unfoldable pub apply : AdaptySettings → ParsedEvent → Fields → Action WebhookOutcome
unfolding apply_inserted
apply settings event body = do
  inserted ← insert_event event body
  apply_inserted settings event inserted

-- stages 3 and 4 of `handle`: the user, then the type
unfoldable pub dispatch : Runtime → AdaptySettings → Fields → Text → ℕ → Action WebhookOutcome
dispatch py settings body event_id user_id s = elim (s.current.users user_id) [
  | none ↦ (ok (ignored user_not_found), s)
  | some _ ↦ elim (is_known_event (parse_event_type body)) [
    | false ↦ (ok (ignored (unknown_event (parse_event_type body))), s)
    | true ↦ apply settings (parse_event py body event_id (parse_event_type body) user_id) body s
  ]
]

-- stage 2 of `handle`
unfoldable pub handle_object : Runtime → AdaptySettings → Fields → Action WebhookOutcome
unfolding dispatch
handle_object py settings body s = elim (parse_event_id body) [
  | none ↦ (ok (ignored missing_event_id), s)
  | some event_id ↦ elim (parse_customer_user_id py body) [
    | none ↦ (ok (ignored missing_customer_user_id), s)
    | some user_id ↦ dispatch py settings body event_id user_id s
  ]
]

-- stage 1, after `json.loads`
unfoldable pub handle_json : Runtime → AdaptySettings → Option Json → Action WebhookOutcome
unfolding handle_object
handle_json py settings none = pure (ignored invalid_json)
handle_json py settings (some (Json.obj body)) = handle_object py settings body
handle_json py settings (some _) = pure (ignored not_an_object)

-- `AdaptyWebhookService.handle`
unfoldable pub handle : Runtime → AdaptySettings → List ℕ → Action WebhookOutcome
unfolding handle_json
handle py settings [] = pure (ignored empty_body)
handle py settings (c ∷ raw) = handle_json py settings (py.json_loads (c ∷ raw))
