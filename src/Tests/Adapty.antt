-- ===== src/Tests/Adapty.antt =====
-- Webhook deliveries from Adapty.
use model_lib.Base.{ℕ, ◌≡◌, refl, none, some, List, [], ◌∷◌}
use model_lib.Base.Int.{pos}
use model_lib.Base.Text.{codes, text_eq}
use model_lib.Json.{Json, Fields, Runtime}
use model_lib.Session.{Session, ok, session_scope}
use model_lib.Wallet.{grant, find_tx}
use model_lib.Wallet.Frame.{SameMoney}
use model_lib.Subscription.Service.{put_subscription}
use model_lib.Adapty.Parser.{
  parse_event_id, parse_customer_user_id, is_known_event, is_granting_event, parse_event_type,
  parse_event, ParsedEvent, classify_event,
}
use model_lib.Adapty.Service.{
  tier_for, adapty_event, insert_event, find_event, AdaptySettings, duplicate, apply, apply_new,
  apply_semantics, grant_tier, handle, adapty_txn_key, period_id,
}
use model_lib.Adapty.Delivery.{handle-handle}
use model_lib.Adapty.Credits.{apply_request_period}
use model_lib.Tests.Data.{request, key_1}

-- the body of every delivery: an event of user 1
abbrev renewal_body : Fields
renewal_body = Fields.field "event_id" (Json.str (101 ∷ [])) (
    Fields.field "event_type" (Json.str (codes "subscription_renewed"))
      (Fields.field "customer_user_id" (Json.str (49 ∷ [])) Fields.end))

abbrev python : Runtime
python = record {
  json_loads = λ raw. some (Json.obj renewal_body);
  uuid = λ t. some 1;
  uuid_text = λ u. [];
  fromisoformat = λ t. none;
  instant_of_ms = λ v. none;
  container_text = λ v. [];
}

abbrev settings : AdaptySettings
settings = record { product_tokens = []; subscription_tokens_grant = pos 100 }

abbrev raw : List ℕ
raw = 123 ∷ 125 ∷ []

abbrev delivered : Session
delivered = (handle python settings raw request).1

handle-handle_example :
    handle python settings raw (record delivered { now = 100000000000007 })
    ≡ (ok duplicate, record delivered { now = 100000000000007 })
unfolding handle parse_event_id parse_customer_user_id is_known_event is_granting_event
    parse_event_type apply insert_event find_event parse_event apply_new classify_event
    apply_semantics put_subscription grant_tier grant tier_for adapty_event
handle-handle_example = handle-handle python settings raw 100000000000007 request delivered refl

abbrev renewal : ParsedEvent
renewal = record {
  event_id = 101 ∷ [];
  event_type = codes "subscription_renewed";
  customer_user_id = 1;
  vendor_product_id = some key_1;
  expires_at = some 200000000000000;
  transaction_id = some (116 ∷ []);
  original_transaction_id = none;
  is_active = none;
  access_level_id = none;
  will_renew = none;
}

abbrev renewed : Session
renewed = (apply_new settings renewal request).1

abbrev committed : Session
committed = record renewed { committed = renewed.current }

apply_request_period_example :
    SameMoney committed.committed
      (session_scope
        (apply settings (record renewal { event_id = 102 ∷ [] }) renewal_body)
        committed).1.committed
unfolding apply_new classify_event apply_semantics put_subscription grant_tier grant tier_for
    adapty_event find_tx adapty_txn_key period_id text_eq
apply_request_period_example =
    apply_request_period settings (record renewal { event_id = 102 ∷ [] }) renewal_body committed
      refl refl
