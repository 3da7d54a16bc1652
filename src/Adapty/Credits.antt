-- ===== src/Adapty/Credits.antt =====
-- What the Adapty webhook (src/app/billing_adapty/service.py) does to the credits.
use model_lib.Base.{ℕ, ◌≡◌, refl, Bool, true, false, Option, none, some, List, [], ◌∷◌}
use model_lib.Base.Text.{Text}
use model_lib.Json.{Json, Fields, Runtime}
use model_lib.Tables.{SubscriptionStatus, Semantics, Db}
use model_lib.Session.{Session, ok, pure, session_scope}
use model_lib.Session.Keeps.{
  Keeps, Keeps-bind, Keeps-pure, Keeps-gets, Keeps-modify, Keeps-option, Keeps-request,
}
use model_lib.Wallet.{grant}
use model_lib.Wallet.Integrity.{IsSound}
use model_lib.Wallet.Frame.{
  IsMoneyFact, SameMoney, IsUsed, IsSound-money, SameMoney-money, check_user-Keeps,
  record_event-Keeps, grant-Keeps-IsSound, grant-Keeps-SameMoney,
}
use model_lib.Subscription.Sync.{put_subscription-Keeps}
use model_lib.Adapty.Parser.{
  ParsedEvent, classify_event, parse_event_id, parse_customer_user_id, parse_event_type,
  parse_event, is_known_event,
}
use model_lib.Adapty.Service.{
  AdaptySettings, WebhookOutcome, unknown_event, missing_event_id, missing_customer_user_id,
  user_not_found, ignored, duplicate, applied, find_event, event_row, insert_event, apply_inserted,
  apply, dispatch, handle_object, handle_json, handle, apply_semantics, apply_new, adapty_event,
  grant_tier, tier_for, adapty_txn_key, adapty_meta, adapty_reason, period_id, status_of, plan_of,
  expiry_of,
}

module _ {P : Db → Type 0} (money : IsMoneyFact P) where
  apply_semantics-Keeps :
      (settings : AdaptySettings) (event : ParsedEvent) (m : Semantics)
      → Keeps P (grant_tier settings event)
      → Keeps P (apply_semantics settings event m)
  unfolding apply_semantics
  apply_semantics-Keeps settings event Semantics.noop k =
      Keeps-bind _ _ (Keeps-gets (λ db. db.subscriptions event.customer_user_id))
        λ row. Keeps-pure (status_of row, plan_of row)
  apply_semantics-Keeps settings event Semantics.granting k =
      Keeps-bind _ _
        (put_subscription-Keeps money.subs event.customer_user_id SubscriptionStatus.active
          event.vendor_product_id event.expires_at)
        λ _.
          Keeps-bind _ _ k λ _. Keeps-pure (some SubscriptionStatus.active, event.vendor_product_id)
  apply_semantics-Keeps settings event Semantics.expiring k =
      Keeps-bind _ _ (Keeps-gets (λ db. db.subscriptions event.customer_user_id)) λ row.
        Keeps-bind _ _
          (put_subscription-Keeps money.subs event.customer_user_id SubscriptionStatus.expired
            (plan_of row) (expiry_of row))
          λ _. Keeps-pure (some SubscriptionStatus.expired, plan_of row)

  apply_new-Keeps :
      (settings : AdaptySettings) (event : ParsedEvent)
      → Keeps P (grant_tier settings event)
      → Keeps P (apply_new settings event)
  unfolding apply_new
  apply_new-Keeps settings event k =
      Keeps-bind _ _ (apply_semantics-Keeps settings event (classify_event event) k) λ seen.
        Keeps-bind _ _ (record_event-Keeps money.audit (adapty_event event seen))
          λ _. Keeps-pure applied

  insert_event-Keeps : (event : ParsedEvent) (body : Fields) → Keeps P (insert_event event body)
  unfolding insert_event
  insert_event-Keeps event body =
      Keeps-option (λ s. find_event event.event_id s.current.adapty_webhook_events) _
        (λ _. pure false)
        (Keeps-bind _ _ (check_user-Keeps event.customer_user_id) λ _.
          Keeps-bind _ _
            (Keeps-modify _
              λ db h. money.adapty db (event_row event body ∷ db.adapty_webhook_events) h)
            λ _. Keeps-pure true)
        (λ _. Keeps-pure false)

  apply-Keeps :
      (settings : AdaptySettings) (event : ParsedEvent) (body : Fields)
      → Keeps P (grant_tier settings event)
      → Keeps P (apply settings event body)
  unfolding apply apply_inserted
  apply-Keeps settings event body k = Keeps-bind _ _ (insert_event-Keeps event body) λ b. inserted b
    where
      inserted : (b : Bool) → Keeps P (apply_inserted settings event b)
      inserted false = Keeps-pure duplicate
      inserted true = apply_new-Keeps settings event k

  dispatch-Keeps :
      (py : Runtime) (settings : AdaptySettings) (body : Fields) (event_id : Text) (user_id : ℕ)
      → ((event : ParsedEvent) → Keeps P (grant_tier settings event))
      → Keeps P (dispatch py settings body event_id user_id)
  unfolding dispatch
  dispatch-Keeps py settings body event_id user_id k =
      Keeps-option (λ s. s.current.users user_id) (pure (ignored user_not_found)) _ (Keeps-pure _)
        (λ _. known (is_known_event (parse_event_type body)))
    where
      known :
          (b : Bool)
          → Keeps {A = WebhookOutcome} P (λ s. elim b [
            | false ↦ (ok (ignored (unknown_event (parse_event_type body))), s)
            | true ↦
                apply settings (parse_event py body event_id (parse_event_type body) user_id) body s
          ])
      known false = Keeps-pure _
      known true = apply-Keeps settings _ body (k _)

  handle_object-Keeps :
      (py : Runtime) (settings : AdaptySettings) (body : Fields)
      → ((event : ParsedEvent) → Keeps P (grant_tier settings event))
      → Keeps P (handle_object py settings body)
  unfolding handle_object
  handle_object-Keeps py settings body k =
      Keeps-option (λ s. parse_event_id body) (pure (ignored missing_event_id)) _ (Keeps-pure _)
        λ event_id.
          Keeps-option (λ s. parse_customer_user_id py body)
            (pure (ignored missing_customer_user_id)) _ (Keeps-pure _)
            λ user_id. dispatch-Keeps py settings body event_id user_id k

  handle_json-Keeps :
      (py : Runtime) (settings : AdaptySettings) (x : Option Json)
      → ((event : ParsedEvent) → Keeps P (grant_tier settings event))
      → Keeps P (handle_json py settings x)
  unfolding handle_json
  handle_json-Keeps py settings none k = Keeps-pure _
  handle_json-Keeps py settings (some (Json.obj body)) k = handle_object-Keeps py settings body k
  handle_json-Keeps py settings (some Json.null) k = Keeps-pure _
  handle_json-Keeps py settings (some (Json.bool _)) k = Keeps-pure _
  handle_json-Keeps py settings (some (Json.str _)) k = Keeps-pure _
  handle_json-Keeps py settings (some (Json.int _)) k = Keeps-pure _
  handle_json-Keeps py settings (some (Json.arr _)) k = Keeps-pure _
  handle_json-Keeps py settings (some (Json.float _)) k = Keeps-pure _

  handle-Keeps :
      (py : Runtime) (settings : AdaptySettings) (raw : List ℕ)
      → ((event : ParsedEvent) → Keeps P (grant_tier settings event))
      → Keeps P (handle py settings raw)
  unfolding handle
  handle-Keeps py settings [] k = Keeps-pure _
  handle-Keeps py settings (c ∷ raw) k = handle_json-Keeps py settings (py.json_loads (c ∷ raw)) k

grant_tier-Keeps :
    {P : Db → Type 0} (settings : AdaptySettings) (event : ParsedEvent)
    → Keeps P (
        grant event.customer_user_id
          (tier_for settings event.vendor_product_id)
          (adapty_txn_key (period_id event))
          (adapty_meta event)
          adapty_reason)
    → Keeps P (grant_tier settings event)
unfolding grant_tier
grant_tier-Keeps settings event k = Keeps-bind _ _ k λ _. Keeps-pure tt

-- An Adapty delivery keeps the tables sound, whatever was posted.
pub handle-Keeps-IsSound :
    (py : Runtime) (settings : AdaptySettings) (raw : List ℕ)
    → Keeps IsSound (handle py settings raw)
handle-Keeps-IsSound py settings raw = handle-Keeps IsSound-money py settings raw λ event.
    grant_tier-Keeps settings event (
      grant-Keeps-IsSound event.customer_user_id (tier_for settings event.vendor_product_id)
        (adapty_txn_key (period_id event)) (adapty_meta event) adapty_reason)

-- Once the key of an event's period is in the committed ledger, applying that event or any other
-- of the same period and user, with nothing uncommitted before it, moves no balance and adds no
-- ledger row, under any event id, of any type and product, and with any settings.
pub apply_request_period :
    (settings : AdaptySettings) (event : ParsedEvent) (body : Fields) (s : Session)
    → s.committed ≡ s.current
    → IsUsed event.customer_user_id (adapty_txn_key (period_id event)) s.committed
    → SameMoney s.committed (session_scope (apply settings event body) s).1.committed
apply_request_period settings event body s start used =
    Keeps-request (SameMoney s.committed) (apply settings event body) s
      (apply-Keeps (SameMoney-money s.committed) settings event body (
        grant_tier-Keeps settings event (
          grant-Keeps-SameMoney event.customer_user_id (tier_for settings event.vendor_product_id)
            (adapty_txn_key (period_id event)) (adapty_meta event) adapty_reason s.committed used)))
      start (record { balances = λ u. refl; rows = refl })
