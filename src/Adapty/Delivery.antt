-- ===== src/Adapty/Delivery.antt =====
-- Deliveries of the Adapty webhook (src/app/billing_adapty/service.py): what is ignored, what is a
-- duplicate, and what a delivery may never do to the money.
use model_lib.Base.{
  ℕ, ◌≡◌, refl, inl, inr, Bool, true, false, Option, none, some, List, [], ◌∷◌, arith, Option-cases,
}
use model_lib.Base.Text.{Text, text_eq_refl}
use model_lib.Json.{Json, Fields, Runtime}
use model_lib.Tables.{AdaptyWebhookEvent, Db}
use model_lib.Session.{Session, Result, ok, err}
use model_lib.Session.{Ensures}
use model_lib.Audit.{record_event}
use model_lib.Wallet.Frame.{users-grant, adapty_webhook_events-grant}
use model_lib.Subscription.Service.{put_subscription}
use model_lib.Adapty.Parser.{
  ParsedEvent, parse_event, parse_event_type, parse_event_id, parse_customer_user_id,
}
use model_lib.Adapty.Service.{
  AdaptySettings, WebhookOutcome, duplicate, applied, find_event, insert_event, grant_tier,
  apply_semantics, apply_new, apply, dispatch, handle_object, handle_json, handle,
}

abbrev is_some : Option AdaptyWebhookEvent → Bool
is_some none = false
is_some (some _) = true

-- the event id is in `adapty_webhook_events`
abbrev pub IsRecorded : Text → Db → Type 0
IsRecorded event_id db = is_some (find_event event_id db.adapty_webhook_events) ≡ true

-- An event that was recorded is a duplicate, and the delivery writes nothing.
apply_recorded :
    (settings : AdaptySettings) (event : ParsedEvent) (body : Fields) (s : Session)
    → IsRecorded event.event_id s.current
    → apply settings event body s ≡ (ok duplicate, s)
unfolding apply insert_event
apply_recorded settings event body s h = ground arith

-- A delivery that did not raise has recorded its event, and the users are as they were.
apply_records :
    (settings : AdaptySettings) (event : ParsedEvent) (body : Fields) (s : Session)
    → Ensures
        (λ s'. IsRecorded event.event_id s'.current × (s'.current.users ≡ s.current.users))
        (apply settings event body s)
unfolding apply insert_event apply_new apply_semantics put_subscription record_event grant_tier
    find_event
apply_records settings event body s =
    grind (arith, users-grant, adapty_webhook_events-grant, text_eq_refl)

dispatch_records :
    (py : Runtime) (settings : AdaptySettings) (body : Fields) (event_id : Text) (user_id : ℕ)
    (s s' : Session)
    → dispatch py settings body event_id user_id s ≡ (ok applied, s')
    → IsRecorded event_id s'.current × (s'.current.users ≡ s.current.users)
unfolding dispatch parse_event
dispatch_records py settings body event_id user_id s s' h = ground (
  arith,
  apply_records settings (parse_event py body event_id (parse_event_type body) user_id) body s,
)

dispatch_again :
    (py : Runtime) (settings : AdaptySettings) (body : Fields) (event_id : Text) (user_id t : ℕ)
    (s s' : Session)
    → dispatch py settings body event_id user_id s ≡ (ok applied, s')
    → dispatch py settings body event_id user_id (record s' { now = t })
      ≡ (ok duplicate, record s' { now = t })
unfolding dispatch parse_event
dispatch_again py settings body event_id user_id t s s' h =
    let r = dispatch_records py settings body event_id user_id s s' h in
    ground (
      arith,
      apply_recorded settings (parse_event py body event_id (parse_event_type body) user_id) body
          (record s' { now = t }),
    )

handle_object_again :
    (py : Runtime) (settings : AdaptySettings) (body : Fields) (t : ℕ) (s s' : Session)
    → handle_object py settings body s ≡ (ok applied, s')
    → handle_object py settings body (record s' { now = t }) ≡ (ok duplicate, record s' { now = t })
unfolding handle_object
handle_object_again py settings body t s s' h = elim (Option-cases (parse_event_id body)) [
  | inl e ↦ absurd (ground arith)
  | inr (event_id, e) ↦ elim (Option-cases (parse_customer_user_id py body)) [
    | inl e' ↦ absurd (ground arith)
    | inr (user_id, e') ↦ ground (arith, dispatch_again py settings body event_id user_id t s s')
  ]
]

handle_json_again :
    (py : Runtime) (settings : AdaptySettings) (json : Option Json) (t : ℕ) (s s' : Session)
    → handle_json py settings json s ≡ (ok applied, s')
    → handle_json py settings json (record s' { now = t }) ≡ (ok duplicate, record s' { now = t })
unfolding handle_json
handle_json_again py settings (some (Json.obj body)) t s s' h =
    handle_object_again py settings body t s s' h
handle_json_again py settings _ t s s' h = cc

-- The body of a delivery that was applied, delivered again at any time to the session that the
-- first one left, is a duplicate, and the second delivery writes nothing at all.
pub handle-handle :
    (py : Runtime) (settings : AdaptySettings) (raw : List ℕ) (t : ℕ) (s s' : Session)
    → handle py settings raw s ≡ (ok applied, s')
    → handle py settings raw (record s' { now = t }) ≡ (ok duplicate, record s' { now = t })
unfolding handle
handle-handle py settings [] t s s' h = cc
handle-handle py settings (c ∷ raw) t s s' h =
    handle_json_again py settings (py.json_loads (c ∷ raw)) t s s' h

-- The session of a delivery whose outcome is `ignored` or `duplicate` is what it was.
abbrev pub IsQuiet : Session → Result WebhookOutcome × Session → Type 0
IsQuiet s (ok applied, s') = Unit
IsQuiet s (ok _, s') = s' ≡ s
IsQuiet s (err e, s') = Unit

handle_object-IsQuiet :
    (py : Runtime) (settings : AdaptySettings) (body : Fields) (s : Session)
    → IsQuiet s (handle_object py settings body s)
unfolding handle_object dispatch apply insert_event apply_new
handle_object-IsQuiet py settings body s = ground arith

handle_json-IsQuiet :
    (py : Runtime) (settings : AdaptySettings) (x : Option Json) (s : Session)
    → IsQuiet s (handle_json py settings x s)
unfolding handle_json
handle_json-IsQuiet py settings (some (Json.obj body)) s = handle_object-IsQuiet py settings body s
handle_json-IsQuiet py settings none s = refl
handle_json-IsQuiet py settings (some Json.null) s = refl
handle_json-IsQuiet py settings (some (Json.bool _)) s = refl
handle_json-IsQuiet py settings (some (Json.str _)) s = refl
handle_json-IsQuiet py settings (some (Json.int _)) s = refl
handle_json-IsQuiet py settings (some (Json.arr _)) s = refl
handle_json-IsQuiet py settings (some (Json.float _)) s = refl

-- A delivery whose outcome is `ignored` or `duplicate` leaves the session exactly as it was,
-- whatever was posted.
handle-IsQuiet :
    (py : Runtime) (settings : AdaptySettings) (raw : List ℕ) (s : Session)
    → IsQuiet s (handle py settings raw s)
unfolding handle
handle-IsQuiet py settings [] s = refl
handle-IsQuiet py settings (c ∷ raw) s = handle_json-IsQuiet py settings (py.json_loads (c ∷ raw)) s
