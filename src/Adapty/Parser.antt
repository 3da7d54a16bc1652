-- ===== src/Adapty/Parser.antt =====
-- src/app/billing_adapty/parser.py: what is read of a payload, whatever its shape, and the meaning
-- of an event.
use model_lib.Base.{
  ℕ, Bool, true, false, ◌||◌, Option, none, some, List, [], ◌∷◌, ◌++◌, if◌then◌else◌,
}
use model_lib.Base.Text.{Text, codes, text_eq, text_mem, ends_with, lower}
use model_lib.Json.{Fields, IsoTime, Runtime, get, as_dict, first_str, first_bool}
use model_lib.Tables.{Semantics}

abbrev pub granting_events : List Text
granting_events =
    codes "trial_started" ∷ codes "subscription_started" ∷ codes "subscription_renewed" ∷ []

abbrev pub expiring_events : List Text
expiring_events = codes "subscription_expired" ∷ codes "subscription_cancelled" ∷ []

abbrev pub noop_events : List Text
noop_events = codes "subscription_renewal_cancelled" ∷ codes "trial_renewal_cancelled" ∷ []

abbrev pub conditional_events : List Text
conditional_events = codes "access_level_updated" ∷ []

unfoldable pub is_granting_event : Text → Bool
unfolding text_mem text_eq
is_granting_event t = text_mem t granting_events

unfoldable pub is_expiring_event : Text → Bool
unfolding text_mem text_eq
is_expiring_event t = text_mem t expiring_events

unfoldable pub is_noop_event : Text → Bool
unfolding text_mem text_eq
is_noop_event t = text_mem t noop_events

unfoldable pub is_conditional_event : Text → Bool
unfolding text_mem text_eq
is_conditional_event t = text_mem t conditional_events

-- `event_type in KNOWN_EVENTS`
unfoldable pub is_known_event : Text → Bool
is_known_event t =
    is_granting_event t || is_expiring_event t || is_noop_event t || is_conditional_event t

pub record ParsedEvent : Type 0 where
  pub event_id : Text
  pub event_type : Text
  pub customer_user_id : ℕ
  pub vendor_product_id : Option Text
  pub expires_at : Option ℕ
  pub transaction_id : Option Text
  pub original_transaction_id : Option Text
  pub is_active : Option Bool
  pub access_level_id : Option Text
  pub will_renew : Option Bool

-- `_as_dict(body.get("event_properties"))`
abbrev pub props : Fields → Fields
props body = as_dict (get "event_properties" body)

abbrev pub profile : Fields → Fields
profile body = as_dict (get "profile" body)

unfoldable pub parse_event_id : Fields → Option Text
unfolding first_str as_dict get
parse_event_id body = first_str (
    get "profile_event_id" body
    ∷ get "profile_event_id" (props body)
    ∷ get "event_id" body
    ∷ get "id" body
    ∷ [])

unfoldable pub parse_event_type : Fields → Text
unfolding first_str as_dict get lower
parse_event_type body =
    elim (first_str (
      get "event_type" body
      ∷ get "event" body
      ∷ get "event_type" (props body)
      ∷ get "type" body
      ∷ [])) [ some raw ↦ lower raw | none ↦ [] ]

unfoldable pub parse_customer_user_id : Runtime → Fields → Option ℕ
unfolding first_str as_dict get
parse_customer_user_id py body =
    elim (first_str (
      get "customer_user_id" body
      ∷ get "customer_user_id" (profile body)
      ∷ get "customer_user_id" (props body)
      ∷ get "user_id" body
      ∷ [])) [ some raw ↦ py.uuid raw | none ↦ none ]

unfoldable pub parse_vendor_product_id : Fields → Option Text
unfolding first_str as_dict get
parse_vendor_product_id body = first_str (
    get "vendor_product_id" (props body)
    ∷ get "product_id" (props body)
    ∷ get "vendor_product_id" body
    ∷ get "product_id" body
    ∷ [])

-- `raw[:-1]`
unfoldable pub drop_last : Text → Text
drop_last [] = []
drop_last (c ∷ []) = []
drop_last (c ∷ d ∷ s) = c ∷ drop_last (d ∷ s)

-- an instant without an offset is taken as UTC
abbrev pub as_utc : IsoTime → ℕ
as_utc (IsoTime.naive t) = t
as_utc (IsoTime.aware t) = t

-- `raw[:-1] + "+00:00" if raw.endswith("Z") else raw`
unfoldable pub iso_candidate : Text → Text
unfolding drop_last ends_with
iso_candidate raw = if ends_with raw (codes "Z") then drop_last raw ++ codes "+00:00" else raw

abbrev pub read_iso : Runtime → Text → Option ℕ
read_iso py text = elim (py.fromisoformat text) [ none ↦ none | some t ↦ some (as_utc t) ]

unfoldable pub parse_expires_at : Runtime → Fields → Option ℕ
unfolding first_str as_dict get iso_candidate
parse_expires_at py body =
    elim (first_str (
      get "subscription_expires_at" (props body)
      ∷ get "expires_at" (props body)
      ∷ get "subscription_expires_at" body
      ∷ get "expires_at" body
      ∷ get "expires_at" (profile body)
      ∷ [])) [ some raw ↦ read_iso py (iso_candidate raw) | none ↦ none ]

unfoldable pub parse_transaction_id : Fields → Option Text
unfolding first_str as_dict get
parse_transaction_id body =
    first_str (get "transaction_id" (props body) ∷ get "transaction_id" body ∷ [])

unfoldable pub parse_original_transaction_id : Fields → Option Text
unfolding first_str as_dict get
parse_original_transaction_id body =
    first_str (get "original_transaction_id" (props body) ∷ get "original_transaction_id" body ∷ [])

unfoldable pub parse_is_active : Fields → Option Bool
unfolding first_bool as_dict get
parse_is_active body = first_bool (get "is_active" (props body) ∷ get "is_active" body ∷ [])

unfoldable pub parse_access_level_id : Fields → Option Text
unfolding first_str as_dict get
parse_access_level_id body =
    first_str (get "access_level_id" (props body) ∷ get "access_level_id" body ∷ [])

unfoldable pub parse_will_renew : Fields → Option Bool
unfolding first_bool as_dict get
parse_will_renew body = first_bool (get "will_renew" (props body) ∷ get "will_renew" body ∷ [])

-- `event.access_level_id == ACCESS_LEVEL_PREMIUM`
unfoldable pub is_premium : Option Text → Bool
unfolding text_eq
is_premium none = false
is_premium (some level) = text_eq level (codes "premium")

-- the meaning of `access_level_updated`
unfoldable pub classify_access_level : Option Bool → Bool → Semantics
classify_access_level (some true) premium = if premium then Semantics.granting else Semantics.noop
classify_access_level (some false) premium = Semantics.expiring
classify_access_level none premium = Semantics.noop

unfoldable pub classify_event : ParsedEvent → Semantics
unfolding is_granting_event is_expiring_event is_noop_event classify_access_level is_premium
classify_event event =
    if is_granting_event event.event_type
    then Semantics.granting
    else if is_expiring_event event.event_type
    then Semantics.expiring
    else if is_noop_event event.event_type
    then Semantics.noop
    else classify_access_level event.is_active (is_premium event.access_level_id)

-- the fields of an event whose type and user are known
unfoldable pub parse_event : Runtime → Fields → Text → Text → ℕ → ParsedEvent
parse_event py body event_id event_type user_id = record {
  event_id = event_id;
  event_type = event_type;
  customer_user_id = user_id;
  vendor_product_id = parse_vendor_product_id body;
  expires_at = parse_expires_at py body;
  transaction_id = parse_transaction_id body;
  original_transaction_id = parse_original_transaction_id body;
  is_active = parse_is_active body;
  access_level_id = parse_access_level_id body;
  will_renew = parse_will_renew body;
}
