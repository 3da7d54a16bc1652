-- ===== src/CloudPayments/Parser.antt =====
-- src/app/billing_cloudpayments/parser.py: what the callback decides (its gate and its device id),
-- and the expiry that a product code stands for. The readers of the fields that only the older
-- callback-driven crediting used are not modelled: no code under src/app calls them.
use model_lib.Base.{ℕ, zero, suc, ◌+◌, ◌*◌, Bool, ◌&&◌, Option, none, some, [], ◌∷◌, if◌then◌else◌}
use model_lib.Base.Text.{Text, codes, text_eq, has_infix, lower, strip}
use model_lib.Json.{Json, Fields, Runtime, get, as_object, first_str, text_or_empty}

-- `_parse_data`
unfoldable pub parse_data : Runtime → Fields → Option Fields
unfolding get as_object
parse_data py body = elim (get "Data" body) [
  | Json.obj fields ↦ some fields
  | Json.str raw ↦ elim (py.json_loads raw) [ none ↦ none | some parsed ↦ as_object parsed ]
  | _ ↦ none
]

unfoldable pub parse_transaction_id : Fields → Option Text
unfolding first_str get
parse_transaction_id body = first_str (get "TransactionId" body ∷ [])

-- `str(value or "").strip().lower()`
unfoldable pub normalised : Runtime → Json → Text
unfolding text_or_empty strip lower
normalised py value = lower (strip (text_or_empty py value))

unfoldable pub parse_status : Runtime → Fields → Text
unfolding normalised get
parse_status py body = normalised py (get "Status" body)

unfoldable pub parse_operation_type : Runtime → Fields → Text
unfolding normalised get
parse_operation_type py body = normalised py (get "OperationType" body)

unfoldable pub parse_gate : Text → Text → Bool
unfolding text_eq
parse_gate status operation_type =
    text_eq status (codes "completed") && text_eq operation_type (codes "payment")

unfoldable pub parse_user_id : Runtime → Fields → Fields → Option ℕ
unfolding first_str get lower
parse_user_id py body fields = elim (first_str (get "AccountId" body ∷ get "user_id" fields ∷ [])) [
  | none ↦ none
  | some raw ↦ py.uuid (lower raw)
]

-- the keyword of the tuple `("week", "month", "year", "day")` that `infer_interval_unit_from_code`
-- returns
pub data IntervalUnit : Type 0 where
  week month year day : IntervalUnit

unfoldable pub infer_interval_unit_from_code : Text → Option IntervalUnit
unfolding has_infix lower
infer_interval_unit_from_code product_code =
    let lowered = lower product_code in
    if has_infix (codes "week") lowered
    then some IntervalUnit.week
    else if has_infix (codes "month") lowered
    then some month
    else if has_infix (codes "year") lowered
    then some year
    else if has_infix (codes "day") lowered
    then some day
    else none

-- `_EXPIRY_DAYS.get(unit or "", _DEFAULT_EXPIRY_DAYS)`
unfoldable pub expiry_days : Option IntervalUnit → ℕ
expiry_days none = 30
expiry_days (some week) = 7
expiry_days (some month) = 30
expiry_days (some year) = 365
expiry_days (some day) = 1

-- microseconds of a day
abbrev pub day_us : ℕ
day_us = 86400000000

-- `max(count, 1)`
unfoldable pub at_least_one : ℕ → ℕ
at_least_one zero = 1
at_least_one (suc n) = suc n

-- `_compute_expiry`
unfoldable pub compute_expiry : ℕ → Option IntervalUnit → ℕ → ℕ
unfolding expiry_days at_least_one
compute_expiry now unit count = now + expiry_days unit * at_least_one count * day_us
