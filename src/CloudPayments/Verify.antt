-- ===== src/CloudPayments/Verify.antt =====
-- src/app/billing_cloudpayments/verify.py: the payments of a device, as the broadapps API reports
-- them, and those of them that may be credited. The HTTP client is not modelled: its reply is a
-- value. The log records are not modelled.
use model_lib.Base.{
  ℕ, ◌-◌, ◌*◌, ◌&&◌, ◌||◌, Option, none, some, List, [], ◌∷◌, ◌++◌, ltb, leb, ◌==◌, if◌then◌else◌,
}
use model_lib.Base.Text.{Text, codes, text_mem, is_empty, ends_with, lower, strip}
use model_lib.Errors.{AppError}
use model_lib.Json.{Json, Fields, Items, Runtime, get, as_object, text_or_empty}
use model_lib.Session.{Result, ok, err}
use model_lib.Adapty.Parser.{drop_last, read_iso}

pub record CreditablePayment : Type 0 where
  pub payment_id : Text
  pub product_code : Text
  pub payment_type : Text
  pub status : Text
  pub paid_at : ℕ

-- what `client.get` ends with: an exception, or a status with the body that `response.json()` gives
pub data Reply : Type 0 where
  timeout connect_error : Reply
  response : ℕ → Option Json → Reply

-- `[item for item in data if isinstance(item, dict)]`
unfoldable pub objects : Items → List Fields
objects Items.nil = []
objects (Items.cons (Json.obj fields) items) = fields ∷ objects items
objects (Items.cons _ items) = objects items

-- the body of a reply in 200..299
unfoldable pub read_body : Option Json → Result (List Fields)
unfolding objects as_object get
read_body none = err AppError.cloudpayments_verification_unavailable
read_body (some body) = elim (as_object body) [
  | none ↦ err AppError.cloudpayments_verification_unavailable
  | some fields ↦ elim (get "data" fields) [
    | Json.arr items ↦ ok (objects items)
    | _ ↦ err AppError.cloudpayments_verification_unavailable
  ]
]

-- `list_payments`, after the request
unfoldable pub list_payments : Reply → Result (List Fields)
unfolding read_body
list_payments timeout = err AppError.cloudpayments_verification_unavailable
list_payments connect_error = err AppError.cloudpayments_verification_unavailable
list_payments (response status_code body) =
    if status_code == 404
    then ok []
    else if leb 200 status_code && ltb status_code 300
    then read_body body
    else err AppError.cloudpayments_verification_unavailable

-- `text[:-1] + "+00:00"` if it ends with a Z
unfoldable pub with_offset : Text → Text
unfolding ends_with drop_last
with_offset text =
    if ends_with text (codes "Z") || ends_with text (codes "z")
    then drop_last text ++ codes "+00:00"
    else text

-- a value that is a string with more than white space, stripped
unfoldable pub nonblank : Json → Option Text
unfolding strip is_empty
nonblank (Json.str s) = if is_empty (strip s) then none else some (strip s)
nonblank _ = none

-- `_parse_paid_at`
unfoldable pub parse_paid_at : Runtime → Json → Option ℕ
unfolding with_offset nonblank
parse_paid_at py value = elim (nonblank value) [
  | none ↦ none
  | some text ↦ read_iso py (with_offset text)
]

-- `str(item.get("status") or "").strip().lower()`
unfoldable pub payment_status : Runtime → Fields → Text
unfolding text_or_empty strip lower get
payment_status py item = lower (strip (text_or_empty py (get "status" item)))

-- the three identifiers that a payment must carry
unfoldable pub identified : Fields → Text → ℕ → Option CreditablePayment
unfolding nonblank get as_object lower
identified item status paid_at = elim (nonblank (get "payment_id" item)) [
  | none ↦ none
  | some payment_id ↦ elim (as_object (get "product" item)) [
    | none ↦ none
    | some product ↦ elim (nonblank (get "code" product)) [
      | none ↦ none
      | some product_code ↦ elim (nonblank (get "payment_type" product)) [
        | none ↦ none
        | some payment_type ↦ some (record {
          payment_id = payment_id;
          product_code = product_code;
          payment_type = lower payment_type;
          status = status;
          paid_at = paid_at;
        })
      ]
    ]
  ]
]

-- the body of the loop of `select_creditable_payments`; `none` for `continue`
unfoldable pub creditable : Runtime → List Text → ℕ → Fields → Option CreditablePayment
unfolding payment_status parse_paid_at identified text_mem
creditable py paid_statuses cutoff item =
    if text_mem (payment_status py item) paid_statuses
    then elim (parse_paid_at py (get "paid_at" item)) [
      | none ↦ none
      | some paid_at ↦
          if ltb paid_at cutoff then none else identified item (payment_status py item) paid_at
    ]
    else none

unfoldable pub select_from : Runtime → List Text → ℕ → List Fields → List CreditablePayment
select_from py paid_statuses cutoff [] = []
select_from py paid_statuses cutoff (item ∷ items) =
    let rest = select_from py paid_statuses cutoff items in
    elim (creditable py paid_statuses cutoff item) [ none ↦ rest | some p ↦ p ∷ rest ]

-- microseconds of an hour
abbrev pub hour_us : ℕ
hour_us = 3600000000

-- `select_creditable_payments`; an instant before `datetime.min` is an `OverflowError`
unfoldable pub select_creditable_payments :
    Runtime → List Fields → List Text → ℕ → ℕ → Result (List CreditablePayment)
unfolding select_from
select_creditable_payments py items paid_statuses now freshness_hours =
    if ltb now (freshness_hours * hour_us)
    then err AppError.unhandled
    else ok (select_from py paid_statuses (now - freshness_hours * hour_us) items)
