-- ===== src/Json.antt =====
-- JSON values as `json.loads` gives them to the webhook parsers, with the defensive readers that
-- src/app/billing_adapty/parser.py and src/app/billing_cloudpayments/parser.py share in wording.
-- What Python's standard library does with a text (decoding JSON, parsing a UUID or a date) is the
-- record `Runtime`, an argument of every definition that needs it.
use text.Mathlib.Text.{◌==◌ as str_eq}
use model_lib.Base.{
  ℕ, zero, suc, String, Bool, true, false, Option, none, some, List, [], ◌∷◌, if◌then◌else◌,
}
use model_lib.Base.Int.{ℤ, pos, negsuc}
use model_lib.Base.Text.{Text, codes, is_empty, decimal}

-- A Python float: its truth value and its text. The program uses nothing else of one.
pub record Float : Type 0 where
  pub is_zero : Bool
  pub text : Text

mutual
  pub data Json : Type 0 where
    null : Json
    bool : Bool → Json
    int : ℤ → Json
    float : Float → Json
    str : Text → Json
    arr : Items → Json
    obj : Fields → Json

  pub data Items : Type 0 where
    nil : Items
    cons : Json → Items → Items

  pub data Fields : Type 0 where
    end : Fields
    field : String → Json → Fields → Fields

-- A date that `datetime.fromisoformat` read, in microseconds from `datetime.min`, in UTC if the
-- text had an offset.
pub data IsoTime : Type 0 where
  naive aware : ℕ → IsoTime

pub record Runtime : Type 0 where
  -- `json.loads`; `none` for `ValueError`
  pub json_loads : List ℕ → Option Json
  -- `uuid.UUID(text)`; `none` for `ValueError`
  pub uuid : Text → Option ℕ
  -- `str(uuid)`
  pub uuid_text : ℕ → Text
  -- `datetime.datetime.fromisoformat`; `none` for `ValueError`
  pub fromisoformat : Text → Option IsoTime
  -- `datetime.fromtimestamp(int(value) / 1000, tz=UTC)`; `none` for an exception
  pub instant_of_ms : Json → Option ℕ
  -- `str` of a list or a dict
  pub container_text : Json → Text

-- `d.get(key)`; absent is `None`
unfoldable pub get : String → Fields → Json
get key end = Json.null
get key (field k v fs) = if str_eq k key then v else get key fs

-- `key in d`, with its value
unfoldable pub lookup : String → Fields → Option Json
lookup key end = none
lookup key (field k v fs) = if str_eq k key then some v else lookup key fs

-- `isinstance(value, dict)`
unfoldable pub as_object : Json → Option Fields
as_object (Json.obj fs) = some fs
as_object _ = none

-- `_as_dict`
unfoldable pub as_dict : Json → Fields
as_dict (Json.obj fs) = fs
as_dict _ = end

-- `str(n)`
unfoldable pub int_text : ℤ → Text
int_text (pos n) = decimal n
int_text (negsuc n) = b'-' ∷ decimal (suc n)

-- What one candidate of `_first_str` contributes: a non-empty string, or an int as text.
unfoldable pub str_candidate : Json → Option Text
str_candidate (Json.str s) = if is_empty s then none else some s
str_candidate (Json.int n) = some (int_text n)
str_candidate _ = none

-- `_first_str`
unfoldable pub first_str : List Json → Option Text
unfolding str_candidate is_empty
first_str [] = none
first_str (c ∷ cs) = elim (str_candidate c) [ some s ↦ some s | none ↦ first_str cs ]

-- `_first_bool`
unfoldable pub first_bool : List Json → Option Bool
first_bool [] = none
first_bool (Json.bool b ∷ cs) = some b
first_bool (_ ∷ cs) = first_bool cs

-- `bool(value)`
unfoldable pub truthy : Json → Bool
truthy Json.null = false
truthy (Json.bool b) = b
truthy (Json.int (pos zero)) = false
truthy (Json.int _) = true
truthy (Json.float x) = if x.is_zero then false else true
truthy (Json.str s) = if is_empty s then false else true
truthy (Json.arr nil) = false
truthy (Json.arr (cons _ _)) = true
truthy (Json.obj end) = false
truthy (Json.obj (field _ _ _)) = true

-- `str(value)`
unfoldable pub text_of : Runtime → Json → Text
text_of py Json.null = codes "None"
text_of py (Json.bool true) = codes "True"
text_of py (Json.bool false) = codes "False"
text_of py (Json.int n) = int_text n
text_of py (Json.float x) = x.text
text_of py (Json.str s) = s
text_of py (Json.arr xs) = py.container_text (Json.arr xs)
text_of py (Json.obj fs) = py.container_text (Json.obj fs)

-- `str(value or "")`
unfoldable pub text_or_empty : Runtime → Json → Text
unfolding truthy text_of
text_or_empty py v = if truthy v then text_of py v else []
