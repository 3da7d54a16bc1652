-- ===== src/Config.antt =====
-- src/app/config.py: the maps of products to credits that the operator writes as JSON in the
-- environment, and the freshness window of the CloudPayments payments. The three maps are parsed by
-- the same code. Any other setting is read as it is.
use model_lib.Base.{
  ℕ, zero, suc, String, ◌≡◌, refl, sym, ap, ◌∙◌, ◌≢◌, ◌⊎◌, inl, inr, false, Option, none, some, [],
  ◌∷◌, arith, if◌then◌else◌, Bool-cases,
}
use model_lib.Base.Int.{ℤ, pos, negsuc, leb_ℤ}
use model_lib.Base.Text.{Text, codes, text_eq, text_eq_iff, is_empty}
use model_lib.Json.{Json, Fields, Runtime}
use model_lib.TokenPurchase.{Products, product_credits}

-- `value if value > 0` of an int that is no bool
unfoldable pub credits_of : Json → Option ℤ
credits_of (Json.int n) = if leb_ℤ n (pos 0) then none else some n
credits_of _ = none

-- the loop over `parsed.items()`
unfoldable pub products_of : Fields → Products
unfolding credits_of
products_of Fields.end = []
products_of (Fields.field k v fs) =
    let rest = products_of fs in elim (credits_of v) [ none ↦ rest | some n ↦ (codes k, n) ∷ rest ]

unfoldable pub products_of_json : Option Json → Products
unfolding products_of
products_of_json (some (Json.obj fs)) = products_of fs
products_of_json _ = []

-- `token_products`, `adapty_product_tokens` and `cloudpayments_product_tokens`
unfoldable pub products_setting : Runtime → Text → Products
unfolding products_of_json is_empty
products_setting py raw =
    products_of_json (py.json_loads (if is_empty raw then codes "{}" else raw))

abbrev pub default_freshness_hours : ℕ
default_freshness_hours = 72

-- `_clamp_freshness_hours`
unfoldable pub clamp_freshness_hours : ℤ → ℕ
clamp_freshness_hours (pos zero) = default_freshness_hours
clamp_freshness_hours (pos (suc n)) = suc n
clamp_freshness_hours (negsuc n) = default_freshness_hours

-- the document has that value under that key
abbrev pub HasField : String → Json → Fields → Type 0
HasField k v Fields.end = ⊥
HasField k v (Fields.field k' v' fs) = ((k ≡ k') × (v ≡ v')) ⊎ HasField k v fs

abbrev pub IsListed : Text → ℤ → Fields → Type 0
IsListed id n fs =
    (k : String) × (codes k ≡ id) × HasField k (Json.int n) fs × (leb_ℤ n (pos 0) ≡ false)

credits_of_int :
    (v : Json) (n : ℤ) → credits_of v ≡ some n → (v ≡ Json.int n) × (leb_ℤ n (pos 0) ≡ false)
unfolding credits_of
credits_of_int v n h = (ground arith, ground arith)

first_product :
    (id : Text) (n m : ℤ) (k : String) (rest : Products)
    → product_credits id ((codes k, m) ∷ rest) ≡ some n
    → ((codes k ≡ id) × (m ≡ n)) ⊎ (product_credits id rest ≡ some n)
unfolding product_credits
first_product id n m k rest h = elim (Bool-cases (text_eq (codes k) id)) [
  | inl e ↦ inl ((text_eq_iff (codes k) id).0 e, ground arith)
  | inr e ↦ inr (ground arith)
]

module _ (id : Text) (n : ℤ) (k : String) (v : Json) (fs : Fields) where
  IsListed-step :
      (o : Option ℤ)
      → credits_of v ≡ o
      → (product_credits id (products_of fs) ≡ some n → IsListed id n fs)
      → product_credits id
          (elim o [ none ↦ products_of fs | some m ↦ (codes k, m) ∷ products_of fs ])
        ≡ some n
      → IsListed id n (Fields.field k v fs)
  IsListed-step none e later h =
      let (k', same, has, positive) = later h in (k', same, inr has, positive)
  IsListed-step (some m) e later h = elim (first_product id n m k (products_of fs) h) [
    | inl (same, eq) ↦
        let (value, positive) = credits_of_int v n (e ∙ ap some eq) in
        (k, same, inl (refl, sym value), positive)
    | inr rest ↦ let (k', same, has, positive) = later rest in (k', same, inr has, positive)
  ]

not-product-nil : (id : Text) (n : ℤ) → product_credits id [] ≢ some n
unfolding product_credits
not-product-nil id n h = cc

products_of-IsListed :
    (fs : Fields) (id : Text) (n : ℤ)
    → product_credits id (products_of fs) ≡ some n
    → IsListed id n fs
unfolding products_of product_credits
products_of-IsListed Fields.end id n h = absurd (ground arith)
products_of-IsListed (Fields.field k v fs) id n h =
    IsListed-step id n k v fs (credits_of v) refl (products_of-IsListed fs id n) h

-- A price that a map of products gives stands in the operator's document, under a key that
-- spells the product's id, as an integer above zero.
products_setting-IsListed :
    (py : Runtime) (raw id : Text) (n : ℤ)
    → product_credits id (products_setting py raw) ≡ some n
    → (fs : Fields) × (py.json_loads (if is_empty raw then codes "{}" else raw)
        ≡ some (Json.obj fs))
      × IsListed id n fs
unfolding products_setting
products_setting-IsListed py raw id n h =
    of_json (py.json_loads (if is_empty raw then codes "{}" else raw)) h
  where
    of_json :
        (x : Option Json)
        → product_credits id (products_of_json x) ≡ some n
        → (fs : Fields) × (x ≡ some (Json.obj fs)) × IsListed id n fs
    of_json (some (Json.obj fs)) h = (fs, refl, products_of-IsListed fs id n h)
    of_json none h = absurd (not-product-nil id n h)
    of_json (some _) h = absurd (not-product-nil id n h)
