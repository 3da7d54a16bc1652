-- ===== src/TokenPurchase.antt =====
-- src/app/token_purchase/service.py: a consumable purchase becomes an idempotent credit grant.
pub mod Laws
use model_lib.Base.{ℕ, not, Option, none, some, List, [], ◌∷◌, ◌++◌, if◌then◌else◌}
use model_lib.Base.Int.{ℤ, pos}
use model_lib.Base.Text.{Text, codes, text_eq}
use model_lib.Errors.{AppError}
use model_lib.Json.{Json, Fields}
use model_lib.Session.{Result, ok, err, Action, ⊤, pure, raise_if, ◌>>=◌, ◌>>◌}
use model_lib.Wallet.{GrantResult, grant}
use model_lib.Policy.Loader.{load_policy_state, is_active}
use model_lib.Subscription.StoreKit.{VerifiedTransaction}

pub record PurchaseResult : Type 0 where
  pub credits_added : ℤ
  pub new_balance : ℕ
  pub transaction_id : Text

-- `settings.token_products()`, and every other map of products to credits
abbrev pub Products : Type 0
Products = List (Text × ℤ)

-- `products.get(product_id)`
unfoldable pub product_credits : Text → Products → Option ℤ
product_credits product_id [] = none
product_credits product_id ((p, n) ∷ ps) =
    if text_eq p product_id then some n else product_credits product_id ps

token_purchase_prefix : Text
token_purchase_prefix = codes "token-purchase:"

unfoldable pub token_purchase_source : Text
token_purchase_source = codes "token_purchase"

-- f"{_IDEMPOTENCY_PREFIX}{verified.transaction_id}"
unfoldable pub token_purchase_key : Text → Text
unfolding token_purchase_prefix
token_purchase_key transaction_id = token_purchase_prefix ++ transaction_id

unfoldable pub purchase_meta : VerifiedTransaction → Json
unfolding token_purchase_source
purchase_meta verified = Json.obj (
    Fields.field "source" (Json.str token_purchase_source) (
      Fields.field "productId" (Json.str verified.product_id)
        (Fields.field "transactionId" (Json.str verified.transaction_id) Fields.end)))

-- `_require_active_subscription`
unfoldable pub require_active_subscription : ℕ → Action ⊤
unfolding load_policy_state is_active
require_active_subscription user_id = do
  state ← load_policy_state user_id
  raise_if (not (is_active state.subscription_status)) AppError.subscription_required

-- `_credits_for_product`
unfoldable pub credits_for_product : Products → Text → Action ℤ
credits_for_product products product_id s = elim (product_credits product_id products) [
  | none ↦ (err AppError.validation_error, s)
  | some n ↦ (ok n, s)
]

unfoldable pub purchase_result : VerifiedTransaction → ℤ → GrantResult → PurchaseResult
purchase_result verified credits result = record {
  credits_added = if result.idempotent_replay then pos 0 else credits;
  new_balance = result.new_balance;
  transaction_id = verified.transaction_id;
}

-- `purchase` after the transaction was verified
unfoldable pub purchase_verified : Products → ℕ → VerifiedTransaction → Action PurchaseResult
unfolding credits_for_product purchase_result
purchase_verified products user_id verified = do
  credits ← credits_for_product products verified.product_id
  result ←
      grant user_id credits (token_purchase_key verified.transaction_id) (purchase_meta verified)
        token_purchase_source
  pure (purchase_result verified credits result)

-- `TokenPurchaseService.purchase`
unfoldable pub purchase :
    (Text → Result VerifiedTransaction) → Products → ℕ → Text → Action PurchaseResult
unfolding require_active_subscription
purchase verify products user_id signed_transaction = do
  require_active_subscription user_id
  verified ← (λ s. (verify signed_transaction, s))
  purchase_verified products user_id verified
