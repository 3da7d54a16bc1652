-- ===== src/TokenPurchase/Laws.antt =====
-- What `TokenPurchaseService.purchase` (src/app/token_purchase/service.py) promises.
use model_lib.Base.{ℕ, ◌+◌, ◌≡◌, refl, ◌≢◌, inl, inr, some, arith, if◌then◌else◌, Option-cases}
use model_lib.Base.Int.{ℤ, pos, pos_part}
use model_lib.Base.Text.{Text}
use model_lib.Errors.{AppError}
use model_lib.Tables.{SubscriptionStatus, Db}
use model_lib.Session.{Session, Result, ok, err, session_scope}
use model_lib.Session.Keeps.{Keeps, Keeps-bind, Keeps-pure, Keeps-request}
use model_lib.Wallet.{grant, current_balance, existing_tx}
use model_lib.Wallet.Integrity.{IsSound}
use model_lib.Wallet.Frame.{
  SameMoney, IsUsed, is_some, grant-Keeps-IsSound, grant-Keeps-SameMoney, grant_balance,
}
use model_lib.Policy.Loader.{policy_state}
use model_lib.Subscription.StoreKit.{VerifiedTransaction}
use model_lib.TokenPurchase.{
  PurchaseResult, Products, purchase, purchase_verified, product_credits, token_purchase_key,
  purchase_meta, token_purchase_source, require_active_subscription, credits_for_product,
  purchase_result,
}

-- Without an active subscription a purchase is refused, and the session is as it was, whatever
-- the verifier would say.
purchase_needs_subscription :
    (verify : Text → Result VerifiedTransaction) (products : Products) (user_id : ℕ) (jws : Text)
    (s : Session)
    → (policy_state user_id s.current s.now).subscription_status ≢ SubscriptionStatus.active
    → purchase verify products user_id jws s ≡ (err AppError.subscription_required, s)
unfolding purchase
purchase_needs_subscription verify products user_id jws s h = ground arith

-- A purchase that went through added to the balance what its answer says: the server's price of
-- the verified product, or nothing if the transaction was used before; the answer has the new
-- balance.
pub purchase_exact :
    (products : Products) (user_id : ℕ) (tx : VerifiedTransaction) (s s' : Session)
    (r : PurchaseResult)
    → purchase_verified products user_id tx s ≡ (ok r, s')
    → (n : ℤ) × (product_credits tx.product_id products ≡ some n)
      × (r.credits_added ≡ (
          if is_some (existing_tx user_id (token_purchase_key tx.transaction_id) s.current)
          then pos 0
          else n))
      × (r.new_balance ≡ current_balance user_id s.current + pos_part r.credits_added)
      × (current_balance user_id s'.current ≡ r.new_balance)
unfolding purchase_verified
purchase_exact products user_id tx s s' r h =
    elim (Option-cases (product_credits tx.product_id products)) [
      | inl e ↦ absurd (ground arith)
      | inr (n, e) ↦
          let delta =
            grant_balance user_id n (token_purchase_key tx.transaction_id) (purchase_meta tx)
              token_purchase_source s in
          (n, e, ground arith, ground arith, ground arith)
    ]

require-Keeps : (P : Db → Type 0) (user_id : ℕ) → Keeps P (require_active_subscription user_id)
unfolding require_active_subscription
require-Keeps P user_id = record { at = λ s h. ground arith; stays = λ s. ground arith }

credits_for_product-Keeps :
    (P : Db → Type 0) (products : Products) (id : Text) → Keeps P (credits_for_product products id)
unfolding credits_for_product
credits_for_product-Keeps P products id = record {
  at = λ s h. ground arith;
  stays = λ s. ground arith;
}

module _ (P : Db → Type 0) (products : Products) (user_id : ℕ) where
  purchase_verified-Keeps :
      (tx : VerifiedTransaction)
      → ((n : ℤ)
          → Keeps P (
              grant user_id n
                (token_purchase_key tx.transaction_id)
                (purchase_meta tx)
                token_purchase_source))
      → Keeps P (purchase_verified products user_id tx)
  unfolding purchase_verified
  purchase_verified-Keeps tx k =
      Keeps-bind (credits_for_product products tx.product_id) _
        (credits_for_product-Keeps P products tx.product_id)
        λ n. Keeps-bind _ _ (k n) λ g. Keeps-pure (purchase_result tx n g)

  verify-Keeps : (x : Result VerifiedTransaction) → Keeps P (λ s. (x, s))
  verify-Keeps (ok tx) = record { at = λ s h. h; stays = λ s. refl }
  verify-Keeps (err e) = record { at = λ s h. tt; stays = λ s. refl }

-- A purchase keeps the tables sound, whatever the verifier says.
pub purchase-Keeps-IsSound :
    (verify : Text → Result VerifiedTransaction) (products : Products) (user_id : ℕ) (jws : Text)
    → Keeps IsSound (purchase verify products user_id jws)
unfolding purchase
purchase-Keeps-IsSound verify products user_id jws =
    Keeps-bind (require_active_subscription user_id) _ (require-Keeps IsSound user_id) λ _.
      Keeps-bind (λ s. (verify jws, s)) (purchase_verified products user_id)
        (verify-Keeps IsSound products user_id (verify jws))
        λ tx. purchase_verified-Keeps IsSound products user_id tx λ n.
          grant-Keeps-IsSound user_id n (token_purchase_key tx.transaction_id) (purchase_meta tx)
            token_purchase_source

-- Once a transaction was credited to a user, a further purchase with it that starts with nothing
-- uncommitted moves no balance and adds no ledger row, at any time, with any price list and
-- whatever its outcome.
purchase_request_again :
    (products : Products) (user_id : ℕ) (tx : VerifiedTransaction) (s : Session)
    → s.committed ≡ s.current
    → IsUsed user_id (token_purchase_key tx.transaction_id) s.committed
    → SameMoney s.committed (session_scope (purchase_verified products user_id tx) s).1.committed
purchase_request_again products user_id tx s start used =
    Keeps-request (SameMoney s.committed) (purchase_verified products user_id tx) s
      (purchase_verified-Keeps (SameMoney s.committed) products user_id tx λ n.
        grant-Keeps-SameMoney user_id n (token_purchase_key tx.transaction_id) (purchase_meta tx)
          token_purchase_source s.committed used)
      start (record { balances = λ u. refl; rows = refl })
