-- ===== src/Tests/Purchases.antt =====
-- StoreKit transactions, subscriptions synced from them and tokens bought with them.
use model_lib.Base.{
  ℕ, ◌+◌, ◌<◌, ◌≡◌, refl, ◌↔◌, true, false, none, some, [], ◌∷◌, arith, ◌==◌, if◌then◌else◌,
}
use model_lib.Base.Int.{ℤ, pos, pos_part}
use model_lib.Base.Text.{Text, text_eq, lower}
use model_lib.Json.{Json, Fields, Items, Runtime, get, as_object, text_of}
use model_lib.Tables.{Db, SubscriptionStatus}
use model_lib.Session.{Session, Result, ok, session_scope}
use model_lib.Audit.{record_event}
use model_lib.Json.{get, as_object, text_of}
use model_lib.Wallet.{grant, current_balance, existing_tx}
use model_lib.Wallet.Frame.{is_some}
use model_lib.Policy.Loader.{policy_state}
use model_lib.Subscription.StoreKit.{
  jws_header, verify_by_alg, verify_real_transaction, VerifiedTransaction, Signature, Crypto,
  Verifier, verify, test_mode,
}
use model_lib.Subscription.Trust.{IsGenuine, verify_sound}
use model_lib.Subscription.Service.{
  SubscriptionResult, sync_verified, put_subscription, grant_period,
}
use model_lib.Subscription.Sync.{sync_verified_access}
use model_lib.TokenPurchase.{
  Products, PurchaseResult, purchase, purchase_verified, product_credits, token_purchase_key,
}
use model_lib.TokenPurchase.Laws.{purchase_exact}
use model_lib.Tests.Data.{small_db, request, key_1}

abbrev week_tx : VerifiedTransaction
week_tx = record {
  transaction_id = 49 ∷ [];
  original_transaction_id = 49 ∷ [];
  product_id = key_1;
  expires_at = some 200000000000000;
  revoked = false;
  environment = key_1;
}

abbrev synced : Session
synced = (sync_verified 1 (pos 100) week_tx request).1

abbrev synced_result : SubscriptionResult
synced_result = record {
  is_subscribed = true;
  expires_at = some 200000000000000;
  plan = some key_1;
}

sync_verified_access_example :
    ((policy_state 1 synced.current 150000000000000).subscription_status
      ≡ SubscriptionStatus.active)
    ↔ ((synced_result.is_subscribed ≡ true)
        × ((e : ℕ) × (week_tx.expires_at ≡ some e) × (150000000000000 < e)))
unfolding sync_verified put_subscription grant_period record_event grant
sync_verified_access_example =
    sync_verified_access 1 (pos 100) week_tx request synced synced_result 150000000000000
      (omega arith) refl

abbrev prices : Products
prices = (key_1, pos 500) ∷ []

abbrev bought : PurchaseResult
bought = record { credits_added = pos 500; new_balance = 500; transaction_id = 49 ∷ [] }

abbrev after_purchase : Session
after_purchase = (purchase_verified prices 1 week_tx request).1

purchase_exact_example :
    (n : ℤ) × (product_credits week_tx.product_id prices ≡ some n)
    × (bought.credits_added ≡ (
        if is_some (existing_tx 1 (token_purchase_key week_tx.transaction_id) request.current)
        then pos 0
        else n))
    × (bought.new_balance ≡ current_balance 1 request.current + pos_part bought.credits_added)
    × (current_balance 1 after_purchase.current ≡ bought.new_balance)
unfolding purchase_verified grant product_credits text_eq
purchase_exact_example = purchase_exact prices 1 week_tx request after_purchase bought refl

abbrev accept : Text → Result VerifiedTransaction
accept jws = ok week_tx

-- the database when the user has a subscription
abbrev subscribed_db : Db
subscribed_db = record small_db {
  subscriptions = λ u. some (record {
    status = SubscriptionStatus.active;
    plan = some key_1;
    expires_at = some 200000000000000;
    updated_at = 0;
  });
}

abbrev subscribed : Session
subscribed = record { committed = subscribed_db; current = subscribed_db; now = 100000000000000 }

-- a subscribed user's purchase goes through
purchase_goes_through : (session_scope (purchase accept prices 1 key_1) subscribed).0 ≡ ok bought
unfolding session_scope purchase policy_state grant product_credits text_eq purchase_verified
purchase_goes_through = refl

-- Python's text functions as far as the tests need them
abbrev no_python : Runtime
no_python = record {
  json_loads = λ raw. none;
  uuid = λ t. none;
  uuid_text = λ u. [];
  fromisoformat = λ t. none;
  instant_of_ms = λ v. none;
  container_text = λ v. [];
}

-- a payload with nothing but its transaction id
abbrev payload : Fields
payload = Fields.field "transactionId" (Json.str (49 ∷ [])) Fields.end

-- certificate 3 signed certificate 2, and certificate 2 signed the transaction
abbrev crypto : Crypto
crypto = record {
  jws_header = λ jws.
      some
        (Json.obj (Fields.field "x5c" (Json.arr (Items.cons (Json.str []) Items.nil)) Fields.end));
  load_chain = λ items. some (2 ∷ []);
  signature = λ cert issuer. if issuer == 3 then Signature.good else Signature.forged;
  common_names = λ cert. [];
  jwt_es256 = λ leaf jws. if leaf == 2 then some payload else none;
  jwt_hs256 = λ secret jws. none;
}

abbrev verifier : Verifier
verifier = record {
  bundle_id = [];
  environment = [];
  roots = 3 ∷ [];
  test_secret = [];
  storekit_test_mode = false;
  trust_any_xcode_cert = false;
}

abbrev jws : Text
jws = 97 ∷ 46 ∷ 98 ∷ 46 ∷ 99 ∷ []

abbrev decoded : VerifiedTransaction
decoded = record {
  transaction_id = 49 ∷ [];
  original_transaction_id = 49 ∷ [];
  product_id = [];
  expires_at = none;
  revoked = false;
  environment = [];
}

verify_sound_example : IsGenuine no_python crypto verifier jws decoded
unfolding verify test_mode jws_header as_object verify_by_alg text_eq text_of
    verify_real_transaction get lower
verify_sound_example = verify_sound no_python crypto verifier jws decoded refl refl
