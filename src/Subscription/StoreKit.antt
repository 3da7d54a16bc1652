-- ===== src/Subscription/StoreKit.antt =====
-- src/app/subscription/storekit.py: from a signed JWS transaction to its normalised fields. What
-- PyJWT, cryptography and base64 do is the record `Crypto`; a certificate is a number, its DER form.
use model_lib.Base.{
  ℕ, ◌+◌, Bool, true, false, not, ◌&&◌, ◌||◌, Option, none, some, List, [], ◌∷◌, ◌==◌,
  if◌then◌else◌,
}
use model_lib.Base.Text.{Text, codes, text_eq, is_empty, lower}
use model_lib.Errors.{AppError}
use model_lib.Json.{Json, Fields, Items, Runtime, get, as_object, text_of}
use model_lib.Json.{lookup}
use model_lib.Session.{Result, ok, err, ⊤}

pub record VerifiedTransaction : Type 0 where
  pub transaction_id : Text
  pub original_transaction_id : Text
  pub product_id : Text
  pub expires_at : Option ℕ
  pub revoked : Bool
  pub environment : Text

-- one certificate's signature against another's public key
pub data Signature : Type 0 where
  good forged no_hash unsupported : Signature

pub record Crypto : Type 0 where
  -- the JSON of the first segment; `none` where it is not base64url JSON
  pub jws_header : Text → Option Json
  -- the certificates of `x5c`; `none` where one cannot be read
  pub load_chain : Items → Option (List ℕ)
  pub signature : ℕ → ℕ → Signature
  -- the common names of the subject
  pub common_names : ℕ → List Text
  -- `jwt.decode` with the leaf's public key and ES256; `none` for `InvalidTokenError`
  pub jwt_es256 : ℕ → Text → Option Fields
  -- `jwt.decode` with a secret and HS256
  pub jwt_hs256 : Text → Text → Option Fields

-- the fields of `StoreKitVerifier`
pub record Verifier : Type 0 where
  pub bundle_id : Text
  pub environment : Text
  pub roots : List ℕ
  pub test_secret : Text
  pub storekit_test_mode : Bool
  pub trust_any_xcode_cert : Bool

infixl 5 ◌>>=◌
abbrev pub ◌>>=◌ : {A B : Type 0} → Result A → (A → Result B) → Result B
ok a >>= f = f a
err e >>= f = err e

abbrev pub or_err : {A : Type 0} → Option A → AppError → Result A
or_err none e = err e
or_err (some a) e = ok a

unfoldable pub count : ℕ → Text → ℕ
count c [] = 0
count c (d ∷ s) = (if d == c then 1 else 0) + count c s

xcode_cn : Text
xcode_cn = codes "StoreKit Testing in Xcode"

-- `_leaf_cn_matches_xcode`
unfoldable pub leaf_cn_matches_xcode : Crypto → ℕ → Bool
unfolding xcode_cn
leaf_cn_matches_xcode crypto leaf = elim (crypto.common_names leaf) [
  | cn ∷ rest ↦ elim rest [ [] ↦ text_eq cn xcode_cn | _ ∷ _ ↦ false ]
  | [] ↦ false
]

-- `_verify_signed_by`: cryptography's `InvalidSignature` is no `ValidationFailedError`
unfoldable pub signed_by : Signature → Result ⊤
signed_by Signature.good = ok tt
signed_by Signature.forged = err AppError.unhandled
signed_by Signature.no_hash = err AppError.validation_error
signed_by Signature.unsupported = err AppError.validation_error

unfoldable pub mem : ℕ → List ℕ → Bool
mem x [] = false
mem x (y ∷ ys) = (y == x) || mem x ys

-- `try: _verify_signed_by(root, trusted); return` over the trusted roots
unfoldable pub signed_by_root : Crypto → ℕ → List ℕ → Bool
unfolding signed_by
signed_by_root crypto root [] = false
signed_by_root crypto root (trusted ∷ more) = elim (signed_by (crypto.signature root trusted)) [
  | ok _ ↦ true
  | err _ ↦ signed_by_root crypto root more
]

-- `_verify_chain`: each certificate by the next one, then the last one against the roots
unfoldable pub verify_chain : Crypto → List ℕ → ℕ → List ℕ → Result ⊤
unfolding signed_by mem signed_by_root
verify_chain crypto roots cert [] =
    if mem cert roots || signed_by_root crypto cert roots
    then ok tt
    else err AppError.validation_error
verify_chain crypto roots cert (issuer ∷ chain) = elim (signed_by (crypto.signature cert issuer)) [
  | ok _ ↦ verify_chain crypto roots issuer chain
  | err e ↦ err e
]

-- `_jws_header`
unfoldable pub jws_header : Crypto → Text → Result Fields
jws_header crypto jws = elim (crypto.jws_header jws) [
  | some v ↦ or_err (as_object v) AppError.validation_error
  | none ↦ err AppError.validation_error
]

-- `_load_certificate_chain`: the leaf and the rest
unfoldable pub chain_of : Crypto → Json → Result (ℕ × List ℕ)
chain_of crypto (Json.arr (Items.cons x xs)) = elim (crypto.load_chain (Items.cons x xs)) [
  | none ↦ err AppError.unhandled
  | some certs ↦ elim certs [ [] ↦ err AppError.unhandled | leaf ∷ rest ↦ ok (leaf, rest) ]
]
chain_of crypto _ = err AppError.validation_error

unfoldable pub expires_of : Runtime → Json → Result (Option ℕ)
expires_of py Json.null = ok none
expires_of py (v) = elim (py.instant_of_ms v) [
  | none ↦ err AppError.unhandled
  | some t ↦ ok (some t)
]

unfoldable pub is_null : Json → Bool
is_null Json.null = true
is_null _ = false

unfoldable pub is_str : Text → Json → Bool
is_str t (Json.str s) = text_eq s t
is_str t _ = false

abbrev pub or_default : Option Json → Json → Json
or_default none d = d
or_default (some v) d = v

-- `_normalize_payload`
unfoldable pub normalize_payload : Runtime → Verifier → Fields → Result VerifiedTransaction
unfolding expires_of is_null is_str is_empty lookup
normalize_payload py v payload =
    if not (is_empty v.bundle_id) && not (is_str v.bundle_id (get "bundleId" payload))
    then err AppError.validation_error
    else do
      expires_at ← expires_of py (get "expiresDate" payload)
      tx ← or_err (lookup "transactionId" payload) AppError.validation_error
      ok (record {
        transaction_id = text_of py tx;
        original_transaction_id =
            text_of py (or_default (lookup "originalTransactionId" payload) tx);
        product_id = text_of py (or_default (lookup "productId" payload) (Json.str []));
        expires_at = expires_at;
        revoked = not (is_null (get "revocationDate" payload));
        environment =
            lower (text_of py (or_default (lookup "environment" payload) (Json.str v.environment)));
      })

-- the gates in front of the leaf's signature
unfoldable pub check_anchor : Crypto → Verifier → ℕ → List ℕ → Result ⊤
unfolding leaf_cn_matches_xcode verify_chain
check_anchor crypto v leaf rest =
    if v.trust_any_xcode_cert && leaf_cn_matches_xcode crypto leaf then ok tt else elim v.roots [
      | [] ↦ err AppError.validation_error
      | _ ∷ _ ↦ verify_chain crypto v.roots leaf rest
    ]

-- `_verify_real_transaction`
unfoldable pub verify_real_transaction :
    Runtime → Crypto → Verifier → Fields → Text → Result VerifiedTransaction
unfolding chain_of check_anchor normalize_payload
verify_real_transaction py crypto v header jws = do
  chain ← chain_of crypto (get "x5c" header)
  anchored ← check_anchor crypto v chain.0 chain.1
  payload ← or_err (crypto.jwt_es256 chain.0 jws) AppError.validation_error
  normalize_payload py v payload

-- `_verify_test_transaction`
unfoldable pub verify_test_transaction :
    Runtime → Crypto → Verifier → Text → Result VerifiedTransaction
unfolding normalize_payload
verify_test_transaction py crypto v jws = do
  payload ← or_err (crypto.jwt_hs256 v.test_secret jws) AppError.validation_error
  normalize_payload py v payload

hs256 : Text
hs256 = codes "HS256"

-- `str(header.get("alg", ""))`
unfoldable pub alg_of : Runtime → Fields → Text
unfolding lookup
alg_of py header = text_of py (or_default (lookup "alg" header) (Json.str []))

-- `self._test_mode`
unfoldable pub test_mode : Verifier → Bool
unfolding is_empty
test_mode v = v.storekit_test_mode && not (is_empty v.test_secret)

-- the branch of `verify` by the header's `alg`
unfoldable pub verify_by_alg :
    Runtime → Crypto → Verifier → Fields → Text → Result VerifiedTransaction
unfolding alg_of hs256
verify_by_alg py crypto v header jws =
    if text_eq (alg_of py header) hs256
    then if test_mode v
      then verify_test_transaction py crypto v jws
      else err AppError.validation_error
    else verify_real_transaction py crypto v header jws

-- `StoreKitVerifier.verify`
unfoldable pub verify : Runtime → Crypto → Verifier → Text → Result VerifiedTransaction
unfolding count
verify py crypto v jws =
    if not (count b'.' jws == 2)
    then err AppError.validation_error
    else do header ← jws_header crypto jws; verify_by_alg py crypto v header jws
