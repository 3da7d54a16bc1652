-- ===== src/Subscription/Trust.antt =====
-- What `StoreKitVerifier.verify` (src/app/subscription/storekit.py) lets through.
use model_lib.Base.{
  ℕ, ◌≡◌, refl, ◌≢◌, ◌⊎◌, inl, inr, true, false, Option, none, some, List, [], ◌∷◌, arith, ◌==◌,
  Bool-cases,
}
use model_lib.Base.Text.{Text}
use model_lib.Errors.{AppError}
use model_lib.Json.{Fields, Runtime, get}
use model_lib.Session.{Result, ok, err}
use model_lib.Subscription.StoreKit.{
  VerifiedTransaction, Signature, Crypto, Verifier, ◌>>=◌, or_err, chain_of, jws_header,
  verify_by_alg, verify, count, verify_chain, check_anchor, signed_by_root, leaf_cn_matches_xcode,
  mem, signed_by, test_mode, normalize_payload, is_str, verify_real_transaction,
}

-- where a result went through, its first step went through, and the rest of it
module _ {A B : Type 0} (next : A → Result B) where
  first_step :
      (x : Result A) {out : B} → (x >>= next) ≡ ok out → (a : A) × (next a ≡ ok out) × (x ≡ ok a)
  first_step (err e) h = cc
  first_step (ok a) h = (a, h, refl)

or_err-eq-ok : {A : Type 0} (o : Option A) (e : AppError) {a : A} → or_err o e ≡ ok a → o ≡ some a
or_err-eq-ok none e h = cc
or_err-eq-ok (some a) e h = cc

module _ (crypto : Crypto) (roots : List ℕ) where
  -- every certificate is signed by the next one, and the last one is a root or signed by a root
  abbrev pub IsAnchored : ℕ → List ℕ → Type 0
  IsAnchored cert [] =
      (mem cert roots ≡ true)
      ⊎ ((t : ℕ) × (mem t roots ≡ true) × (crypto.signature cert t ≡ Signature.good))
  IsAnchored cert (issuer ∷ chain) =
      (crypto.signature cert issuer ≡ Signature.good) × IsAnchored issuer chain

Signature-cases : (g : Signature) → (g ≡ Signature.good) ⊎ ((e : AppError) × (signed_by g ≡ err e))
unfolding signed_by
Signature-cases Signature.good = inl refl
Signature-cases Signature.forged = inr (AppError.unhandled, refl)
Signature-cases Signature.no_hash = inr (AppError.validation_error, refl)
Signature-cases Signature.unsupported = inr (AppError.validation_error, refl)

mem-head : (x : ℕ) (xs : List ℕ) → mem x (x ∷ xs) ≡ true
unfolding mem
mem-head x xs = ground arith

mem-tail : (x y : ℕ) (xs : List ℕ) → mem x xs ≡ true → mem x (y ∷ xs) ≡ true
unfolding mem
mem-tail x y xs h = ground arith

signed_by_root_sound :
    (crypto : Crypto) (cert : ℕ) (roots : List ℕ)
    → signed_by_root crypto cert roots ≡ true
    → (t : ℕ) × (mem t roots ≡ true) × (crypto.signature cert t ≡ Signature.good)
unfolding signed_by_root
signed_by_root_sound crypto cert [] h = cc
signed_by_root_sound crypto cert (r ∷ rs) h = elim (Signature-cases (crypto.signature cert r)) [
  | inl e ↦ (r, mem-head r rs, e)
  | inr (e, p) ↦
      let (t, m, g) = signed_by_root_sound crypto cert rs (rw (p, signed_by_root) at h) in
      (t, mem-tail t r rs m, g)
]

verify_chain_sound :
    (crypto : Crypto) (roots : List ℕ) (cert : ℕ) (chain : List ℕ)
    → verify_chain crypto roots cert chain ≡ ok tt
    → IsAnchored crypto roots cert chain
unfolding verify_chain
verify_chain_sound crypto roots cert [] h = ground (arith, signed_by_root_sound crypto cert roots)
verify_chain_sound crypto roots cert (issuer ∷ chain) h =
    elim (Signature-cases (crypto.signature cert issuer)) [
      | inl e ↦ (e, verify_chain_sound crypto roots issuer chain (ground arith))
      | inr (e, p) ↦ absurd (ground arith)
    ]

-- the gate in front of the leaf's signature: the Xcode exception, or a chain up to a root
abbrev pub PassesAnchor : Crypto → Verifier → ℕ → List ℕ → Type 0
PassesAnchor crypto v leaf rest =
    ((v.trust_any_xcode_cert ≡ true) × (leaf_cn_matches_xcode crypto leaf ≡ true))
    ⊎ IsAnchored crypto v.roots leaf rest

check_anchor_sound :
    (crypto : Crypto) (v : Verifier) (leaf : ℕ) (rest : List ℕ)
    → check_anchor crypto v leaf rest ≡ ok tt
    → PassesAnchor crypto v leaf rest
unfolding check_anchor
check_anchor_sound crypto v leaf rest h =
    ground (arith, verify_chain_sound crypto v.roots leaf rest)

-- the app the payload is for
abbrev pub IsForBundle : Verifier → Fields → Type 0
IsForBundle v payload = (v.bundle_id ≡ []) ⊎ (is_str v.bundle_id (get "bundleId" payload) ≡ true)

normalize_payload_bundle :
    (py : Runtime) (v : Verifier) (payload : Fields) (tx : VerifiedTransaction)
    → normalize_payload py v payload ≡ ok tx
    → IsForBundle v payload
unfolding normalize_payload
normalize_payload_bundle py v payload tx h = ground arith

-- the evidence behind an accepted transaction
abbrev pub IsGenuine : Runtime → Crypto → Verifier → Text → VerifiedTransaction → Type 0
IsGenuine py crypto v jws tx =
    (leaf : ℕ) × (rest : List ℕ) × (payload : Fields) × PassesAnchor crypto v leaf rest
    × (crypto.jwt_es256 leaf jws ≡ some payload)
    × IsForBundle v payload
    × (normalize_payload py v payload ≡ ok tx)

verify_real_transaction_sound :
    (py : Runtime) (crypto : Crypto) (v : Verifier) (header : Fields) (jws : Text)
    (tx : VerifiedTransaction)
    → verify_real_transaction py crypto v header jws ≡ ok tx
    → IsGenuine py crypto v jws tx
unfolding verify_real_transaction
verify_real_transaction_sound py crypto v header jws tx h =
    let ((leaf, rest), h₁, loaded) = first_step _ (chain_of crypto (get "x5c" header)) h in
    let (unit, h₂, anchored) = first_step _ (check_anchor crypto v leaf rest) h₁ in
    let (payload, h₃, decoded) =
      first_step _ (or_err (crypto.jwt_es256 leaf jws) AppError.validation_error) h₂ in
    (
      leaf,
      rest,
      payload,
      check_anchor_sound crypto v leaf rest anchored,
      or_err-eq-ok _ _ decoded,
      normalize_payload_bundle py v payload tx h₃,
      h₃,
    )

verify_by_alg_sound :
    (py : Runtime) (crypto : Crypto) (v : Verifier) (header : Fields) (jws : Text)
    (tx : VerifiedTransaction)
    → test_mode v ≡ false
    → verify_by_alg py crypto v header jws ≡ ok tx
    → verify_real_transaction py crypto v header jws ≡ ok tx
unfolding verify_by_alg
verify_by_alg_sound py crypto v header jws tx off h = ground arith

verify_header :
    (py : Runtime) (crypto : Crypto) (v : Verifier) (jws : Text) (tx : VerifiedTransaction)
    → verify py crypto v jws ≡ ok tx
    → (header : Fields) × (verify_by_alg py crypto v header jws ≡ ok tx)
unfolding verify
verify_header py crypto v jws tx h = elim (Bool-cases (count b'.' jws == 2)) [
  | inl e ↦
      let (header, e, _) =
        first_step (λ f. verify_by_alg py crypto v f jws) (jws_header crypto jws) (rw e at h) in
      (header, e)
  | inr e ↦ absurd (ground arith)
]

-- With test mode off, a transaction is accepted only if a certificate chain passes the anchor
-- gate (each certificate signed by the next, the last one a trusted root or signed by one; or
-- the Xcode exception, when it is switched on and the leaf has that name), the leaf's ES256
-- signature decodes to a payload, that payload is for the configured bundle, and the answer is
-- the payload's fields.
pub verify_sound :
    (py : Runtime) (crypto : Crypto) (v : Verifier) (jws : Text) (tx : VerifiedTransaction)
    → test_mode v ≡ false
    → verify py crypto v jws ≡ ok tx
    → IsGenuine py crypto v jws tx
verify_sound py crypto v jws tx off h =
    let (header, e) = verify_header py crypto v jws tx h in
    verify_real_transaction_sound py crypto v header jws tx
      (verify_by_alg_sound py crypto v header jws tx off e)

not-IsAnchored-nil :
    (crypto : Crypto) (cert : ℕ) (chain : List ℕ) → ¬ (IsAnchored crypto [] cert chain)
unfolding mem
not-IsAnchored-nil crypto cert [] (inl m) = cc
not-IsAnchored-nil crypto cert [] (inr (t, m, g)) = cc
not-IsAnchored-nil crypto cert (issuer ∷ chain) (g, a) = not-IsAnchored-nil crypto issuer chain a

not-PassesAnchor-nil :
    (crypto : Crypto) (v : Verifier) (leaf : ℕ) (rest : List ℕ)
    → v.roots ≡ []
    → v.trust_any_xcode_cert ≡ false
    → ¬ (PassesAnchor crypto v leaf rest)
not-PassesAnchor-nil crypto v leaf rest bare strict (inl (on, cn)) = cc
not-PassesAnchor-nil crypto v leaf rest bare strict (inr a) =
    not-IsAnchored-nil crypto leaf rest (rw bare at a)

-- With test mode off, no root certificate configured and the Xcode exception off, no transaction
-- is accepted.
verify_closed :
    (py : Runtime) (crypto : Crypto) (v : Verifier) (jws : Text) (tx : VerifiedTransaction)
    → test_mode v ≡ false
    → v.roots ≡ []
    → v.trust_any_xcode_cert ≡ false
    → verify py crypto v jws ≢ ok tx
verify_closed py crypto v jws tx off bare strict h =
    let (leaf, rest, _, a, _, _, _) = verify_sound py crypto v jws tx off h in
    not-PassesAnchor-nil crypto v leaf rest bare strict a
