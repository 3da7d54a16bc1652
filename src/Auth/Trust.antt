-- ===== src/Auth/Trust.antt =====
-- Which Apple identity tokens src/app/auth/apple.py accepts.
use model_lib.Base.{◌≡◌, inl, inr, true, false, Option, some, arith, Bool-cases, Option-cases}
use model_lib.Base.Text.{Text, codes, text_eq, text_eq_iff, is_empty}
use model_lib.Json.{Fields, Runtime, get, truthy, text_of}
use model_lib.Session.{ok}
use model_lib.Session.{Result-cases}
use model_lib.Auth.Apple.{
  Jwt, AppleSettings, VerifiedAppleIdentity, verify_apple, claims_of, alg_of,
}

-- what the claims of an accepted token were decoded with
pub data IsVerified (settings : AppleSettings) (jwt : Jwt) (token : Text) (claims : Fields)
    : Type 0 where
  by_apple :
      (key : Text)
      → jwt.get_signing_key token ≡ some key
      → jwt.decode token key (codes "RS256") settings.issuer settings.audience ≡ some claims
      → IsVerified settings jwt token claims
  by_test_secret :
      settings.apple_test_mode ≡ true
      → is_empty settings.apple_test_secret ≡ false
      → jwt.decode token settings.apple_test_secret
          (codes "HS256")
          settings.issuer
          settings.audience
        ≡ some claims
      → IsVerified settings jwt token claims

module _ (py : Runtime) (settings : AppleSettings) (jwt : Jwt) (token : Text) where
  claims-IsVerified :
      (header claims : Fields)
      → claims_of py settings jwt token header ≡ ok claims
      → IsVerified settings jwt token claims
  unfolding claims_of
  claims-IsVerified header claims h =
      elim (Bool-cases (text_eq (alg_of py header) (codes "HS256"))) [
        | inl e ↦ by_test_secret (ground arith) (ground arith) (ground arith)
        | inr e ↦ elim (Option-cases (jwt.get_signing_key token)) [
          | inl k ↦ absurd (ground arith)
          | inr (key, k) ↦ by_apple key k (ground arith)
        ]
      ]

  -- what an accepted identity was read from
  pub record IsVouched (client_nonce : Option Text) (identity : VerifiedAppleIdentity)
      : Type 0 where
    pub claims : Fields
    pub verified : IsVerified settings jwt token claims
    pub subject : identity.apple_sub ≡ text_of py (get "sub" claims)
    pub has_subject : truthy (get "sub" claims) ≡ true
    pub audience : is_empty settings.audience ≡ false
    -- a nonce of the client is the one that the claims have a hash of, if they have one
    pub same_nonce :
        (n : Text)
        → client_nonce ≡ some n
        → is_empty n ≡ false
        → truthy (get "nonce" claims) ≡ true
        → jwt.sha256_hex n ≡ text_of py (get "nonce" claims)

  -- An identity token is accepted only with an audience configured, if its claims were decoded
  -- with a signing key of Apple's or, in test mode, with a test secret that is not empty; the
  -- identity's subject is the claims', it is not missing, and a nonce on both sides agrees.
  pub verify_apple_sound :
      (client_nonce : Option Text) (identity : VerifiedAppleIdentity)
      → verify_apple py settings jwt token client_nonce ≡ ok identity
      → IsVouched client_nonce identity
  unfolding verify_apple
  verify_apple_sound client_nonce identity h =
      elim (Option-cases (jwt.get_unverified_header token)) [
        | inl e ↦ absurd (ground arith)
        | inr (header, e) ↦ elim (Result-cases (claims_of py settings jwt token header)) [
          | inr (x, c) ↦ absurd (ground arith)
          | inl (claims, c) ↦ record {
            claims = claims;
            verified = claims-IsVerified header claims c;
            subject = ground arith;
            has_subject = ground arith;
            audience = ground arith;
            same_nonce = λ n e₁ e₂ e₃.
                (text_eq_iff (jwt.sha256_hex n) (text_of py (get "nonce" claims))).0 (ground arith);
          }
        ]
      ]
