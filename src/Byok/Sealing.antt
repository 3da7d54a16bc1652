-- ===== src/Byok/Sealing.antt =====
-- A key that src/app/byok/service.py stored is the key that it hands out.
use model_lib.Base.{ℕ, ◌≡◌, refl, ap, some, List, [], ◌∷◌, ◌++◌, arith, length, take, drop}
use model_lib.Base.Text.{Text}
use model_lib.Session.{Session, ok}
use model_lib.Audit.{record_event}
use model_lib.Byok.Keys.{
  Cipher, Entropy, ByokSettings, detect_byok_provider, encrypt_dek, decrypt_dek, local_nonce_len,
}
use model_lib.Byok.Service.{ByokResult, set_key, get_plaintext_key_with_provider}

-- What AES-GCM and UTF-8 promise: what was encrypted with a key and a nonce is decrypted with them,
-- and what a text was encoded to is decoded to it.
pub record IsLossless (cipher : Cipher) : Type 0 where
  pub opens :
      (key nonce content : List ℕ)
      → cipher.decrypt key nonce (cipher.encrypt key nonce content) ≡ some content
  pub decodes :
      (t : Text) (bytes : List ℕ) → cipher.encode t ≡ some bytes → cipher.decode bytes ≡ some t

module _ {ℓ} {A : Type ℓ} where
  take-append : (xs ys : List A) (n : ℕ) → length xs ≡ n → take n (xs ++ ys) ≡ xs
  take-append [] ys n h = rw (← h) refl
  take-append (x ∷ xs) ys n h = rw (← h) (ap (λ l. x ∷ l) (take-append xs ys (length xs) refl))

  drop-append : (xs ys : List A) (n : ℕ) → length xs ≡ n → drop n (xs ++ ys) ≡ ys
  drop-append [] ys n h = rw (← h) refl
  drop-append (x ∷ xs) ys n h = rw (← h) (drop-append xs ys (length xs) refl)

module _ (settings : ByokSettings) (lossless : IsLossless settings.cipher) (entropy : Entropy)
    (wrapped : length entropy.wrap_nonce ≡ local_nonce_len) where
  decrypt-encrypt :
      decrypt_dek settings (encrypt_dek settings entropy.wrap_nonce entropy.dek) ≡ some entropy.dek
  unfolding decrypt_dek encrypt_dek
  decrypt-encrypt =
      let wrapped_dek =
        settings.cipher.encrypt settings.master_key entropy.wrap_nonce entropy.dek in
      rw
        (
          decrypt_dek,
          encrypt_dek,
          take-append entropy.wrap_nonce wrapped_dek local_nonce_len wrapped,
          drop-append entropy.wrap_nonce wrapped_dek local_nonce_len wrapped,
        )
        (lossless.opens settings.master_key entropy.wrap_nonce entropy.dek)

  -- With a cipher that loses nothing and a wrapping nonce of its fixed length, after a key was
  -- set the session hands out that very key, with the provider that its prefix names.
  pub set_key_roundtrip :
      (user_id : ℕ) (api_key : Text) (s s' : Session) (r : ByokResult)
      → set_key settings entropy user_id api_key s ≡ (ok r, s')
      → get_plaintext_key_with_provider settings user_id s'
        ≡ (ok (some (api_key, detect_byok_provider api_key)), s')
  unfolding set_key get_plaintext_key_with_provider record_event
  set_key_roundtrip user_id api_key s s' r h =
      grind (arith, decrypt-encrypt, lossless.opens, lossless.decodes)
