-- ===== src/Byok/Service.antt =====
-- src/app/byok/service.py: a user's own API key, stored encrypted under a key of its own.
use model_lib.Base.{ℕ, Bool, true, false, not, ◌&&◌, Option, none, some, ◌==◌, if◌then◌else◌}
use model_lib.Base.Text.{Text, codes}
use model_lib.Errors.{AppError}
use model_lib.Tables.{ByokState, ByokKey, AuditPayload, Db}
use model_lib.Session.{ok, err, Action, ⊤, pure, raise, gets, modify, ◌>>=◌, ◌>>◌}
use model_lib.Audit.{AuditEvent, record_event, check_user}
use model_lib.Byok.Keys.{
  Entropy, KeyValidation, ByokSettings, detect_byok_provider, active_model_for, encrypt_dek,
  decrypt_dek,
}

pub record ByokResult : Type 0 where
  pub byok_enabled : Bool
  pub key_status : ByokState
  pub active_model : Option Text

abbrev pub put_key : ℕ → Option ByokKey → Db → Db
put_key user_id row db = record db { byok_keys = λ u. if u == user_id then row else db.byok_keys u }

unfoldable pub byok_event : ℕ → Text → Option Bool → ByokState → Option Bool → AuditEvent
byok_event user_id action requested key_status byok_enabled = record {
  user_id = user_id;
  session_id = none;
  payload = AuditPayload.byok_change action requested key_status byok_enabled;
}

unfoldable pub is_valid_status : ByokState → Bool
is_valid_status ByokState.valid = true
is_valid_status _ = false

-- the row of a (re)set key; a new row is disabled, an old one stays as it was if the key is valid
unfoldable pub enabled_after_set : Option ByokKey → ByokState → Bool
unfolding is_valid_status
enabled_after_set none key_status = false
enabled_after_set (some row) key_status = if is_valid_status key_status then row.enabled else false

-- the INSERT or the UPDATE of the row; a new one refers to the user
unfoldable pub write_row : ℕ → Option ByokKey → ByokKey → Action ⊤
write_row user_id none row = do check_user user_id; modify (put_key user_id (some row))
write_row user_id (some old) row = modify (put_key user_id (some row))

-- `_store_key`
unfoldable pub store_key :
    ByokSettings → Entropy → ℕ → Text → ByokState → Option Text → Action ByokResult
unfolding encrypt_dek enabled_after_set write_row byok_event active_model_for
store_key settings entropy user_id api_key key_status provider =
    elim (settings.cipher.encode api_key) [
      | none ↦ raise AppError.unhandled
      | some plain ↦ do
        existing ← gets (λ db. db.byok_keys user_id)
        write_row user_id existing (record {
          encrypted_key = settings.cipher.encrypt entropy.dek entropy.nonce plain;
          encrypted_dek = encrypt_dek settings entropy.wrap_nonce entropy.dek;
          nonce = entropy.nonce;
          key_status = key_status;
          enabled = enabled_after_set existing key_status;
          provider = provider;
        })
        record_event (
            byok_event user_id (codes "set") none key_status
              (some (enabled_after_set existing key_status)))
        pure (record {
          byok_enabled = enabled_after_set existing key_status;
          key_status = key_status;
          active_model = active_model_for settings key_status provider;
        })
    ]

unfoldable pub status_of_validation : KeyValidation → ByokState
status_of_validation KeyValidation.accepted = ByokState.valid
status_of_validation KeyValidation.rejected = ByokState.invalid
status_of_validation KeyValidation.offline = ByokState.offline

-- the key under the provider of its prefix; without one, no validation is asked for
unfoldable pub set_with_provider :
    ByokSettings → Entropy → ℕ → Text → Option Text → Action ByokResult
unfolding store_key status_of_validation
set_with_provider settings entropy user_id api_key none =
    store_key settings entropy user_id api_key ByokState.invalid none
set_with_provider settings entropy user_id api_key (some provider) =
    store_key settings entropy user_id api_key
      (status_of_validation (settings.validate_key provider api_key)) (some provider)

unfoldable pub set_key : ByokSettings → Entropy → ℕ → Text → Action ByokResult
unfolding set_with_provider
set_key settings entropy user_id api_key =
    set_with_provider settings entropy user_id api_key (detect_byok_provider api_key)

abbrev pub no_key : ByokResult
no_key = record { byok_enabled = false; key_status = ByokState.missing; active_model = none }

-- the request to enable a key that is not valid
unfoldable pub toggle_rejected : ByokSettings → ℕ → Bool → ByokKey → Action ByokResult
unfolding byok_event active_model_for
toggle_rejected settings user_id enabled row = do
  record_event (byok_event user_id (codes "toggle_rejected") (some enabled) row.key_status none)
  pure (record {
    byok_enabled = false;
    key_status = row.key_status;
    active_model = active_model_for settings row.key_status row.provider;
  })

unfoldable pub toggle_to : ByokSettings → ℕ → Bool → ByokKey → Action ByokResult
unfolding byok_event active_model_for
toggle_to settings user_id enabled row = do
  modify (put_key user_id (some (record row { enabled = enabled })))
  record_event (byok_event user_id (codes "toggle") none row.key_status (some enabled))
  pure (record {
    byok_enabled = enabled;
    key_status = row.key_status;
    active_model = active_model_for settings row.key_status row.provider;
  })

unfoldable pub toggle_row : ByokSettings → ℕ → Bool → ByokKey → Action ByokResult
unfolding is_valid_status toggle_rejected toggle_to
toggle_row settings user_id enabled row =
    if enabled && not (is_valid_status row.key_status)
    then toggle_rejected settings user_id enabled row
    else toggle_to settings user_id enabled row

unfoldable pub toggle : ByokSettings → ℕ → Bool → Action ByokResult
unfolding toggle_row
toggle settings user_id enabled s = elim (s.current.byok_keys user_id) [
  | none ↦ (ok no_key, s)
  | some row ↦ toggle_row settings user_id enabled row s
]

unfoldable pub delete_key : ℕ → Action ByokResult
unfolding byok_event
delete_key user_id = do
  modify (put_key user_id none)
  record_event (byok_event user_id (codes "delete") none ByokState.missing (some false))
  pure no_key

unfoldable pub status_of_row : ByokSettings → Option ByokKey → ByokResult
unfolding active_model_for
status_of_row settings none = no_key
status_of_row settings (some row) = record {
  byok_enabled = row.enabled;
  key_status = row.key_status;
  active_model = active_model_for settings row.key_status row.provider;
}

unfoldable pub get_status : ByokSettings → ℕ → Action ByokResult
unfolding status_of_row
get_status settings user_id = gets (λ db. status_of_row settings (db.byok_keys user_id))

-- the two decryptions; `none` where one of them raises
unfoldable pub open_row : ByokSettings → ByokKey → Option Text
unfolding decrypt_dek
open_row settings row = elim (decrypt_dek settings row.encrypted_dek) [
  | none ↦ none
  | some dek ↦ elim (settings.cipher.decrypt dek row.nonce row.encrypted_key) [
    | none ↦ none
    | some plain ↦ settings.cipher.decode plain
  ]
]

-- the stored provider, or the one of the key
unfoldable pub row_provider : ByokKey → Text → Option Text
unfolding detect_byok_provider
row_provider row key = elim row.provider [
  | some provider ↦ some provider
  | none ↦ detect_byok_provider key
]

unfoldable pub get_plaintext_key_with_provider :
    ByokSettings → ℕ → Action (Option (Text × Option Text))
unfolding open_row row_provider
get_plaintext_key_with_provider settings user_id s = elim (s.current.byok_keys user_id) [
  | none ↦ (ok none, s)
  | some row ↦ elim (open_row settings row) [
    | none ↦ (err AppError.unhandled, s)
    | some key ↦ (ok (some (key, row_provider row key)), s)
  ]
]

unfoldable pub get_plaintext_key : ByokSettings → ℕ → Action (Option Text)
unfolding open_row
get_plaintext_key settings user_id s = elim (s.current.byok_keys user_id) [
  | none ↦ (ok none, s)
  | some row ↦ elim (open_row settings row) [
    | none ↦ (err AppError.unhandled, s)
    | some key ↦ (ok (some key), s)
  ]
]

-- the body that `mark_invalid` and `mark_expired` share
unfoldable pub disable_as : ByokState → Text → ℕ → Action ⊤
unfolding byok_event
disable_as key_status action user_id s = elim (s.current.byok_keys user_id) [
  | none ↦ (ok tt, s)
  | some row ↦
      (do
        modify (put_key user_id (some (record row { key_status = key_status; enabled = false })))
        record_event (byok_event user_id action none key_status none))
        s
]

unfoldable pub mark_invalid : ℕ → Action ⊤
unfolding disable_as
mark_invalid user_id = disable_as ByokState.invalid (codes "runtime_invalidate") user_id

unfoldable pub mark_expired : ℕ → Action ⊤
unfolding disable_as
mark_expired user_id = disable_as ByokState.expired (codes "runtime_expire") user_id
