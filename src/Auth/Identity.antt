-- ===== src/Auth/Identity.antt =====
-- src/app/auth/service.py, whose user a device or an Apple account is. A fresh `uuid.uuid4()` is an
-- argument; `last_seen_at`, which nothing reads, is left out.
use model_lib.Base.{
  ℕ, Bool, false, ◌&&◌, ◌||◌, Option, none, some, List, [], ◌∷◌, ◌==◌, if◌then◌else◌, put,
}
use model_lib.Base.Text.{Text, codes, text_eq}
use model_lib.Errors.{AppError}
use model_lib.Json.{Json}
use model_lib.Tables.{AuthIdentity, Db}
use model_lib.Session.{ok, Action, ⊤, pure, raise, gets, modify, ◌>>=◌, ◌>>◌}
use model_lib.Audit.{check_user}

-- `INSERT INTO users (id) ... ON CONFLICT (id) DO NOTHING`, as `provision_user` of src/app/deps.py
unfoldable pub provision_user : ℕ → Db → Db
provision_user user_id db = elim (db.users user_id) [
  | some _ ↦ db
  | none ↦ record db { users = put db.users user_id (record { trial_used = false }) }
]

abbrev pub bind_device : Text → ℕ → Db → Db
bind_device device_id user_id db = record db {
  auth_devices = λ d. if text_eq d device_id then some user_id else db.auth_devices d;
}

-- `INSERT INTO auth_devices ... ON CONFLICT (device_id) DO NOTHING`
unfoldable pub insert_device : Text → ℕ → Db → Db
insert_device device_id user_id db = elim (db.auth_devices device_id) [
  | some _ ↦ db
  | none ↦ bind_device device_id user_id db
]

-- the row that the code reads again after its INSERT
unfoldable pub winner : Option ℕ → Action ℕ
winner none = raise AppError.service_unavailable
winner (some user_id) = pure user_id

unfoldable pub create_identity : (new_user : ℕ) → Text → Action ℕ
unfolding provision_user insert_device winner
create_identity new_user device_id = do
  modify (provision_user new_user)
  modify (insert_device device_id new_user)
  resolved ← gets (λ db. db.auth_devices device_id)
  winner resolved

-- `_find_or_create_identity`
unfoldable pub find_or_create_identity : (new_user : ℕ) → Text → Action ℕ
unfolding create_identity
find_or_create_identity new_user device_id s = elim (s.current.auth_devices device_id) [
  | some user_id ↦ (ok user_id, s)
  | none ↦ create_identity new_user device_id s
]

unfoldable pub is_apple : AuthIdentity → Bool
is_apple row = text_eq row.provider (codes "apple")

-- the user of an Apple subject
unfoldable pub apple_user : Text → List AuthIdentity → Option ℕ
unfolding is_apple
apple_user subject [] = none
apple_user subject (row ∷ rows) =
    let rest = apple_user subject rows in
    if is_apple row && text_eq row.subject subject then some row.user_id else rest

-- whether the user has an Apple identity
unfoldable pub has_apple : ℕ → List AuthIdentity → Bool
unfolding is_apple
has_apple user_id [] = false
has_apple user_id (row ∷ rows) =
    ((row.user_id == user_id) && is_apple row) || has_apple user_id rows

-- the column is a text or NULL
unfoldable pub email_column : Json → Option (Option Text)
email_column Json.null = some none
email_column (Json.str s) = some (some s)
email_column _ = none

-- `INSERT INTO auth_identities ... ON CONFLICT (provider, subject) DO NOTHING`
unfoldable pub insert_identity : ℕ → Text → Option Text → Db → Db
unfolding apple_user
insert_identity user_id subject email db = elim (apple_user subject db.auth_identities) [
  | some _ ↦ db
  | none ↦ record db {
    auth_identities =
        (record { user_id = user_id; provider = codes "apple"; subject = subject; email = email })
        ∷ db.auth_identities;
  }
]

unfoldable pub write_identity : ℕ → Text → Json → Action ⊤
unfolding email_column insert_identity
write_identity user_id subject email = elim (email_column email) [
  | none ↦ raise AppError.database
  | some column ↦ do check_user user_id; modify (insert_identity user_id subject column)
]

-- the user that a first Apple sign-in is linked to: the device's, unless that one has an Apple
-- identity already, in which case a new one
unfoldable pub link_target : (second_user device_user : ℕ) → Action ℕ
unfolding has_apple provision_user
link_target second_user device_user s =
    if has_apple device_user s.current.auth_identities
    then (do modify (provision_user second_user); pure second_user) s
    else (ok device_user, s)

unfoldable pub link_identity : (new_user second_user : ℕ) → Text → Json → Text → Action ℕ
unfolding find_or_create_identity link_target write_identity winner apple_user
link_identity new_user second_user apple_sub email device_id = do
  device_user ← find_or_create_identity new_user device_id
  link_to ← link_target second_user device_user
  write_identity link_to apple_sub email
  resolved ← gets (λ db. apple_user apple_sub db.auth_identities)
  winner resolved

-- `_resolve_apple_user`
unfoldable pub resolve_apple_user : (new_user second_user : ℕ) → Text → Json → Text → Action ℕ
unfolding link_identity apple_user
resolve_apple_user new_user second_user apple_sub email device_id s =
    elim (apple_user apple_sub s.current.auth_identities) [
      | some user_id ↦ (ok user_id, s)
      | none ↦ link_identity new_user second_user apple_sub email device_id s
    ]

-- `_upsert_device`
unfoldable pub upsert_device : Text → ℕ → Action ⊤
upsert_device device_id user_id = do check_user user_id; modify (bind_device device_id user_id)
