-- ===== src/Tests/Data.antt =====
-- The database, the settings and the third-party code of the tests.
use model_lib.Base.{refl, false, none, some, [], ◌∷◌, arith, ◌==◌, if◌then◌else◌}
use model_lib.Base.Text.{Text, codes}
use model_lib.Json.{Json, Fields, Runtime}
use model_lib.Tables.{User, ChatSession, Db}
use model_lib.Session.{Session}
use model_lib.Wallet.{balance_of}
use model_lib.Wallet.Integrity.{IsSound}

abbrev pub first_user : User
first_user = record { trial_used = false }

abbrev pub first_chat : ChatSession
first_chat = record {
  user_id = 1;
  project_id = none;
  workspace_project_id = none;
  mode = codes "credits";
  model = none;
  title = none;
  assistant_mode = codes "chat";
  dialog_mode = codes "smart";
  is_pinned = false;
  updated_at = 0;
}

-- one user, and a chat session of theirs
abbrev pub small_db : Db
small_db = record {
  users = λ u. if u == 1 then some first_user else none;
  subscriptions = λ u. none;
  wallets = λ u. none;
  ledger_transactions = [];
  byok_keys = λ u. none;
  chat_sessions = λ c. if c == 7 then some first_chat else none;
  chat_steps = [];
  tool_calls = [];
  next_seq = 0;
  auth_devices = λ d. none;
  auth_identities = [];
  auth_refresh_tokens = [];
  adapty_webhook_events = [];
  cloudpayments_webhook_events = [];
  projects = [];
  site_files = [];
  workspace_projects = [];
  workspace_files = [];
  audit_logs = [];
  next_id = 0;
}

abbrev pub request : Session
request = record { committed = small_db; current = small_db; now = 100000000000000 }

pub small_db-IsSound : IsSound small_db
unfolding balance_of
small_db-IsSound = record {
  balanced = λ u. refl;
  bounded = λ u. omega arith;
  unique = tt;
  in_range = tt;
  owned = λ u h. refl;
}

abbrev pub key_1 : Text
key_1 = 107 ∷ 49 ∷ []

abbrev pub no_meta : Json
no_meta = Json.obj Fields.end

-- a standard library that reads nothing but the UUID of user 1
abbrev pub first_python : Runtime
first_python = record {
  json_loads = λ raw. none;
  uuid = λ t. some 1;
  uuid_text = λ u. 49 ∷ [];
  fromisoformat = λ t. none;
  instant_of_ms = λ v. none;
  container_text = λ v. [];
}
