-- ===== src/Tables.antt =====
-- The rows of src/app/models/tables.py that the billing services read and write, and the database
-- as one value. A UUID is a number, for the code only compares it; an instant is a count of
-- microseconds from `datetime.min`.
use model_lib.Base.{ℕ, Bool, Option, List, Table}
use model_lib.Base.Int.{ℤ}
use model_lib.Base.Text.{Text}
use model_lib.Json.{Json}

pub data SubscriptionStatus : Type 0 where
  active expired absent : SubscriptionStatus

-- `byok_key_status_enum`, with the `disabled` that only the policy engine uses
pub data ByokState : Type 0 where
  missing disabled invalid valid validating offline expired : ByokState

pub data TxType : Type 0 where
  debit credit : TxType

pub record User : Type 0 where
  pub trial_used : Bool

pub record Subscription : Type 0 where
  pub status : SubscriptionStatus
  pub plan : Option Text
  pub expires_at : Option ℕ
  pub updated_at : ℕ

-- CHECK (balance >= 0)
pub record Wallet : Type 0 where
  pub balance : ℕ
  pub updated_at : ℕ

-- CHECK (amount > 0), UNIQUE (user_id, idempotency_key)
pub record LedgerTransaction : Type 0 where
  pub id : ℕ
  pub user_id : ℕ
  pub type : TxType
  pub amount : ℕ
  pub meta : Json
  pub idempotency_key : Text
  pub created_at : ℕ

pub record ByokKey : Type 0 where
  pub encrypted_key : List ℕ
  pub encrypted_dek : List ℕ
  pub nonce : List ℕ
  pub key_status : ByokState
  pub enabled : Bool
  pub provider : Option Text

pub record AuthRefreshToken : Type 0 where
  pub id : ℕ
  pub user_id : ℕ
  pub device_id : Text
  pub token_hash : Text
  pub expires_at : ℕ
  pub used_at : Option ℕ
  pub revoked_at : Option ℕ

-- UNIQUE (provider, subject)
pub record AuthIdentity : Type 0 where
  pub user_id : ℕ
  pub provider : Text
  pub subject : Text
  pub email : Option Text

pub record ChatSession : Type 0 where
  pub user_id : ℕ
  pub project_id : Option Text
  pub workspace_project_id : Option ℕ
  pub mode : Text
  pub model : Option Text
  pub title : Option Text
  pub assistant_mode : Text
  pub dialog_mode : Text
  pub is_pinned : Bool
  pub updated_at : ℕ

-- a site that a chat builds
pub record Project : Type 0 where
  pub id : ℕ
  pub user_id : ℕ
  pub external_project_id : Text

-- `content` as bytes
pub record SiteFile : Type 0 where
  pub project_id : ℕ
  pub path : Text
  pub content : List ℕ
  pub content_type : Text
  pub size : ℕ

pub record WorkspaceProject : Type 0 where
  pub id : ℕ
  pub user_id : ℕ
  pub name : Text
  pub description : Option Text
  pub instructions : Option Text
  pub updated_at : ℕ

pub record WorkspaceFile : Type 0 where
  pub id : ℕ
  pub workspace_project_id : ℕ
  pub filename : Text
  pub content : List ℕ
  pub media_type : Text
  pub size : ℕ
  pub extracted_text : Option Text
  pub created_at : ℕ

pub data ChatRole : Type 0 where
  user assistant tool : ChatRole

-- `payload` of a step: the content blocks of a message, or the result of a tool call
pub data StepPayload : Type 0 where
  content : Json → StepPayload
  tool_payload :
      (tool_call_id : ℕ)
      → (provider_tool_use_id tool_name : Text) → (result error : Option Json) → StepPayload

pub record ChatStep : Type 0 where
  pub id : ℕ
  pub seq : ℕ
  pub session_id : ℕ
  pub message_step_id : ℕ
  pub role : ChatRole
  pub payload : StepPayload
  pub usage : Json

pub data ToolCallStatus : Type 0 where
  pending completed errored : ToolCallStatus

pub record ToolCall : Type 0 where
  pub id : ℕ
  pub session_id : ℕ
  pub message_step_id : ℕ
  pub tool_name : Text
  pub provider_tool_use_id : Text
  pub args : Json
  pub status : ToolCallStatus
  pub result : Option Json
  pub created_at : ℕ
  pub completed_at : Option ℕ

pub record AdaptyWebhookEvent : Type 0 where
  pub event_id : Text
  pub user_id : ℕ
  pub event_type : Text
  pub payload : Json

pub data Kind : Type 0 where
  tokens subscription unknown : Kind

pub record CloudPaymentsWebhookEvent : Type 0 where
  pub transaction_id : Text
  pub user_id : ℕ
  pub product_id : Text
  pub kind : Kind

-- A value under a key that src/app/observability/redaction.py calls sensitive.
pub data Guarded : Type 0 where
  shown : Text → Guarded
  redacted : Guarded

pub data Semantics : Type 0 where
  granting expiring noop : Semantics

-- `payload` of an audit event, a constructor for each `event_type`
pub data AuditPayload : Type 0 where
  billing_debit : (ledger_tx_id amount new_balance : ℕ) → Option ℕ → Json → AuditPayload
  billing_credit : (ledger_tx_id amount new_balance : ℕ) → Text → AuditPayload
  subscription_change :
      SubscriptionStatus → Option Text → (transaction_id environment : Text) → Bool → AuditPayload
  adapty_subscription :
      (event_id event_type : Text)
      → Semantics
      → Option SubscriptionStatus
      → Option Text
      → Option ℕ
      → Text
      → Option Bool
      → ℕ
      → AuditPayload
  cloudpayments_payment :
      (payment_id product_id : Text)
      → Kind
      → Text
      → Option SubscriptionStatus
      → Option Text
      → Option ℕ
      → ℤ
      → ℕ
      → AuditPayload
  chat_step : (session_id : ℕ) → ChatRole → (model usage : Json) → AuditPayload
  tool_mutation tool_call_completed :
      (tool_call_id : ℕ) → (tool_name : Text) → ToolCallStatus → AuditPayload
  -- `tool_mutation` of `site.write_file` and of `site.delete`
  site_file_written : (project_id : ℕ) → (path : Text) → (bytes_written : ℕ) → AuditPayload
  site_file_deleted : (project_id : ℕ) → (path : Text) → (deleted : Bool) → AuditPayload
  byok_change :
      (action : Text)
      → (requested : Option Bool) → ByokState
      → (byok_enabled : Option Bool) → AuditPayload
  admin_grant :
      ℕ → ℤ → Text → Guarded → (ledger_tx_id : ℕ) → (idempotent_replay : Bool) → AuditPayload
  admin_subscription_grant : ℕ → Text → ℕ → ℤ → Guarded → Option ℕ → AuditPayload

pub record AuditLog : Type 0 where
  pub user_id : ℕ
  pub session_id : Option ℕ
  pub payload : AuditPayload

-- The tables that are lists hold their newest row first.
pub record Db : Type 0 where
  pub users : Table User
  pub subscriptions : Table Subscription
  pub wallets : Table Wallet
  pub ledger_transactions : List LedgerTransaction
  pub byok_keys : Table ByokKey
  pub chat_sessions : Table ChatSession
  pub chat_steps : List ChatStep
  pub tool_calls : List ToolCall
  -- what the identity column `seq` of `chat_steps` gives next
  pub next_seq : ℕ
  -- the user of each device id
  pub auth_devices : Text → Option ℕ
  pub auth_identities : List AuthIdentity
  pub auth_refresh_tokens : List AuthRefreshToken
  pub adapty_webhook_events : List AdaptyWebhookEvent
  pub cloudpayments_webhook_events : List CloudPaymentsWebhookEvent
  pub projects : List Project
  pub site_files : List SiteFile
  pub workspace_projects : List WorkspaceProject
  pub workspace_files : List WorkspaceFile
  pub audit_logs : List AuditLog
  -- what `gen_random_uuid()` gives next
  pub next_id : ℕ
