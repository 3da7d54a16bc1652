-- ===== src/Audit.antt =====
-- src/app/audit/service.py: the append-only audit log. A row joins the caller's transaction.
use model_lib.Base.{ℕ, Option, none, some, ◌∷◌}
use model_lib.Errors.{AppError}
use model_lib.Redaction.{redact}
use model_lib.Tables.{Db, Guarded, AuditPayload}
use model_lib.Session.{ok, err, Action, ⊤, modify, ◌>>◌}

pub record AuditEvent : Type 0 where
  pub user_id : ℕ
  pub session_id : Option ℕ
  pub payload : AuditPayload

-- `assert_no_secrets`: of the payloads' keys only `idempotencyKey` is sensitive, and those that stand
-- inside `usage`.
unfoldable pub redact_payload : AuditPayload → AuditPayload
unfolding redact
redact_payload (AuditPayload.admin_grant user amount reason key tx replay) =
    AuditPayload.admin_grant user amount reason Guarded.redacted tx replay
redact_payload (AuditPayload.admin_subscription_grant user plan expires credits key tx) =
    AuditPayload.admin_subscription_grant user plan expires credits Guarded.redacted tx
redact_payload (AuditPayload.chat_step session role model usage) =
    AuditPayload.chat_step session role model (redact usage)
redact_payload p = p

-- FOREIGN KEY (user_id) REFERENCES users
unfoldable pub check_user : ℕ → Action ⊤
check_user user_id s = elim (s.current.users user_id) [
  | none ↦ (err AppError.database, s)
  | some _ ↦ (ok tt, s)
]

-- FOREIGN KEY (session_id) REFERENCES chat_sessions
unfoldable pub check_session : Option ℕ → Action ⊤
check_session none s = (ok tt, s)
check_session (some session_id) s = elim (s.current.chat_sessions session_id) [
  | none ↦ (err AppError.database, s)
  | some _ ↦ (ok tt, s)
]

-- the new row of `audit_logs`
unfoldable pub add_event : AuditEvent → Db → Db
unfolding redact_payload
add_event event db = record db {
  audit_logs =
      record {
        user_id = event.user_id;
        session_id = event.session_id;
        payload = redact_payload event.payload;
      }
      ∷ db.audit_logs;
}

-- `AuditService.record`
unfoldable pub record_event : AuditEvent → Action ⊤
unfolding check_user check_session add_event
record_event event = do
  check_user event.user_id
  check_session event.session_id
  modify (add_event event)
