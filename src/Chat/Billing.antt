-- ===== src/Chat/Billing.antt =====
-- `_finalize_assistant` and `_debit` of src/app/chat/orchestrator.py: the final answer of a turn, its
-- price and its audit row, in one transaction, for a chat that is stored.
use model_lib.Base.{ℕ, Option, none, some, if◌then◌else◌}
use model_lib.Base.Int.{pos}
use model_lib.Errors.{AppError}
use model_lib.Json.{Json, Fields, Runtime, get}
use model_lib.Tables.{ChatSession, ChatRole, StepPayload, AuditPayload}
use model_lib.Session.{
  Session, Result, ok, err, Action, ⊤, pure, gets, commit, rollback, ◌>>=◌, ◌>>◌,
}
use model_lib.Audit.{AuditEvent, record_event}
use model_lib.Wallet.{ConsumeResult, consume}
use model_lib.Policy.Engine.{BillingPlan}
use model_lib.Chat.Repository.{add_step, mark_trial_used, touch_session}
use model_lib.Chat.ToolResult.{ChatRunOut}

-- the model that the usage names
unfoldable pub usage_model : Json → Json
usage_model (Json.obj fs) = get "model" fs
usage_model _ = Json.null

unfoldable pub chat_step_event : (user_id session_id : ℕ) → Json → AuditEvent
unfolding usage_model
chat_step_event user_id session_id usage = record {
  user_id = user_id;
  session_id = some session_id;
  payload = AuditPayload.chat_step session_id ChatRole.assistant (usage_model usage) usage;
}

unfoldable pub debit_meta : Json → Json
unfolding usage_model
debit_meta usage =
    Json.obj (Fields.field "usage" usage (Fields.field "model" (usage_model usage) Fields.end))

-- `_debit`: one credit, under the id of the message step
unfoldable pub debit_turn :
    Runtime → (user_id session_id message_step_id : ℕ) → Json → Action ConsumeResult
unfolding debit_meta
debit_turn py user_id session_id message_step_id usage =
    consume user_id (pos 1) (py.uuid_text message_step_id) (debit_meta usage) (some session_id)

-- `if sess is not None: touch_session`
unfoldable pub touch_if : ℕ → Option ChatSession → Action ⊤
unfolding touch_session
touch_if session_id none = pure tt
touch_if session_id (some session) = touch_session session_id session

-- the end of a turn that is paid
unfoldable pub close_turn :
    (session_id message_step_id step_id : ℕ) → Option ChatSession → Action ChatRunOut
unfolding touch_if
close_turn session_id message_step_id step_id session = do
  touch_if session_id session
  commit
  pure (ChatRunOut.answered message_step_id step_id)

-- `except InsufficientCreditsError`: the step is rolled back, and the turn is blocked
unfoldable pub after_debit :
    Action ChatRunOut → Result ConsumeResult × Session → Result ChatRunOut × Session
after_debit close (ok paid, s) = close s
after_debit close (err AppError.insufficient_credits, s) =
    (rollback >> pure ChatRunOut.no_credits) s
after_debit close (err e, s) = (err e, s)

-- by the billing plan: a credit, the trial, or nothing
unfoldable pub bill_turn :
    Runtime
    → BillingPlan
    → (user_id session_id message_step_id : ℕ) → Json
    → Action ChatRunOut
    → Action ChatRunOut
unfolding debit_turn after_debit mark_trial_used
bill_turn py plan user_id session_id message_step_id usage close s =
    if plan.debit_credits
    then after_debit close (debit_turn py user_id session_id message_step_id usage s)
    else if plan.mark_trial
    then (mark_trial_used user_id >> close) s
    else close s

-- `_finalize_assistant`
unfoldable pub finalize_assistant :
    Runtime
    → BillingPlan
    → (user_id session_id message_step_id : ℕ) → (content usage : Json) → Action ChatRunOut
unfolding add_step chat_step_event close_turn bill_turn
finalize_assistant py plan user_id session_id message_step_id content usage = do
  step_id ←
      add_step session_id message_step_id ChatRole.assistant (StepPayload.content content) usage
  session ← gets (λ db. db.chat_sessions session_id)
  record_event (chat_step_event user_id session_id usage)
  bill_turn py plan user_id session_id message_step_id usage
      (close_turn session_id message_step_id step_id session)
