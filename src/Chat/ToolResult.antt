-- ===== src/Chat/ToolResult.antt =====
-- `ChatOrchestrator.tool_result` of src/app/chat/orchestrator.py, up to the continuation: the results
-- are written, and the turn goes on when the client owes no more of them. What the continuation does
-- (policy, key, model) is an argument.
use model_lib.Base.{
  ℕ, Bool, true, false, not, ◌&&◌, Option, none, some, List, [], ◌∷◌, map, ◌==◌, if◌then◌else◌,
}
use model_lib.Base.Text.{Text, codes, text_mem}
use model_lib.Errors.{AppError}
use model_lib.Json.{Json}
use model_lib.Tables.{ChatRole, StepPayload, ChatStep, ToolCallStatus, ToolCall, AuditPayload}
use model_lib.Session.{Result, ok, err, Action, ⊤, pure, raise, gets, commit, ◌>>=◌, ◌>>◌}
use model_lib.Audit.{AuditEvent, record_event}
use model_lib.Chat.Repository.{
  get_session, find_call, calls_of_turn, is_done, complete_tool_call, add_step, next_step_after,
  assistant_tool_step_id,
}

pub record ToolResultIn : Type 0 where
  pub tool_call_id : ℕ
  pub result : Option Json
  pub error : Option Json

pub record ToolCallOut : Type 0 where
  pub id : ℕ
  pub name : Text
  pub args : Json

pub data ChatRunOut : Type 0 where
  -- status `tool_call`, with what is still awaited and the step that asked for it
  awaiting : (message_step_id : ℕ) → List ToolCallOut → Option ℕ → ChatRunOut
  -- the stored step of a replay, as `_render_saved_step` answers it
  saved_step : (message_step_id : ℕ) → ChatStep → ChatRunOut
  answered : (message_step_id : ℕ) → (step_id : ℕ) → ChatRunOut
  -- status `blocked` with `credits_empty`
  no_credits : ChatRunOut

-- `SERVER_SIDE_TOOLS` and `GLOBAL_SERVER_SIDE_TOOLS`
unfoldable pub server_side_tools : List Text
server_side_tools =
    codes "site.write_file"
    ∷ codes "site.preview"
    ∷ codes "site.list"
    ∷ codes "site.read"
    ∷ codes "site.delete"
    ∷ codes "time.now"
    ∷ codes "quiz.generate"
    ∷ codes "image.generate"
    ∷ []

-- `MUTATING_TOOLS`
unfoldable pub mutating_tools : List Text
mutating_tools = codes "site.write_file" ∷ codes "site.delete" ∷ codes "image.generate" ∷ []

-- the message step that all results so far belong to
abbrev pub Turn : Type 0
Turn = Option ℕ

abbrev pub other_turn : Turn → ℕ → Bool
other_turn none message_step_id = false
other_turn (some m) message_step_id = not (message_step_id == m)

-- the loop that looks every tool call up
unfoldable pub resolve :
    (session_id : ℕ)
    → List ToolCall
    → Turn
    → List ToolResultIn
    → Result (List (ToolResultIn × ToolCall))
unfolding find_call
resolve session_id calls turn [] = ok []
resolve session_id calls turn (item ∷ items) = elim (find_call item.tool_call_id calls) [
  | none ↦ err AppError.not_found
  | some call ↦
      let rest = resolve session_id calls (some call.message_step_id) items in
      if not (call.session_id == session_id)
      then err AppError.not_found
      else if other_turn turn call.message_step_id
      then err AppError.validation_error
      else elim rest [ ok found ↦ ok ((item, call) ∷ found) | err e ↦ err e ]
]

abbrev pub status_of_item : ToolResultIn → ToolCallStatus
status_of_item item = elim item.error [
  | some _ ↦ ToolCallStatus.errored
  | none ↦ ToolCallStatus.completed
]

-- `result if result is not None else error`
abbrev pub stored_result : ToolResultIn → Option Json
stored_result item = elim item.result [ some r ↦ some r | none ↦ item.error ]

unfoldable pub call_event : ℕ → ℕ → AuditPayload → AuditEvent
call_event user_id session_id payload = record {
  user_id = user_id;
  session_id = some session_id;
  payload = payload;
}

-- the tool step and the audit rows of a call that this request completed
unfoldable pub record_result : (user_id session_id : ℕ) → ToolCall → ToolResultIn → Action ⊤
unfolding add_step call_event mutating_tools
record_result user_id session_id call item = do
  add_step session_id call.message_step_id ChatRole.tool
      (StepPayload.tool_payload call.id call.provider_tool_use_id call.tool_name item.result
        item.error)
      Json.null
  (if text_mem call.tool_name mutating_tools
      then record_event (
          call_event user_id session_id
            (AuditPayload.tool_mutation call.id call.tool_name (status_of_item item)))
      else pure tt)
  record_event (
      call_event user_id session_id
        (AuditPayload.tool_call_completed call.id call.tool_name (status_of_item item)))

-- a call that another request completed meanwhile is left alone
unfoldable pub record_if : Bool → (user_id session_id : ℕ) → ToolCall → ToolResultIn → Action ⊤
unfolding record_result
record_if true user_id session_id call item = record_result user_id session_id call item
record_if false user_id session_id call item = pure tt

-- `_apply_tool_result`
unfoldable pub apply_tool_result : (user_id session_id : ℕ) → ToolCall → ToolResultIn → Action ⊤
unfolding complete_tool_call record_if
apply_tool_result user_id session_id call item = do
  transitioned ← complete_tool_call call.id (status_of_item item) (stored_result item)
  record_if transitioned user_id session_id call item

-- the loop over the resolved results; what was done on entry is skipped
unfoldable pub apply_results : (user_id session_id : ℕ) → List (ToolResultIn × ToolCall) → Action ⊤
unfolding apply_tool_result is_done
apply_results user_id session_id [] = pure tt
apply_results user_id session_id ((item, call) ∷ found) =
    (if is_done call.status then pure tt else apply_tool_result user_id session_id call item)
    >> apply_results user_id session_id found

-- the client's calls among those of the turn that are not done
unfoldable pub awaited : List ToolCall → List ToolCall
unfolding server_side_tools is_done
awaited [] = []
awaited (call ∷ calls) =
    let rest = awaited calls in
    if not (text_mem call.tool_name server_side_tools) && not (is_done call.status)
    then call ∷ rest
    else rest

-- whether the row is there and done
unfoldable pub done_at : ℕ → List ToolCall → Bool
unfolding find_call is_done
done_at id calls = elim (find_call id calls) [ none ↦ false | some c ↦ is_done c.status ]

-- `_all_already_done_before`: the rows of the turn were read again after the results were written,
-- and the objects that it looks at are those of the session, so their status is the one just read
unfoldable pub all_done : List ToolCall → List (ToolResultIn × ToolCall) → Bool
unfolding done_at
all_done calls [] = true
all_done calls ((item, call) ∷ found) = done_at call.id calls && all_done calls found

abbrev pub call_out : ToolCall → ToolCallOut
call_out call = record { id = call.id; name = call.tool_name; args = call.args }

-- the barrier is open: the answer names what is awaited
unfoldable pub still_awaiting : (session_id message_step_id : ℕ) → List ToolCall → Action ChatRunOut
unfolding assistant_tool_step_id
still_awaiting session_id message_step_id pending = do
  commit
  step_id ← gets (λ db. assistant_tool_step_id session_id message_step_id db.chat_steps)
  pure (ChatRunOut.awaiting message_step_id (map call_out pending) step_id)

-- the barrier is closed: a stored continuation is answered again, else the turn goes on
unfoldable pub go_on :
    (session_id message_step_id anchor : ℕ)
    → List (ToolResultIn × ToolCall)
    → Action ChatRunOut
    → Action ChatRunOut
unfolding next_step_after all_done
go_on session_id message_step_id anchor found continue s =
    elim (next_step_after session_id message_step_id anchor s.current.chat_steps) [
      | none ↦ continue s
      | some step ↦
          if all_done s.current.tool_calls found
          then (ok (ChatRunOut.saved_step message_step_id step), s)
          else continue s
    ]

unfoldable pub after_barrier :
    (session_id message_step_id anchor : ℕ)
    → List (ToolResultIn × ToolCall)
    → Action ChatRunOut
    → List ToolCall
    → Action ChatRunOut
unfolding still_awaiting go_on
after_barrier session_id message_step_id anchor found continue [] =
    go_on session_id message_step_id anchor found continue
after_barrier session_id message_step_id anchor found continue (call ∷ calls) =
    still_awaiting session_id message_step_id (call ∷ calls)

-- the batch, once every tool call is resolved
unfoldable pub apply_batch :
    (user_id session_id : ℕ)
    → List (ToolResultIn × ToolCall)
    → Action ChatRunOut
    → Action ChatRunOut
unfolding apply_results awaited after_barrier calls_of_turn
apply_batch user_id session_id [] continue = raise AppError.validation_error
apply_batch user_id session_id ((item, call) ∷ found) continue = do
  apply_results user_id session_id ((item, call) ∷ found)
  pending ← gets (λ db. awaited (calls_of_turn session_id call.message_step_id db.tool_calls))
  after_barrier session_id call.message_step_id call.id ((item, call) ∷ found) continue pending

-- `tool_result`
unfoldable pub tool_result :
    (user_id session_id : ℕ) → List ToolResultIn → Action ChatRunOut → Action ChatRunOut
unfolding resolve apply_batch get_session
tool_result user_id session_id items continue s = elim (get_session session_id user_id s.current) [
  | none ↦ (err AppError.not_found, s)
  | some _ ↦ elim (resolve session_id s.current.tool_calls none items) [
    | err e ↦ (err e, s)
    | ok found ↦ apply_batch user_id session_id found continue s
  ]
]
