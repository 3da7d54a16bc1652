-- ===== src/Chat/Repository.antt =====
-- src/app/chat/repository.py: the statements on `chat_sessions`, `chat_steps` and `tool_calls`. A step
-- has the next number of the identity column `seq`, so the list of steps, newest first, is in order
-- of `seq`.
use model_lib.Base.{
  ℕ, suc, ◌+◌, ◌*◌, Bool, true, false, not, ◌&&◌, ◌||◌, Option, none, some, List, [], ◌∷◌, ltb, leb,
  ◌==◌, if◌then◌else◌, put,
}
use model_lib.Base.Text.{Text}
use model_lib.Errors.{AppError}
use model_lib.Json.{Json}
use model_lib.Tables.{ChatSession, ChatRole, StepPayload, ChatStep, ToolCallStatus, ToolCall, Db}
use model_lib.Session.{ok, Action, ⊤, pure, raise_if, gets, clock, modify, ◌>>=◌, ◌>>◌}
use model_lib.Audit.{check_session}

-- `mark_trial_used`
unfoldable pub mark_trial_used : ℕ → Action Bool
mark_trial_used user_id s = elim (s.current.users user_id) [
  | none ↦ (ok false, s)
  | some user ↦
      (if user.trial_used then (ok false, s) else (
        ok true,
        record s {
          current = record s.current {
            users = put s.current.users user_id (record user { trial_used = true });
          };
        },
      ))
]

-- `get_session`: another user's session is as good as none
unfoldable pub get_session : (session_id user_id : ℕ) → Db → Option ChatSession
get_session session_id user_id db = elim (db.chat_sessions session_id) [
  | none ↦ none
  | some row ↦ if row.user_id == user_id then some row else none
]

-- `is_expired`
unfoldable pub is_expired : (ttl_seconds now : ℕ) → ChatSession → Bool
is_expired ttl_seconds now session = ltb (session.updated_at + ttl_seconds * 1000000) now

-- `touch_session`
unfoldable pub touch_session : ℕ → ChatSession → Action ⊤
touch_session session_id session = do
  now ← clock
  modify (λ db. record db {
    chat_sessions = put db.chat_sessions session_id (record session { updated_at = now });
  })

unfoldable pub new_step : (session_id message_step_id : ℕ) → ChatRole → StepPayload → Json → Db → Db
new_step session_id message_step_id role payload usage db = record db {
  chat_steps =
      (record {
        id = db.next_id;
        seq = db.next_seq;
        session_id = session_id;
        message_step_id = message_step_id;
        role = role;
        payload = payload;
        usage = usage;
      })
      ∷ db.chat_steps;
  next_id = suc db.next_id;
  next_seq = suc db.next_seq;
}

-- `add_step`, with the id of the new row
unfoldable pub add_step :
    (session_id message_step_id : ℕ) → ChatRole → StepPayload → Json → Action ℕ
unfolding new_step
add_step session_id message_step_id role payload usage = do
  check_session (some session_id)
  id ← gets (λ db. db.next_id)
  modify (new_step session_id message_step_id role payload usage)
  pure id

unfoldable pub find_call : ℕ → List ToolCall → Option ToolCall
find_call id [] = none
find_call id (call ∷ calls) =
    let rest = find_call id calls in if call.id == id then some call else rest

-- the INSERT of `create_tool_call`; PRIMARY KEY (id)
unfoldable pub create_tool_call :
    (id session_id message_step_id : ℕ) → (tool_name provider_tool_use_id : Text) → Json → Action ⊤
unfolding find_call
create_tool_call id session_id message_step_id tool_name provider_id args = do
  check_session (some session_id)
  existing ← gets (λ db. find_call id db.tool_calls)
  raise_if (elim existing [ none ↦ false | some _ ↦ true ]) AppError.database
  now ← clock
  modify (λ db. record db {
    tool_calls =
        (record {
          id = id;
          session_id = session_id;
          message_step_id = message_step_id;
          tool_name = tool_name;
          provider_tool_use_id = provider_id;
          args = args;
          status = ToolCallStatus.pending;
          result = none;
          created_at = now;
          completed_at = none;
        })
        ∷ db.tool_calls;
  })

abbrev pub in_turn : (session_id message_step_id : ℕ) → ToolCall → Bool
in_turn session_id message_step_id call =
    (call.session_id == session_id) && (call.message_step_id == message_step_id)

-- ORDER BY created_at, id
unfoldable pub insert_call : ToolCall → List ToolCall → List ToolCall
insert_call call [] = call ∷ []
insert_call call (c ∷ calls) =
    let later = c ∷ insert_call call calls in
    if ltb call.created_at c.created_at || ((call.created_at == c.created_at) && leb call.id c.id)
    then call ∷ c ∷ calls
    else later

-- `list_tool_calls_for_step`
unfoldable pub calls_of_turn : (session_id message_step_id : ℕ) → List ToolCall → List ToolCall
unfolding insert_call
calls_of_turn session_id message_step_id [] = []
calls_of_turn session_id message_step_id (call ∷ calls) =
    let rest = calls_of_turn session_id message_step_id calls in
    if in_turn session_id message_step_id call then insert_call call rest else rest

unfoldable pub is_done : ToolCallStatus → Bool
is_done ToolCallStatus.pending = false
is_done ToolCallStatus.completed = true
is_done ToolCallStatus.errored = true

-- the row that the UPDATE of `complete_tool_call` leaves
unfoldable pub finish_call : (now id : ℕ) → ToolCallStatus → Option Json → ToolCall → ToolCall
unfolding is_done
finish_call now id status result call =
    if (call.id == id) && not (is_done call.status)
    then record call { status = status; result = result; completed_at = some now }
    else call

unfoldable pub finish_calls :
    (now id : ℕ) → ToolCallStatus → Option Json → List ToolCall → List ToolCall
unfolding finish_call
finish_calls now id status result [] = []
finish_calls now id status result (call ∷ calls) =
    finish_call now id status result call ∷ finish_calls now id status result calls

-- whether the row is there and pending
unfoldable pub is_pending : ℕ → List ToolCall → Bool
unfolding find_call is_done
is_pending id calls = elim (find_call id calls) [ none ↦ false | some c ↦ not (is_done c.status) ]

-- `complete_tool_call`
unfoldable pub complete_tool_call : ℕ → ToolCallStatus → Option Json → Action Bool
unfolding finish_calls is_pending
complete_tool_call id status result = do
  now ← clock
  transitioned ← gets (λ db. is_pending id db.tool_calls)
  modify (λ db. record db { tool_calls = finish_calls now id status result db.tool_calls })
  pure transitioned

abbrev pub step_in_turn : (session_id message_step_id : ℕ) → ChatStep → Bool
step_in_turn session_id message_step_id step =
    (step.session_id == session_id) && (step.message_step_id == message_step_id)

unfoldable pub is_assistant : ChatRole → Bool
is_assistant ChatRole.assistant = true
is_assistant _ = false

unfoldable pub is_tool : ChatRole → Bool
is_tool ChatRole.tool = true
is_tool _ = false

-- whether the step records the result of the tool call
unfoldable pub records_result : ℕ → StepPayload → Bool
records_result tool_call_id (StepPayload.content blocks) = false
records_result tool_call_id (StepPayload.tool_payload id provider_id name result error) =
    id == tool_call_id

-- `assistant_tool_step_id`
unfoldable pub assistant_tool_step_id : (session_id message_step_id : ℕ) → List ChatStep → Option ℕ
unfolding is_assistant
assistant_tool_step_id session_id message_step_id [] = none
assistant_tool_step_id session_id message_step_id (step ∷ steps) =
    let rest = assistant_tool_step_id session_id message_step_id steps in
    if step_in_turn session_id message_step_id step && is_assistant step.role
    then some step.id
    else rest

-- the smallest `seq` of the tool steps that record the result
unfoldable pub result_seq : (session_id message_step_id tool_call_id : ℕ) → List ChatStep → Option ℕ
unfolding records_result is_tool
result_seq session_id message_step_id tool_call_id [] = none
result_seq session_id message_step_id tool_call_id (step ∷ steps) =
    let rest = result_seq session_id message_step_id tool_call_id steps in
    elim rest [
      | some seq ↦ some seq
      | none ↦
          (if step_in_turn session_id message_step_id step
              && records_result tool_call_id step.payload
            then some step.seq
            else none)
    ]

-- the oldest assistant step of the turn behind an anchor
unfoldable pub first_behind :
    (session_id message_step_id anchor : ℕ) → List ChatStep → Option ChatStep
unfolding is_assistant
first_behind session_id message_step_id anchor [] = none
first_behind session_id message_step_id anchor (step ∷ steps) =
    let rest = first_behind session_id message_step_id anchor steps in
    elim rest [
      | some found ↦ some found
      | none ↦
          (if step_in_turn session_id message_step_id step
              && is_assistant step.role
              && ltb anchor step.seq
            then some step
            else none)
    ]

-- the newest assistant step of the turn
unfoldable pub last_assistant : (session_id message_step_id : ℕ) → List ChatStep → Option ChatStep
unfolding is_assistant
last_assistant session_id message_step_id [] = none
last_assistant session_id message_step_id (step ∷ steps) =
    let rest = last_assistant session_id message_step_id steps in
    if step_in_turn session_id message_step_id step && is_assistant step.role
    then some step
    else rest

-- `next_step_after`
unfoldable pub next_step_after :
    (session_id message_step_id after_tool_call : ℕ) → List ChatStep → Option ChatStep
unfolding result_seq first_behind last_assistant
next_step_after session_id message_step_id after_tool_call steps =
    elim (result_seq session_id message_step_id after_tool_call steps) [
      | some anchor ↦ first_behind session_id message_step_id anchor steps
      | none ↦ last_assistant session_id message_step_id steps
    ]
