-- ===== src/Chat/Sessions.antt =====
-- `get_or_create_session` and `truncate_from_message_step` of src/app/chat/repository.py, and what
-- src/app/chat/orchestrator.py asks of them beforehand (`_will_create_session`).
use model_lib.Base.{
  ℕ, suc, ◌+◌, Bool, true, false, ◌&&◌, ◌||◌, Option, none, some, List, [], ◌∷◌, ltb, leb, ◌==◌,
  if◌then◌else◌, put,
}
use model_lib.Base.Text.{Text}
use model_lib.Tables.{ChatSession, ChatRole, ChatStep, ToolCall, Db}
use model_lib.Session.{ok, Action, pure, gets, clock, modify, ◌>>=◌, ◌>>◌}
use model_lib.Audit.{check_user}
use model_lib.Chat.Repository.{get_session, is_expired, step_in_turn}

-- what a new chat is made of
pub record NewSession : Type 0 where
  pub project_id : Option Text
  pub mode : Text
  pub assistant_mode : Text
  pub dialog_mode : Text
  pub title : Option Text
  pub model : Option Text
  pub workspace_project_id : Option ℕ

pub record SessionContext : Type 0 where
  pub id : ℕ
  pub session : ChatSession
  pub is_new : Bool

abbrev pub session_row : (user_id now : ℕ) → NewSession → ChatSession
session_row user_id now fields = record {
  user_id = user_id;
  project_id = fields.project_id;
  workspace_project_id = fields.workspace_project_id;
  mode = fields.mode;
  model = fields.model;
  title = fields.title;
  assistant_mode = fields.assistant_mode;
  dialog_mode = fields.dialog_mode;
  is_pinned = false;
  updated_at = now;
}

-- the INSERT into chat_sessions
unfoldable pub create_session : (user_id : ℕ) → NewSession → Action SessionContext
unfolding check_user
create_session user_id fields = do
  check_user user_id
  now ← clock
  id ← gets (λ db. db.next_id)
  modify (λ db. record db {
    chat_sessions = put db.chat_sessions id (session_row user_id now fields);
    next_id = suc db.next_id;
  })
  pure (record { id = id; session = session_row user_id now fields; is_new = true })

-- the chat that is resumed: the user's own, and not expired
unfoldable pub resumed : (ttl_seconds user_id now : ℕ) → Option ℕ → Db → Option (ℕ × ChatSession)
unfolding get_session is_expired
resumed ttl_seconds user_id now none db = none
resumed ttl_seconds user_id now (some session_id) db = elim (get_session session_id user_id db) [
  | none ↦ none
  | some session ↦ if is_expired ttl_seconds now session then none else some (session_id, session)
]

-- `get_or_create_session`
unfoldable pub get_or_create_session :
    (ttl_seconds user_id : ℕ) → Option ℕ → NewSession → Action SessionContext
unfolding resumed create_session
get_or_create_session ttl_seconds user_id session_id fields s =
    elim (resumed ttl_seconds user_id s.now session_id s.current) [
      | none ↦ create_session user_id fields s
      | some (id, session) ↦ (ok (record { id = id; session = session; is_new = false }), s)
    ]

-- `_will_create_session`
unfoldable pub will_create_session : (ttl_seconds user_id now : ℕ) → Option ℕ → Db → Bool
unfolding get_session is_expired
will_create_session ttl_seconds user_id now none db = true
will_create_session ttl_seconds user_id now (some session_id) db =
    elim (get_session session_id user_id db) [
      | none ↦ true
      | some session ↦ is_expired ttl_seconds now session
    ]

unfoldable pub is_user : ChatRole → Bool
is_user ChatRole.user = true
is_user _ = false

abbrev pub smaller : Option ℕ → ℕ → ℕ
smaller none n = n
smaller (some m) n = if ltb m n then m else n

-- SELECT min(seq) of the user's steps of the turn
unfoldable pub anchor_seq : (session_id message_step_id : ℕ) → List ChatStep → Option ℕ
unfolding is_user
anchor_seq session_id message_step_id [] = none
anchor_seq session_id message_step_id (step ∷ steps) =
    let rest = anchor_seq session_id message_step_id steps in
    if step_in_turn session_id message_step_id step && is_user step.role
    then some (smaller rest step.seq)
    else rest

-- a step that goes
abbrev pub is_behind : (session_id anchor : ℕ) → ChatStep → Bool
is_behind session_id anchor step = (step.session_id == session_id) && leb anchor step.seq

-- whether a step that goes is of the turn
unfoldable pub turn_goes : (session_id anchor message_step_id : ℕ) → List ChatStep → Bool
turn_goes session_id anchor message_step_id [] = false
turn_goes session_id anchor message_step_id (step ∷ steps) =
    (is_behind session_id anchor step && (step.message_step_id == message_step_id))
    || turn_goes session_id anchor message_step_id steps

-- DELETE FROM tool_calls
unfoldable pub keep_calls : (session_id anchor : ℕ) → List ChatStep → List ToolCall → List ToolCall
unfolding turn_goes
keep_calls session_id anchor steps [] = []
keep_calls session_id anchor steps (call ∷ calls) =
    let rest = keep_calls session_id anchor steps calls in
    if (call.session_id == session_id) && turn_goes session_id anchor call.message_step_id steps
    then rest
    else call ∷ rest

-- DELETE FROM chat_steps
unfoldable pub keep_steps : (session_id anchor : ℕ) → List ChatStep → List ChatStep
keep_steps session_id anchor [] = []
keep_steps session_id anchor (step ∷ steps) =
    let rest = keep_steps session_id anchor steps in
    if is_behind session_id anchor step then rest else step ∷ rest

-- RETURNING id
unfoldable pub count_behind : (session_id anchor : ℕ) → List ChatStep → ℕ
count_behind session_id anchor [] = 0
count_behind session_id anchor (step ∷ steps) =
    (if is_behind session_id anchor step then 1 else 0) + count_behind session_id anchor steps

unfoldable pub truncate_at : (session_id anchor : ℕ) → Action (Option ℕ)
unfolding keep_calls keep_steps count_behind
truncate_at session_id anchor = do
  deleted ← gets (λ db. count_behind session_id anchor db.chat_steps)
  modify (λ db. record db {
    tool_calls = keep_calls session_id anchor db.chat_steps db.tool_calls;
    chat_steps = keep_steps session_id anchor db.chat_steps;
  })
  pure (some deleted)

-- `truncate_from_message_step`
unfoldable pub truncate_from_message_step : (session_id message_step_id : ℕ) → Action (Option ℕ)
unfolding anchor_seq truncate_at
truncate_from_message_step session_id message_step_id s =
    elim (anchor_seq session_id message_step_id s.current.chat_steps) [
      | none ↦ (ok none, s)
      | some anchor ↦ truncate_at session_id anchor s
    ]
