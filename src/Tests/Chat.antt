-- ===== src/Tests/Chat.antt =====
-- A turn of a chat whose tool call is answered, and what its final answer costs.
use model_lib.Base.{◌≡◌, refl, sym, ap, true, false, none, some, List, [], ◌∷◌}
use model_lib.Base.Text.{codes, text_eq, text_mem}
use model_lib.Errors.{AppError}
use model_lib.Tables.{ToolCallStatus, ToolCall, Db}
use model_lib.Session.{Session, err, Action}
use model_lib.Policy.Engine.{BillingPlan}
use model_lib.Chat.Repository.{calls_of_turn, find_call, is_done}
use model_lib.Chat.ToolResult.{
  ToolResultIn, ChatRunOut, resolve, apply_results, all_done, tool_result, awaited,
}
use model_lib.Chat.Calls.{apply_results_once}
use model_lib.Chat.Barrier.{apply_batch_all_done, tool_result_barrier}
use model_lib.Chat.Billing.{finalize_assistant}
use model_lib.Chat.Charge.{Paid, Free, finalize-Paid, finalize-Free}
use model_lib.Audit.{check_session, record_event}
use model_lib.Tests.Data.{small_db, key_1, first_python, no_meta}

-- a pending call of a tool of the client's, and one that is done
abbrev pending_call : ToolCall
pending_call = record {
  id = 5;
  session_id = 7;
  message_step_id = 9;
  tool_name = codes "photos.pick";
  provider_tool_use_id = key_1;
  args = no_meta;
  status = ToolCallStatus.pending;
  result = none;
  created_at = 1;
  completed_at = none;
}

abbrev done_call : ToolCall
done_call = record pending_call { id = 6; status = ToolCallStatus.completed; completed_at = some 2 }

-- another call of the turn, which no result of the batch answers
abbrev other_call : ToolCall
other_call = record pending_call { id = 8 }

abbrev chat_db : Db
chat_db = record small_db { tool_calls = pending_call ∷ done_call ∷ other_call ∷ [] }

abbrev chat : Session
chat = record { committed = chat_db; current = chat_db; now = 100000000000000 }

abbrev item : ToolResultIn
item = record { tool_call_id = 5; result = some no_meta; error = none }

abbrev found : List (ToolResultIn × ToolCall)
found = (item, pending_call) ∷ []

abbrev applied : Session
applied = (apply_results 1 7 found chat).1

apply_results_once_example : find_call 6 applied.current.tool_calls ≡ some done_call
unfolding find_call is_done apply_results check_session text_mem text_eq record_event
apply_results_once_example = apply_results_once 1 7 found chat applied 6 done_call refl refl refl

apply_batch_all_done_example : all_done applied.current.tool_calls found ≡ true
unfolding resolve apply_results check_session text_mem text_eq record_event
apply_batch_all_done_example = apply_batch_all_done 1 7 (item ∷ []) found chat applied refl refl

abbrev stop : Action ChatRunOut
stop s = (err AppError.service_unavailable, s)

-- the other continuation differs where a result is awaited
abbrev fail_if : List ToolCall → Action ChatRunOut
fail_if [] s = stop s
fail_if (call ∷ pending) s = (err AppError.not_found, s)

abbrev fail_early : Action ChatRunOut
fail_early s = fail_if (awaited (calls_of_turn 7 9 s.current.tool_calls)) s

tool_result_barrier_example :
    tool_result 1 7 (item ∷ []) stop chat ≡ tool_result 1 7 (item ∷ []) fail_early chat
unfolding resolve text_mem text_eq
tool_result_barrier_example =
    tool_result_barrier 1 7 (item ∷ []) stop fail_early chat item pending_call [] refl
      λ t e. ap (λ pending. fail_if pending t) (sym e)

abbrev paid_plan : BillingPlan
paid_plan = record { debit_credits = true; mark_trial = false }

abbrev trial_plan : BillingPlan
trial_plan = record { debit_credits = false; mark_trial = true }

finalize-Paid_example :
    Paid 1 7
      (first_python.uuid_text 9)
      chat
      (finalize_assistant first_python paid_plan 1 7 9 no_meta no_meta chat)
finalize-Paid_example = finalize-Paid first_python 1 7 9 no_meta no_meta chat paid_plan refl

finalize-Free_example :
    Free 1 trial_plan.mark_trial chat
      (finalize_assistant first_python trial_plan 1 7 9 no_meta no_meta chat)
finalize-Free_example = finalize-Free first_python 1 7 9 no_meta no_meta chat trial_plan refl
