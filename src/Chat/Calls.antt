-- ===== src/Chat/Calls.antt =====
-- The rows of `tool_calls` while src/app/chat/orchestrator.py writes results.
use model_lib.Base.{ℕ, ◌≡◌, refl, Bool, true, Option, none, some, List, [], ◌∷◌, arith}
use model_lib.Json.{Json}
use model_lib.Tables.{ToolCallStatus, ToolCall}
use model_lib.Session.{Session, ok, pure}
use mathlib.Core.Path.{subst}
use model_lib.Session.{Ensures}
use model_lib.Session.Keeps.{Keeps, Keeps-bind, Keeps-pure, Keeps-if}
use model_lib.Audit.{record_event, check_user, check_session}
use model_lib.Chat.Repository.{find_call, is_done, finish_call, finish_calls, complete_tool_call}
use model_lib.Chat.ToolResult.{
  ToolResultIn, status_of_item, stored_result, apply_tool_result, apply_results, record_if,
  record_result,
}

-- a row as the UPDATE leaves it
abbrev pub finished : ℕ → ℕ → ToolCallStatus → Option Json → Option ToolCall → Option ToolCall
finished now id status result none = none
finished now id status result (some call) = some (finish_call now id status result call)

pub find-finish :
    (i now id : ℕ) (status : ToolCallStatus) (result : Option Json) (calls : List ToolCall)
    → find_call i (finish_calls now id status result calls)
      ≡ finished now id status result (find_call i calls)
unfolding find_call finish_calls
find-finish i now id status result [] = refl
find-finish i now id status result (call ∷ calls) =
    grind (arith, find-finish i now id status result calls)

-- a done row stays as it is
finish_done :
    (i now id : ℕ) (status : ToolCallStatus) (result : Option Json) (calls : List ToolCall)
    (c : ToolCall)
    → find_call i calls ≡ some c
    → is_done c.status ≡ true
    → find_call i (finish_calls now id status result calls) ≡ some c
unfolding finish_call
finish_done i now id status result calls c e d =
    grind (arith, find-finish i now id status result calls)

find-id : (i : ℕ) (calls : List ToolCall) (c : ToolCall) → find_call i calls ≡ some c → c.id ≡ i
unfolding find_call
find-id i [] c e = absurd (ground arith)
find-id i (call ∷ calls) c e = grind (arith, find-id i calls c)

pub item_done : (item : ToolResultIn) → is_done (status_of_item item) ≡ true
unfolding is_done
item_done item = ground arith

module _ (user_id session_id : ℕ) where
  pub record_if-Keeps :
      (P : List ToolCall → Type 0) (b : Bool) (call : ToolCall) (item : ToolResultIn)
      → Keeps (λ db. P db.tool_calls) (record_if b user_id session_id call item)
  unfolding record_if record_result record_event check_session check_user
  record_if-Keeps P b call item = record { at = λ s h. ground arith; stays = λ s. ground arith }

  complete-Keeps :
      (P : List ToolCall → Type 0)
      → ((calls : List ToolCall) (now id : ℕ) (status : ToolCallStatus) (result : Option Json)
          → P calls
          → P (finish_calls now id status result calls))
      → (id : ℕ) (status : ToolCallStatus) (result : Option Json)
      → Keeps (λ db. P db.tool_calls) (complete_tool_call id status result)
  unfolding complete_tool_call
  complete-Keeps P k id status result = record {
    at = λ s h. k s.current.tool_calls s.now id status result h;
    stays = λ s. refl;
  }

  pub apply-Keeps :
      (P : List ToolCall → Type 0)
      → ((calls : List ToolCall) (now id : ℕ) (status : ToolCallStatus) (result : Option Json)
          → P calls
          → P (finish_calls now id status result calls))
      → (call : ToolCall) (item : ToolResultIn)
      → Keeps (λ db. P db.tool_calls) (apply_tool_result user_id session_id call item)
  unfolding apply_tool_result
  apply-Keeps P k call item =
      Keeps-bind (complete_tool_call call.id (status_of_item item) (stored_result item))
        (λ b. record_if b user_id session_id call item)
        (complete-Keeps P k call.id (status_of_item item) (stored_result item))
        λ b. record_if-Keeps P b call item

  pub apply_results-Keeps :
      (P : List ToolCall → Type 0)
      → ((calls : List ToolCall) (now id : ℕ) (status : ToolCallStatus) (result : Option Json)
          → P calls
          → P (finish_calls now id status result calls))
      → (found : List (ToolResultIn × ToolCall))
      → Keeps (λ db. P db.tool_calls) (apply_results user_id session_id found)
  unfolding apply_results
  apply_results-Keeps P k [] = Keeps-pure tt
  apply_results-Keeps P k ((item, call) ∷ found) =
      Keeps-bind _ _
        (Keeps-if (is_done call.status) (pure tt) _ (Keeps-pure tt) (apply-Keeps P k call item))
        λ _. apply_results-Keeps P k found

  -- A result that is stored is never written over: a call that is done has the same row after
  -- any batch of results that went through.
  pub apply_results_once :
      (found : List (ToolResultIn × ToolCall)) (s s' : Session) (id : ℕ) (c : ToolCall)
      → find_call id s.current.tool_calls ≡ some c
      → is_done c.status ≡ true
      → apply_results user_id session_id found s ≡ (ok tt, s')
      → find_call id s'.current.tool_calls ≡ some c
  apply_results_once found s s' id c e d h =
      let kept =
        (apply_results-Keeps (λ calls. find_call id calls ≡ some c)
            (λ calls now i status result f. finish_done id now i status result calls c f d)
            found).at
          s e in
      subst (Ensures (λ t. find_call id t.current.tool_calls ≡ some c)) h kept
