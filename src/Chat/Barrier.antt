-- ===== src/Chat/Barrier.antt =====
-- When the turn goes on after `tool_result` of src/app/chat/orchestrator.py.
use model_lib.Base.{
  ℕ, ◌≡◌, refl, sym, inl, inr, Bool, true, false, ◌&&◌, Option, none, some, List, [], ◌∷◌, arith,
  if◌then◌else◌, Option-cases,
}
use model_lib.Json.{Json}
use model_lib.Tables.{ToolCallStatus, ToolCall}
use model_lib.Session.{Session, Result, ok, err, Action, ⊤, pure}
use mathlib.Core.Path.{subst}
use model_lib.Session.{Ensures}
use model_lib.Session.Keeps.{continue}
use model_lib.Chat.Repository.{
  find_call, calls_of_turn, is_done, finish_call, finish_calls, complete_tool_call,
}
use model_lib.Chat.ToolResult.{
  ToolResultIn, ChatRunOut, status_of_item, stored_result, apply_tool_result, apply_results,
  done_at, all_done, awaited, after_barrier, apply_batch, go_on, resolve, tool_result,
}
use model_lib.Chat.Calls.{find-finish, item_done, record_if-Keeps, apply-Keeps, apply_results-Keeps}

known_at : ℕ → List ToolCall → Bool
known_at id calls = elim (find_call id calls) [ none ↦ false | some _ ↦ true ]

known-finish :
    (i : ℕ) (calls : List ToolCall) (now id : ℕ) (status : ToolCallStatus) (result : Option Json)
    → known_at i calls ≡ true
    → known_at i (finish_calls now id status result calls) ≡ true
unfolding known_at
known-finish i calls now id status result h =
    grind (arith, find-finish i now id status result calls)

done-finish :
    (i : ℕ) (calls : List ToolCall) (now id : ℕ) (status : ToolCallStatus) (result : Option Json)
    → done_at i calls ≡ true
    → done_at i (finish_calls now id status result calls) ≡ true
unfolding done_at finish_call
done-finish i calls now id status result h = grind (arith, find-finish i now id status result calls)

find-id : (i : ℕ) (calls : List ToolCall) (c : ToolCall) → find_call i calls ≡ some c → c.id ≡ i
unfolding find_call
find-id i [] c e = absurd (ground arith)
find-id i (call ∷ calls) c e = grind (arith, find-id i calls c)

finish-done :
    (i : ℕ) (calls : List ToolCall) (now : ℕ) (status : ToolCallStatus) (result : Option Json)
    → is_done status ≡ true
    → known_at i calls ≡ true
    → done_at i (finish_calls now i status result calls) ≡ true
unfolding known_at done_at finish_call
finish-done i calls now status result d h = elim (Option-cases (find_call i calls)) [
  | inl e ↦ absurd (ground arith)
  | inr (c, e) ↦ grind (arith, find-finish i now i status result calls, find-id i calls c e)
]

-- what is known of a resolved call: its row is there, and done if it was done when it was read
abbrev IsKnown : ToolResultIn × ToolCall → List ToolCall → Type 0
IsKnown (item, call) calls =
    (known_at call.id calls ≡ true) × (is_done call.status ≡ true → done_at call.id calls ≡ true)

abbrev AllKnown : List (ToolResultIn × ToolCall) → List ToolCall → Type 0
AllKnown [] calls = Unit
AllKnown (e ∷ found) calls = IsKnown e calls × AllKnown found calls

AllKnown-finish :
    (found : List (ToolResultIn × ToolCall)) (calls : List ToolCall) (now id : ℕ)
    (status : ToolCallStatus) (result : Option Json)
    → AllKnown found calls
    → AllKnown found (finish_calls now id status result calls)
AllKnown-finish [] calls now id status result h = tt
AllKnown-finish ((item, call) ∷ found) calls now id status result ((k, d), h) = (
  (
    known-finish call.id calls now id status result k,
    λ e. done-finish call.id calls now id status result (d e),
  ),
  AllKnown-finish found calls now id status result h,
)

continue-Ensures :
    (Q R : Session → Type 0) (x : Result ⊤ × Session) (f : ⊤ → Action ⊤)
    → Ensures Q x
    → ((s : Session) → Q s → Ensures R (f tt s))
    → Ensures R (continue x f)
unfolding continue
continue-Ensures Q R (ok a, s) f h k = k s h
continue-Ensures Q R (err e, s) f h k = tt

both :
    (Q R : Session → Type 0) (x : Result ⊤ × Session)
    → Ensures Q x
    → Ensures R x
    → Ensures (λ s. Q s × R s) x
both Q R (ok a, s) h k = (h, k)
both Q R (err e, s) h k = tt

module _ (user_id session_id : ℕ) where
  apply_done :
      (call : ToolCall) (item : ToolResultIn) (s : Session)
      → known_at call.id s.current.tool_calls ≡ true
      → Ensures
          (λ s'. done_at call.id s'.current.tool_calls ≡ true)
          (apply_tool_result user_id session_id call item s)
  unfolding apply_tool_result complete_tool_call
  apply_done call item s k =
      (record_if-Keeps user_id session_id (λ calls. done_at call.id calls ≡ true) _ call item).at _
        (finish-done call.id s.current.tool_calls s.now (status_of_item item) (stored_result item)
          (item_done item) k)

  -- one round of the loop
  abbrev round : ToolResultIn → ToolCall → Action ⊤
  round item call =
      if is_done call.status then pure tt else apply_tool_result user_id session_id call item

  round_done :
      (b : Bool) (call : ToolCall) (item : ToolResultIn) (s : Session)
      → known_at call.id s.current.tool_calls ≡ true
      → (b ≡ true → done_at call.id s.current.tool_calls ≡ true)
      → Ensures
          (λ s'. done_at call.id s'.current.tool_calls ≡ true)
          ((if b then pure tt else apply_tool_result user_id session_id call item) s)
  round_done true call item s k d = d refl
  round_done false call item s k d = apply_done call item s k

  round-AllKnown :
      (b : Bool) (call : ToolCall) (item : ToolResultIn) (found : List (ToolResultIn × ToolCall))
      (s : Session)
      → AllKnown found s.current.tool_calls
      → Ensures
          (λ s'. AllKnown found s'.current.tool_calls)
          ((if b then pure tt else apply_tool_result user_id session_id call item) s)
  round-AllKnown true call item found s h = h
  round-AllKnown false call item found s h =
      (apply-Keeps user_id session_id (AllKnown found) (AllKnown-finish found) call item).at s h

  apply_results-AllDone :
      (found : List (ToolResultIn × ToolCall)) (s : Session)
      → AllKnown found s.current.tool_calls
      → Ensures
          (λ s'. all_done s'.current.tool_calls found ≡ true)
          (apply_results user_id session_id found s)
  unfolding apply_results all_done continue
  apply_results-AllDone [] s h = refl
  apply_results-AllDone ((item, call) ∷ found) s ((k, d), h) =
      continue-Ensures (λ t. IsDoneAt t × AllKnown found t.current.tool_calls) _ (round item call s)
        (λ _. apply_results user_id session_id found)
        (both IsDoneAt (λ t. AllKnown found t.current.tool_calls) (round item call s)
          (round_done (is_done call.status) call item s k d)
          (round-AllKnown (is_done call.status) call item found s h))
        λ t (e, g).
          both_tests (apply_results user_id session_id found t)
            ((apply_results-Keeps user_id session_id (λ calls. done_at call.id calls ≡ true)
                (done-finish call.id) found).at
              t e)
            (apply_results-AllDone found t g)
    where
      IsDoneAt : Session → Type 0
      IsDoneAt t = done_at call.id t.current.tool_calls ≡ true

      both_tests :
          (x : Result ⊤ × Session)
          → Ensures (λ t. done_at call.id t.current.tool_calls ≡ true) x
          → Ensures (λ t. all_done t.current.tool_calls found ≡ true) x
          → Ensures
              (λ t.
                (done_at call.id t.current.tool_calls && all_done t.current.tool_calls found)
                ≡ true)
              x
      both_tests (ok a, t) e g = ground arith
      both_tests (err x, t) e g = tt

is_known_lem :
    (calls : List ToolCall) (item : ToolResultIn) (call : ToolCall)
    → find_call item.tool_call_id calls ≡ some call
    → IsKnown (item, call) calls
unfolding known_at done_at
is_known_lem calls item call e =
    let same : call.id ≡ item.tool_call_id = find-id item.tool_call_id calls call e in
    let own : find_call call.id calls ≡ some call =
      subst (λ i. find_call i calls ≡ some call) (sym same) e in
    (ground arith, λ d. ground arith)

abbrev FoundKnown : List ToolCall → Result (List (ToolResultIn × ToolCall)) → Type 0
FoundKnown calls (ok found) = AllKnown found calls
FoundKnown calls (err e) = Unit

-- every resolved call is known
resolve-FoundKnown :
    (session_id : ℕ) (calls : List ToolCall) (turn : Option ℕ) (items : List ToolResultIn)
    → FoundKnown calls (resolve session_id calls turn items)
unfolding resolve
resolve-FoundKnown session_id calls turn [] = tt
resolve-FoundKnown session_id calls turn (item ∷ items) =
    elim (Option-cases (find_call item.tool_call_id calls)) [
      | inl e ↦ ground arith
      | inr (call, e) ↦ ground (
        arith,
        resolve-FoundKnown session_id calls (some call.message_step_id) items,
        is_known_lem calls item call e,
      )
    ]

-- Once the results of a batch were written, every tool call that it names is done: what the code
-- asks before it answers a stored continuation again is true of every batch, also of one with a
-- result that was still awaited when the request came in.
pub apply_batch_all_done :
    (user_id session_id : ℕ) (items : List ToolResultIn) (found : List (ToolResultIn × ToolCall))
    (s s' : Session)
    → resolve session_id s.current.tool_calls none items ≡ ok found
    → apply_results user_id session_id found s ≡ (ok tt, s')
    → all_done s'.current.tool_calls found ≡ true
apply_batch_all_done user_id session_id items found s s' r h =
    subst (Ensures (λ t. all_done t.current.tool_calls found ≡ true)) h (
      apply_results-AllDone user_id session_id found s (
        subst (FoundKnown s.current.tool_calls) r
          (resolve-FoundKnown session_id s.current.tool_calls none items)))

module _ (user_id session_id : ℕ) (k₁ k₂ : Action ChatRunOut) where
  after_barrier_same :
      (message_step_id anchor : ℕ) (found : List (ToolResultIn × ToolCall))
      (pending : List ToolCall) (t : Session)
      → (pending ≡ [] → k₁ t ≡ k₂ t)
      → after_barrier session_id message_step_id anchor found k₁ pending t
        ≡ after_barrier session_id message_step_id anchor found k₂ pending t
  unfolding after_barrier go_on
  after_barrier_same m anchor found [] t k = let e = k refl in ground arith
  after_barrier_same m anchor found (c ∷ pending) t k = refl

  -- the rest of the batch, from what writing the results left
  batch_same :
      (message_step_id anchor : ℕ) (found : List (ToolResultIn × ToolCall)) (x : Result ⊤ × Session)
      → ((t : Session)
          → awaited (calls_of_turn session_id message_step_id t.current.tool_calls) ≡ []
          → k₁ t ≡ k₂ t)
      → let rest : Action ChatRunOut → ⊤ → Action ChatRunOut = λ k _ t.
        after_barrier session_id message_step_id anchor found k
          (awaited (calls_of_turn session_id message_step_id t.current.tool_calls))
          t in
        continue x (rest k₁) ≡ continue x (rest k₂)
  unfolding continue
  batch_same m anchor found (ok a, t) k = after_barrier_same m anchor found _ t (k t)
  batch_same m anchor found (err e, t) k = refl

  apply_batch_same :
      (item : ToolResultIn) (call : ToolCall) (found : List (ToolResultIn × ToolCall)) (s : Session)
      → ((t : Session)
          → awaited (calls_of_turn session_id call.message_step_id t.current.tool_calls) ≡ []
          → k₁ t ≡ k₂ t)
      → apply_batch user_id session_id ((item, call) ∷ found) k₁ s
        ≡ apply_batch user_id session_id ((item, call) ∷ found) k₂ s
  unfolding apply_batch continue
  apply_batch_same item call found s k =
      batch_same call.message_step_id call.id ((item, call) ∷ found)
        (apply_results user_id session_id ((item, call) ∷ found) s) k

-- Two continuations that agree on the sessions in which the client owes the turn no result
-- answer a batch of results alike: the turn goes on only when nothing of it is awaited.
pub tool_result_barrier :
    (user_id session_id : ℕ) (items : List ToolResultIn) (k₁ k₂ : Action ChatRunOut) (s : Session)
    (item : ToolResultIn) (call : ToolCall) (found : List (ToolResultIn × ToolCall))
    → resolve session_id s.current.tool_calls none items ≡ ok ((item, call) ∷ found)
    → ((t : Session)
        → awaited (calls_of_turn session_id call.message_step_id t.current.tool_calls) ≡ []
        → k₁ t ≡ k₂ t)
    → tool_result user_id session_id items k₁ s ≡ tool_result user_id session_id items k₂ s
unfolding tool_result
tool_result_barrier user_id session_id items k₁ k₂ s item call found r k =
    ground (arith, apply_batch_same user_id session_id k₁ k₂ item call found s k)
