-- ===== src/Chat/Charge.antt =====
-- What the final answer of a turn costs (src/app/chat/orchestrator.py).
use model_lib.Base.{
  ℕ, ◌+◌, ◌≡◌, sym, Bool, true, false, ◌&&◌, ◌==◌, Option, none, some, arith, Bool-cases,
  Option-cases, inl, inr, if◌then◌else◌,
}
use model_lib.Base.Int.{pos}
use model_lib.Base.Text.{Text}
use model_lib.Errors.{AppError}
use model_lib.Json.{Json, Runtime}
use model_lib.Tables.{User, ChatRole, StepPayload, ChatSession, TxType, LedgerTransaction, Db}
use model_lib.Session.{Session, Result, ok, err}
use model_lib.Audit.{record_event, check_user, check_session, add_event}
use model_lib.Chat.Repository.{new_step}
use mathlib.Core.Path.{subst}
use model_lib.Wallet.{ConsumeResult, consume, current_balance, existing_tx, same_type}
use model_lib.Wallet.Frame.{is_some}
use model_lib.Policy.Engine.{BillingPlan}
use model_lib.Policy.Loader.{trial_of}
use model_lib.Chat.Billing.{
  bill_turn, chat_step_event, debit_meta, close_turn, after_debit, debit_turn, finalize_assistant,
}
use model_lib.Chat.ToolResult.{ChatRunOut}

abbrev is_own : (user_id : ℕ) → Option ChatSession → Bool
is_own user_id none = false
is_own user_id (some chat) = chat.user_id == user_id

-- a key that is free, or that was used for a debit of one credit
abbrev fits : Option LedgerTransaction → Bool
fits none = true
fits (some tx) = same_type tx.type TxType.debit && (tx.amount == 1)

-- a turn can be billed: its user is there, the chat is the user's, and the key of the debit fits
abbrev pub is_billable : (user_id session_id : ℕ) → Text → Db → Bool
is_billable user_id session_id key db =
    (elim (db.users user_id) [ none ↦ false | some _ ↦ true ])
    && is_own user_id (db.chat_sessions session_id)
    && fits (existing_tx user_id key db)

-- What a debit of one credit leaves, whether it is the first under its key or a repeat. It is blocked
-- for want of the credit alone, and raises for a turn that cannot be billed alone.
abbrev pub Paid : (user_id session_id : ℕ) → Text → Session → Result ChatRunOut × Session → Type 0
Paid user_id session_id key s (err e, s') =
    (is_billable user_id session_id key s.current ≡ false) × (s'.committed ≡ s.committed)
Paid user_id session_id key s (ok ChatRunOut.no_credits, s') =
    (s'.current ≡ s.committed)
    × (s'.committed ≡ s.committed)
    × (current_balance user_id s.current ≡ 0)
    × (is_some (existing_tx user_id key s.current) ≡ false)
Paid user_id session_id key s (ok out, s') =
    (s'.committed ≡ s'.current)
    × (current_balance user_id s.current
        ≡ current_balance user_id s'.current
          + (if is_some (existing_tx user_id key s.current) then 0 else 1))

-- what an answer that costs no credit leaves
abbrev pub Free :
    (user_id : ℕ) → (mark_trial : Bool) → Session → Result ChatRunOut × Session → Type 0
Free user_id mark_trial s (err e, s') = Unit
Free user_id mark_trial s (ok out, s') =
    (s'.committed ≡ s'.current)
    × (current_balance user_id s'.current ≡ current_balance user_id s.current)
    × (s'.current.ledger_transactions ≡ s.current.ledger_transactions)
    × (mark_trial ≡ true → trial_of (s'.current.users user_id) ≡ true)

-- what the debit itself leaves
abbrev Debited : (user_id session_id : ℕ) → Text → Session → Result ConsumeResult × Session → Type 0
Debited user_id session_id key s (err AppError.insufficient_credits, s') =
    (s'.committed ≡ s.committed)
    × (current_balance user_id s.current ≡ 0)
    × (is_some (existing_tx user_id key s.current) ≡ false)
Debited user_id session_id key s (err e, s') =
    (is_billable user_id session_id key s.current ≡ false) × (s'.committed ≡ s.committed)
Debited user_id session_id key s (ok paid, s') =
    current_balance user_id s.current
    ≡ current_balance user_id s'.current
      + (if is_some (existing_tx user_id key s.current) then 0 else 1)

module _ (user_id session_id : ℕ) (key : Text) (meta : Json) (s : Session) (chat : ChatSession)
    (c : s.current.chat_sessions session_id ≡ some chat)
    (o : (chat.user_id == user_id) ≡ true) where
  debit_stranger :
      s.current.users user_id ≡ none
      → Debited user_id session_id key s (consume user_id (pos 1) key meta (some session_id) s)
  unfolding consume record_event check_user check_session
  debit_stranger u = elim (Option-cases (s.current.wallets user_id)) [
    | inl w ↦ ground arith
    | inr (wallet, w) ↦ elim (Option-cases (existing_tx user_id key s.current)) [
      | inl t ↦ ground arith
      | inr (tx, t) ↦ ground arith
    ]
  ]

  debit_fresh :
      (user : User)
      → s.current.users user_id ≡ some user
      → existing_tx user_id key s.current ≡ none
      → Debited user_id session_id key s (consume user_id (pos 1) key meta (some session_id) s)
  unfolding consume record_event check_user check_session
  debit_fresh user u t = elim (Option-cases (s.current.wallets user_id)) [
    | inl w ↦ ground arith
    | inr (wallet, w) ↦ ground arith
  ]

  debit_again :
      (user : User) (tx : LedgerTransaction)
      → s.current.users user_id ≡ some user
      → existing_tx user_id key s.current ≡ some tx
      → Debited user_id session_id key s (consume user_id (pos 1) key meta (some session_id) s)
  unfolding consume record_event check_user check_session
  debit_again user tx u t = elim (Option-cases (s.current.wallets user_id)) [
    | inl w ↦ ground arith
    | inr (wallet, w) ↦ ground arith
  ]

  debit_own :
      Debited user_id session_id key s (consume user_id (pos 1) key meta (some session_id) s)
  debit_own = elim (Option-cases (s.current.users user_id)) [
    | inl u ↦ debit_stranger u
    | inr (user, u) ↦ elim (Option-cases (existing_tx user_id key s.current)) [
      | inl t ↦ debit_fresh user u t
      | inr (tx, t) ↦ debit_again user tx u t
    ]
  ]

debit_lem :
    (user_id session_id : ℕ) (key : Text) (meta : Json) (s : Session)
    → Debited user_id session_id key s (consume user_id (pos 1) key meta (some session_id) s)
unfolding consume
debit_lem user_id session_id key meta s = elim (Option-cases (s.current.chat_sessions session_id)) [
  | inl c ↦ ground arith
  | inr (chat, c) ↦ elim (Bool-cases (chat.user_id == user_id)) [
    | inr o ↦ ground arith
    | inl o ↦ debit_own user_id session_id key meta s chat c o
  ]
]

close_lem :
    (user_id session_id message_step_id step_id : ℕ) (key : Text) (chat : Option ChatSession)
    (s s' : Session) (x : Result ConsumeResult)
    → Debited user_id session_id key s (x, s')
    → Paid user_id session_id key s
        (after_debit (close_turn session_id message_step_id step_id chat) (x, s'))
unfolding after_debit close_turn
close_lem user_id session_id message_step_id step_id key chat s s' x h = ground arith

bill_lem :
    (py : Runtime) (plan : BillingPlan) (user_id session_id message_step_id step_id : ℕ)
    (usage : Json) (chat : Option ChatSession) (s : Session)
    → plan.debit_credits ≡ true
    → Paid user_id session_id (py.uuid_text message_step_id) s (
        bill_turn py plan user_id session_id message_step_id usage
          (close_turn session_id message_step_id step_id chat)
          s)
unfolding bill_turn debit_turn
bill_lem py plan user_id session_id message_step_id step_id usage chat s h =
    let key = py.uuid_text message_step_id in
    rw h (
      close_lem user_id session_id message_step_id step_id key chat s _ _
        (debit_lem user_id session_id key (debit_meta usage) s))

module _ (py : Runtime) (user_id session_id message_step_id : ℕ) (content usage : Json)
    (s : Session) where
  -- the session with the step and its audit row
  abbrev billed : Session
  billed = record s {
    current = add_event (chat_step_event user_id session_id usage) (
        new_step session_id message_step_id ChatRole.assistant (StepPayload.content content) usage
          s.current);
  }

  goes_on :
      (chat : ChatSession) (user : User) (plan : BillingPlan)
      → s.current.chat_sessions session_id ≡ some chat
      → s.current.users user_id ≡ some user
      → finalize_assistant py plan user_id session_id message_step_id content usage s
        ≡ bill_turn py plan user_id session_id message_step_id usage
            (close_turn session_id message_step_id s.current.next_id (some chat))
            billed
  unfolding finalize_assistant record_event check_user check_session add_event new_step
  goes_on chat user plan c u = ground arith

  -- An answer that its plan debits commits everything and takes one credit the first time that
  -- the message step is billed, and none when it is billed again. A turn that can be billed is
  -- blocked exactly where no billing of the step is there and the balance is 0, none is blocked
  -- otherwise, and then what is open is again what was committed. It raises only where the turn
  -- cannot be billed, because the user is not there, the chat is not the user's or the key was
  -- used for something else, and commits nothing then.
  pub finalize-Paid :
      (plan : BillingPlan)
      → plan.debit_credits ≡ true
      → Paid user_id session_id
          (py.uuid_text message_step_id)
          s
          (finalize_assistant py plan user_id session_id message_step_id content usage s)
  unfolding finalize_assistant record_event check_user check_session new_step add_event
  finalize-Paid plan h = elim (Option-cases (s.current.chat_sessions session_id)) [
    | inl c ↦ ground arith
    | inr (chat, c) ↦ elim (Option-cases (s.current.users user_id)) [
      | inl u ↦ ground arith
      | inr (user, u) ↦
          subst (Paid user_id session_id (py.uuid_text message_step_id) s)
            (sym (goes_on chat user plan c u))
            (bill_lem py plan user_id session_id message_step_id s.current.next_id usage (some chat)
              billed h)
    ]
  ]

  -- An answer that its plan does not debit commits everything, leaves the user's balance and
  -- every ledger row, and uses up the trial where the plan says so.
  pub finalize-Free :
      (plan : BillingPlan)
      → plan.debit_credits ≡ false
      → Free user_id plan.mark_trial s
          (finalize_assistant py plan user_id session_id message_step_id content usage s)
  unfolding finalize_assistant record_event trial_of check_user check_session
  finalize-Free plan h = ground arith
