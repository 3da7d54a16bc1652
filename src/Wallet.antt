-- ===== src/Wallet.antt =====
-- src/app/wallet/service.py: atomic, idempotent debits and credits over one ledger. A statement of
-- SQL is one action; `none` is an empty RETURNING.
mod Statements
pub mod Balance
pub mod Idempotency
pub mod Account
pub mod Integrity
pub mod Frame
pub mod View
unfoldable pub use Statements.*
use model_lib.Base.{ℕ, Bool, true, false, Option, none, some, List, if◌then◌else◌, ◌==◌, ◌||◌, not}
use model_lib.Base.Int.{ℤ, pos, pos_part, leb_ℤ}
use model_lib.Base.Text.{Text}
use model_lib.Errors.{AppError}
use model_lib.Json.{Json, get, as_dict}
use model_lib.Tables.{TxType, LedgerTransaction, AuditPayload}
use model_lib.Session.{ok, err, Action, ⊤, pure, raise_if, gets, ◌>>=◌, ◌>>◌}
use model_lib.Audit.{record_event}

-- `ConsumeResult` and `GrantResult`, which have the same fields
pub record GrantResult : Type 0 where
  pub new_balance : ℕ
  pub ledger_tx_id : ℕ
  pub idempotent_replay : Bool

abbrev pub ConsumeResult : Type 0
ConsumeResult = GrantResult

-- `_validate_session`
unfoldable pub validate_session : ℕ → Option ℕ → Action ⊤
validate_session user_id none s = (ok tt, s)
validate_session user_id (some session_id) s = elim (s.current.chat_sessions session_id) [
  | none ↦ (err AppError.session_not_found, s)
  | some row ↦ (if row.user_id == user_id then ok tt else err AppError.forbidden, s)
]

abbrev or_raise : {A : Type 0} → Option A → AppError → Action A
or_raise none e s = (err e, s)
or_raise (some a) e s = (ok a, s)

-- the key was used before: the payload has to match
unfoldable pub replay_result : Option LedgerTransaction → TxType → ℕ → ℕ → Action GrantResult
replay_result none type amount balance s = (err AppError.conflict, s)
replay_result (some tx) type amount balance s = (
  if not (same_type tx.type type) || not (tx.amount == amount)
      then err AppError.conflict
      else ok (record { new_balance = balance; ledger_tx_id = tx.id; idempotent_replay = true }),
  s,
)

unfoldable pub replay : ℕ → Text → TxType → ℕ → Action GrantResult
unfolding replay_result same_type balance_of find_tx
replay user_id key type amount = do
  existing ← gets (existing_tx user_id key)
  balance ← gets (current_balance user_id)
  replay_result existing type amount balance

-- `if inserted_id is None: …`
abbrev dispatch : {A : Type 0} → Option ℕ → Action A → (ℕ → Action A) → Action A
dispatch none old fresh = old
dispatch (some id) old fresh = fresh id

abbrev get_or : Option ℕ → ℕ → ℕ
get_or none d = d
get_or (some n) d = n

-- the rest of `consume` after a new ledger row `id`
unfoldable pub debit_new : ℕ → ℕ → Json → Option ℕ → ℕ → Action ConsumeResult
unfolding debit_wallet record_event
debit_new user_id amount meta session_id id = do
  updated ← debit_wallet user_id amount
  new_balance ← or_raise updated AppError.insufficient_credits
  record_event (record {
    user_id = user_id;
    session_id = session_id;
    payload =
        AuditPayload.billing_debit id amount new_balance session_id (get "model" (as_dict meta));
  })
  pure (record { new_balance = new_balance; ledger_tx_id = id; idempotent_replay = false })

unfoldable pub consume : ℕ → ℤ → Text → Json → Option ℕ → Action ConsumeResult
unfolding replay debit_new validate_session ensure_wallet insert_tx
consume user_id amount key meta session_id = do
  raise_if (leb_ℤ amount (pos 0)) AppError.conflict
  validate_session user_id session_id
  ensure_wallet user_id
  inserted ← insert_tx user_id TxType.debit (pos_part amount) meta key
  dispatch inserted (replay user_id key TxType.debit (pos_part amount))
      (debit_new user_id (pos_part amount) meta session_id)

-- the rest of `grant` after a new ledger row `id`
unfoldable pub credit_new : ℕ → ℕ → Text → ℕ → Action GrantResult
unfolding credit_wallet record_event
credit_new user_id amount reason id = do
  updated ← credit_wallet user_id amount
  record_event (record {
    user_id = user_id;
    session_id = none;
    payload = AuditPayload.billing_credit id amount (get_or updated amount) reason;
  })
  pure
      (record { new_balance = get_or updated amount; ledger_tx_id = id; idempotent_replay = false })

unfoldable pub grant : ℕ → ℤ → Text → Json → Text → Action GrantResult
unfolding replay credit_new ensure_wallet insert_tx
grant user_id amount key meta reason = do
  raise_if (leb_ℤ amount (pos 0)) AppError.conflict
  ensure_wallet user_id
  inserted ← insert_tx user_id TxType.credit (pos_part amount) meta key
  dispatch inserted (replay user_id key TxType.credit (pos_part amount))
      (credit_new user_id (pos_part amount) reason)

unfoldable pub get_wallet_view : ℕ → ℕ → Action (ℕ × List LedgerTransaction)
unfolding ensure_wallet balance_of latest_txs
get_wallet_view user_id last_n = do
  ensure_wallet user_id
  balance ← gets (current_balance user_id)
  txs ← gets (latest_txs user_id last_n)
  pure (balance, txs)
