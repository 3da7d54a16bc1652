-- ===== src/Wallet/Account.antt =====
-- What a wallet promises, as one account for each user: a balance and the keys that were used. The
-- services' `consume` and `grant` (src/app/wallet/service.py) implement it.
use model_lib.Base.{
  ℕ, ◌+◌, ◌-◌, ◌≤◌, ◌<◌, ◌≡◌, ◌≢◌, true, false, Option, none, some, arith, ltb, leb, ◌==◌,
  if◌then◌else◌,
}
use model_lib.Base.Int.{ℤ, pos}
use model_lib.Base.Text.{Text, text_eq}
use model_lib.Errors.{AppError}
use model_lib.Json.{Json}
use model_lib.Tables.{TxType, User, LedgerTransaction, Db}
use model_lib.Session.{Session, Result, ok, err, session_scope}
use model_lib.Wallet.{
  GrantResult, consume, grant, existing_tx, current_balance, bigint_max, validate_session,
}

-- what is kept of a key that was used
pub record Entry : Type 0 where
  pub type : TxType
  pub amount : ℕ
  pub id : ℕ

pub record Account : Type 0 where
  pub balance : ℕ
  pub used : Text → Option Entry

pub data Verdict : Type 0 where
  posted : ℕ → Verdict
  replayed : ℕ → Verdict
  refused : AppError → Verdict

abbrev pub entry_of : LedgerTransaction → Entry
entry_of tx = record { type = tx.type; amount = tx.amount; id = tx.id }

abbrev pub map_entry : Option LedgerTransaction → Option Entry
map_entry none = none
map_entry (some tx) = some (entry_of tx)

-- the account of a user in the database
abbrev pub account : ℕ → Db → Account
account u db = record { balance = current_balance u db; used = λ k. map_entry (existing_tx u k db) }

abbrev pub compare_entry : Entry → TxType → ℕ → Verdict
compare_entry e type amount = elim e.type [
  | TxType.debit ↦ elim type [
    | TxType.debit ↦ if e.amount == amount then replayed e.id else refused AppError.conflict
    | TxType.credit ↦ refused AppError.conflict
  ]
  | TxType.credit ↦ elim type [
    | TxType.debit ↦ refused AppError.conflict
    | TxType.credit ↦ if e.amount == amount then replayed e.id else refused AppError.conflict
  ]
]

-- A key is used once: the same payload again is a replay, another payload a conflict. A fresh
-- debit needs the balance, a fresh credit has to fit in a BIGINT.
abbrev pub judge_fresh : TxType → ℕ → Account → Verdict
judge_fresh TxType.debit amount acc =
    if leb amount acc.balance
    then posted (acc.balance - amount)
    else refused AppError.insufficient_credits
judge_fresh TxType.credit amount acc =
    if ltb bigint_max (acc.balance + amount)
    then refused AppError.database
    else posted (acc.balance + amount)

abbrev pub judge : TxType → ℕ → Text → Account → Verdict
judge type amount key acc = elim (acc.used key) [
  | some e ↦ compare_entry e type amount
  | none ↦ judge_fresh type amount acc
]

-- the call's result, from the account before it and the id that a new row gets
abbrev pub answer : Verdict → Account → ℕ → Result GrantResult
answer (posted balance) acc id =
    ok (record { new_balance = balance; ledger_tx_id = id; idempotent_replay = false })
answer (replayed old) acc id =
    ok (record { new_balance = acc.balance; ledger_tx_id = old; idempotent_replay = true })
answer (refused e) acc id = err e

-- the balance after the call
abbrev pub balance_after : Verdict → Account → ℕ
balance_after (posted balance) acc = balance
balance_after (replayed old) acc = acc.balance
balance_after (refused e) acc = acc.balance

-- what is under key `k` after a call with `key`
abbrev pub used_after : Verdict → Account → TxType → ℕ → Text → ℕ → Text → Option Entry
used_after (posted balance) acc type amount key id k =
    if text_eq key k then some (record { type = type; amount = amount; id = id }) else acc.used k
used_after (replayed old) acc type amount key id k = acc.used k
used_after (refused e) acc type amount key id k = acc.used k

-- One call as a request of its own: it starts on what is committed, commits on success and rolls
-- back on an error.
module _ (user_id amount : ℕ) (key : Text) (meta : Json) (s : Session) {row : User}
    (exists : s.current.users user_id ≡ some row) (positive : 0 < amount)
    (fits : amount ≤ bigint_max) (start : s.committed ≡ s.current) where
  -- For an existing user, an amount from 1 to the largest BIGINT and nothing uncommitted, a
  -- grant request is answered as the specification judges the user's account, and the committed
  -- account afterwards has the balance and, at every key, the entry that the specification
  -- gives: fresh, replayed, conflicting or out of range.
  pub grant-account :
      (reason : Text) (k : Text)
      → let (r, s') = session_scope (grant user_id (pos amount) key meta reason) s in
        let acc = account user_id s.committed in
        let acc' = account user_id s'.committed in
        let v = judge TxType.credit amount key acc in
        (r ≡ answer v acc s.committed.next_id)
        × (acc'.balance ≡ balance_after v acc)
        × (acc'.used k ≡ used_after v acc TxType.credit amount key s.committed.next_id k)
  unfolding grant session_scope
  grant-account reason k = ground arith

  -- For an existing user, an amount from 1 to the largest BIGINT, nothing uncommitted and a chat
  -- session that is absent or the user's own, a debit request is answered as the specification
  -- judges the user's account, and the committed account afterwards has the balance and, at
  -- every key, the entry that the specification gives: fresh, replayed, conflicting or short of
  -- credits.
  pub consume-account :
      (session_id : Option ℕ) (k : Text)
      → (validate_session user_id session_id s).0 ≡ ok tt
      → let (r, s') = session_scope (consume user_id (pos amount) key meta session_id) s in
        let acc = account user_id s.committed in
        let acc' = account user_id s'.committed in
        let v = judge TxType.debit amount key acc in
        (r ≡ answer v acc s.committed.next_id)
        × (acc'.balance ≡ balance_after v acc)
        × (acc'.used k ≡ used_after v acc TxType.debit amount key s.committed.next_id k)
  unfolding consume session_scope
  consume-account session_id k h = ground arith

-- Another user's account is out of reach of a request, whatever its arguments and its outcome.
pub grant-account_ne :
    (user_id u : ℕ) (amount : ℤ) (key k : Text) (meta : Json) (reason : Text) (s : Session)
    → s.committed ≡ s.current
    → u ≢ user_id
    → let (r, s') = session_scope (grant user_id amount key meta reason) s in
      let acc = account u s.committed in
      let acc' = account u s'.committed in (acc'.balance ≡ acc.balance) × (acc'.used k ≡ acc.used k)
unfolding grant session_scope
grant-account_ne user_id u amount key k meta reason s start ne = ground arith

-- Another user's account is out of reach of a debit request that starts with nothing
-- uncommitted, whatever its arguments and its outcome.
consume-account_ne :
    (user_id u : ℕ) (amount : ℤ) (key k : Text) (meta : Json) (session_id : Option ℕ) (s : Session)
    → s.committed ≡ s.current
    → u ≢ user_id
    → let (r, s') = session_scope (consume user_id amount key meta session_id) s in
      let acc = account u s.committed in
      let acc' = account u s'.committed in (acc'.balance ≡ acc.balance) × (acc'.used k ≡ acc.used k)
unfolding consume session_scope
consume-account_ne user_id u amount key k meta session_id s start ne = ground arith
