-- ===== src/Wallet/Statements.antt =====
-- The SQL statements of src/app/wallet/service.py, on the tables `wallets` and
-- `ledger_transactions` of src/app/models/tables.py, with their constraints.
use model_lib.Base.{
  ℕ, suc, ◌+◌, ◌-◌, ◌^◌, Bool, true, false, ◌&&◌, Option, none, some, List, [], ◌∷◌, ltb, leb, ◌==◌,
  if◌then◌else◌, put, take,
}
use model_lib.Base.Text.{Text, text_eq}
use model_lib.Errors.{AppError}
use model_lib.Json.{Json}
use model_lib.Tables.{TxType, LedgerTransaction, Wallet, Db}
use model_lib.Session.{ok, err, Session, Action, ⊤}

-- the largest BIGINT
abbrev pub bigint_max : ℕ
bigint_max = 2 ^ 63 - 1

unfoldable pub find_tx : ℕ → Text → List LedgerTransaction → Option LedgerTransaction
find_tx user_id key [] = none
find_tx user_id key (tx ∷ txs) =
    if (tx.user_id == user_id) && text_eq tx.idempotency_key key
    then some tx
    else find_tx user_id key txs

-- `_existing_tx`
abbrev pub existing_tx : ℕ → Text → Db → Option LedgerTransaction
existing_tx user_id key db = find_tx user_id key db.ledger_transactions

unfoldable pub balance_of : Option Wallet → ℕ
balance_of none = 0
balance_of (some w) = w.balance

-- `_current_balance`
abbrev pub current_balance : ℕ → Db → ℕ
current_balance user_id db = balance_of (db.wallets user_id)

-- `_ensure_wallet`: INSERT INTO wallets … ON CONFLICT (user_id) DO NOTHING
unfoldable pub ensure_wallet : ℕ → Action ⊤
ensure_wallet user_id s = elim (s.current.wallets user_id) [
  | some _ ↦ (ok tt, s)
  | none ↦ elim (s.current.users user_id) [
    | none ↦ (err AppError.database, s)
    | some _ ↦ (
      ok tt,
      record s {
        current = record s.current {
          wallets = put s.current.wallets user_id (record { balance = 0; updated_at = s.now });
        };
      },
    )
  ]
]

abbrev pub add_tx : LedgerTransaction → Session → Session
add_tx tx s = record s {
  current = record s.current {
    ledger_transactions = tx ∷ s.current.ledger_transactions;
    next_id = suc s.current.next_id;
  };
}

-- INSERT INTO ledger_transactions … ON CONFLICT (user_id, idempotency_key) DO NOTHING RETURNING id.
-- An amount that is no BIGINT fails before the statement runs, a user that is not there by the
-- foreign key.
unfoldable pub insert_tx : ℕ → TxType → ℕ → Json → Text → Action (Option ℕ)
insert_tx user_id type amount meta key s =
    if ltb bigint_max amount
    then (err AppError.database, s)
    else elim (existing_tx user_id key s.current) [
      | some _ ↦ (ok none, s)
      | none ↦ elim (s.current.users user_id) [
        | none ↦ (err AppError.database, s)
        | some _ ↦ (
          ok (some s.current.next_id),
          add_tx
              (record {
                id = s.current.next_id;
                user_id = user_id;
                type = type;
                amount = amount;
                meta = meta;
                idempotency_key = key;
                created_at = s.now;
              })
              s,
        )
      ]
    ]

abbrev pub set_balance : ℕ → ℕ → Session → Session
set_balance user_id balance s = record s {
  current = record s.current {
    wallets = put s.current.wallets user_id (record { balance = balance; updated_at = s.now });
  };
}

-- UPDATE wallets SET balance = balance - :amount … WHERE user_id = :uid AND balance >= :amount
unfoldable pub debit_wallet : ℕ → ℕ → Action (Option ℕ)
debit_wallet user_id amount s = elim (s.current.wallets user_id) [
  | none ↦ (ok none, s)
  | some w ↦
      if leb amount w.balance
      then (ok (some (w.balance - amount)), set_balance user_id (w.balance - amount) s)
      else (ok none, s)
]

-- UPDATE wallets SET balance = balance + :amount … WHERE user_id = :uid; out of range is an error
unfoldable pub credit_wallet : ℕ → ℕ → Action (Option ℕ)
credit_wallet user_id amount s = elim (s.current.wallets user_id) [
  | none ↦ (ok none, s)
  | some w ↦
      if ltb bigint_max (w.balance + amount)
      then (err AppError.database, s)
      else (ok (some (w.balance + amount)), set_balance user_id (w.balance + amount) s)
]

unfoldable pub same_type : TxType → TxType → Bool
same_type TxType.debit TxType.debit = true
same_type TxType.credit TxType.credit = true
same_type _ _ = false

-- newest first: ORDER BY created_at DESC
unfoldable pub insert_desc : LedgerTransaction → List LedgerTransaction → List LedgerTransaction
insert_desc tx [] = tx ∷ []
insert_desc tx (u ∷ us) =
    if leb u.created_at tx.created_at then tx ∷ u ∷ us else u ∷ insert_desc tx us

unfoldable pub user_txs : ℕ → List LedgerTransaction → List LedgerTransaction
unfolding insert_desc
user_txs user_id [] = []
user_txs user_id (tx ∷ txs) =
    let rest = user_txs user_id txs in if tx.user_id == user_id then insert_desc tx rest else rest

-- SELECT … WHERE user_id = :uid ORDER BY created_at DESC LIMIT :last_n
unfoldable pub latest_txs : ℕ → ℕ → Db → List LedgerTransaction
unfolding user_txs
latest_txs user_id last_n db = take last_n (user_txs user_id db.ledger_transactions)
