-- ===== src/Wallet/Integrity.antt =====
-- The integrity of `wallets` and `ledger_transactions` (src/app/models/tables.py): what every
-- committed request of src/app/wallet/service.py keeps, also when it fails half-way.
use model_lib.Base.{ℕ, suc, ◌≤◌, ◌<◌, ◌≡◌, Option, none, List, [], ◌∷◌, arith, All}
use model_lib.Base.Int.{ℤ}
use model_lib.Base.Text.{Text}
use model_lib.Json.{Json}
use model_lib.Tables.{LedgerTransaction, Db}
use model_lib.Session.{Session, Result, ok, err}
use model_lib.Session.{Ensures}
use model_lib.Wallet.{consume, grant, current_balance, bigint_max, find_tx}
use model_lib.Wallet.Balance.{IsBalanced, consume-IsBalanced, grant-IsBalanced}

-- UNIQUE (user_id, idempotency_key)
abbrev pub IsUnique : List LedgerTransaction → Type 0
IsUnique [] = Unit
IsUnique (tx ∷ txs) = (find_tx tx.user_id tx.idempotency_key txs ≡ none) × IsUnique txs

abbrev pub InRange : ℕ → LedgerTransaction → Type 0
InRange next tx = (0 < tx.amount) × (tx.amount ≤ bigint_max) × (tx.id < next)

pub record IsSound (db : Db) : Type 0 where
  -- the balance is the credits less the debits
  pub balanced : (u : ℕ) → IsBalanced u db
  -- and a BIGINT
  pub bounded : (u : ℕ) → current_balance u db ≤ bigint_max
  pub unique : IsUnique db.ledger_transactions
  -- every amount is positive and a BIGINT, every id was given out
  pub in_range : All (InRange db.next_id) db.ledger_transactions
  -- a wallet belongs to a user
  pub owned : (u : ℕ) → db.users u ≡ none → db.wallets u ≡ none

pub All-InRange-suc :
    (n : ℕ) (txs : List LedgerTransaction) → All (InRange n) txs → All (InRange (suc n)) txs
All-InRange-suc n [] h = tt
All-InRange-suc n (tx ∷ txs) h = ((h.0.0, h.0.1, omega arith), All-InRange-suc n txs h.1)

module _ (user_id : ℕ) (amount : ℤ) (key : Text) (meta : Json) (session_id : Option ℕ)
    (s : Session) where
  consume-bounded :
      (u : ℕ)
      → current_balance u s.current ≤ bigint_max
      → Ensures
          (λ s'. current_balance u s'.current ≤ bigint_max)
          (consume user_id amount key meta session_id s)
  unfolding consume
  consume-bounded u h = ground arith

  consume-IsUnique :
      IsUnique s.current.ledger_transactions
      → Ensures
          (λ s'. IsUnique s'.current.ledger_transactions)
          (consume user_id amount key meta session_id s)
  unfolding consume
  consume-IsUnique h = ground arith

  consume-InRange :
      All (InRange s.current.next_id) s.current.ledger_transactions
      → Ensures
          (λ s'. All (InRange s'.current.next_id) s'.current.ledger_transactions)
          (consume user_id amount key meta session_id s)
  unfolding consume
  consume-InRange h =
      ground (arith, All-InRange-suc s.current.next_id s.current.ledger_transactions h)

  consume-owned :
      (u : ℕ)
      → (s.current.users u ≡ none → s.current.wallets u ≡ none)
      → Ensures
          (λ s'. s'.current.users u ≡ none → s'.current.wallets u ≡ none)
          (consume user_id amount key meta session_id s)
  unfolding consume
  consume-owned u h = ground arith

  pub committed-consume : (consume user_id amount key meta session_id s).1.committed ≡ s.committed
  unfolding consume
  committed-consume = ground arith

module _ (user_id : ℕ) (amount : ℤ) (key : Text) (meta : Json) (reason : Text) (s : Session) where
  grant-bounded :
      (u : ℕ)
      → current_balance u s.current ≤ bigint_max
      → Ensures
          (λ s'. current_balance u s'.current ≤ bigint_max)
          (grant user_id amount key meta reason s)
  unfolding grant
  grant-bounded u h = ground arith

  grant-IsUnique :
      IsUnique s.current.ledger_transactions
      → Ensures
          (λ s'. IsUnique s'.current.ledger_transactions)
          (grant user_id amount key meta reason s)
  unfolding grant
  grant-IsUnique h = ground arith

  grant-InRange :
      All (InRange s.current.next_id) s.current.ledger_transactions
      → Ensures
          (λ s'. All (InRange s'.current.next_id) s'.current.ledger_transactions)
          (grant user_id amount key meta reason s)
  unfolding grant
  grant-InRange h =
      ground (arith, All-InRange-suc s.current.next_id s.current.ledger_transactions h)

  grant-owned :
      (u : ℕ)
      → (s.current.users u ≡ none → s.current.wallets u ≡ none)
      → Ensures
          (λ s'. s'.current.users u ≡ none → s'.current.wallets u ≡ none)
          (grant user_id amount key meta reason s)
  unfolding grant
  grant-owned u h = ground arith

  pub committed-grant : (grant user_id amount key meta reason s).1.committed ≡ s.committed
  unfolding grant
  committed-grant = ground arith

gather :
    {A : Type 0} (x : Result A × Session)
    → ((u : ℕ) → Ensures (λ s. IsBalanced u s.current) x)
    → ((u : ℕ) → Ensures (λ s. current_balance u s.current ≤ bigint_max) x)
    → Ensures (λ s. IsUnique s.current.ledger_transactions) x
    → Ensures (λ s. All (InRange s.current.next_id) s.current.ledger_transactions) x
    → ((u : ℕ) → Ensures (λ s. s.current.users u ≡ none → s.current.wallets u ≡ none) x)
    → Ensures (λ s. IsSound s.current) x
gather (ok a, s) balanced bounded unique in_range owned = record {
  balanced = balanced;
  bounded = bounded;
  unique = unique;
  in_range = in_range;
  owned = owned;
}
gather (err e, s) _ _ _ _ _ = tt

-- A debit that does not raise keeps the tables sound.
pub consume-IsSound :
    (user_id : ℕ) (amount : ℤ) (key : Text) (meta : Json) (session_id : Option ℕ) (s : Session)
    → IsSound s.current
    → Ensures (λ s'. IsSound s'.current) (consume user_id amount key meta session_id s)
consume-IsSound user_id amount key meta session_id s h =
    gather (consume user_id amount key meta session_id s)
      (λ u. consume-IsBalanced u user_id amount key meta session_id s (h.balanced u))
      (λ u. consume-bounded user_id amount key meta session_id s u (h.bounded u))
      (consume-IsUnique user_id amount key meta session_id s h.unique)
      (consume-InRange user_id amount key meta session_id s h.in_range)
      (λ u. consume-owned user_id amount key meta session_id s u (h.owned u))

-- So does a grant.
pub grant-IsSound :
    (user_id : ℕ) (amount : ℤ) (key : Text) (meta : Json) (reason : Text) (s : Session)
    → IsSound s.current
    → Ensures (λ s'. IsSound s'.current) (grant user_id amount key meta reason s)
grant-IsSound user_id amount key meta reason s h =
    gather (grant user_id amount key meta reason s)
      (λ u. grant-IsBalanced u user_id amount key meta reason s (h.balanced u))
      (λ u. grant-bounded user_id amount key meta reason s u (h.bounded u))
      (grant-IsUnique user_id amount key meta reason s h.unique)
      (grant-InRange user_id amount key meta reason s h.in_range)
      (λ u. grant-owned user_id amount key meta reason s u (h.owned u))
