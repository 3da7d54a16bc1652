-- ===== src/Wallet/Balance.antt =====
-- Conservation: the balance of every wallet is what its ledger says.
use model_lib.Base.{ℕ, ◌+◌, ◌≡◌, Option, List, [], ◌∷◌, arith, ◌==◌, if◌then◌else◌}
use model_lib.Base.Int.{ℤ}
use model_lib.Base.Text.{Text}
use model_lib.Json.{Json}
use model_lib.Tables.{TxType, LedgerTransaction, Db}
use model_lib.Session.{Ensures, Session}
use model_lib.Wallet.{consume, grant, current_balance}

abbrev pub signed : TxType → TxType → ℕ → ℕ
signed TxType.debit TxType.debit n = n
signed TxType.credit TxType.credit n = n
signed _ _ n = 0

-- what the rows of one type add up to for a user
abbrev pub total : TxType → ℕ → List LedgerTransaction → ℕ
total type u [] = 0
total type u (tx ∷ txs) =
    (if tx.user_id == u then signed type tx.type tx.amount else 0) + total type u txs

abbrev pub IsBalanced : ℕ → Db → Type 0
IsBalanced u db =
    current_balance u db + total TxType.debit u db.ledger_transactions
    ≡ total TxType.credit u db.ledger_transactions

pub consume-IsBalanced :
    (u user_id : ℕ) (amount : ℤ) (key : Text) (meta : Json) (session_id : Option ℕ) (s : Session)
    → IsBalanced u s.current
    → Ensures (λ s'. IsBalanced u s'.current) (consume user_id amount key meta session_id s)
unfolding consume
consume-IsBalanced u user_id amount key meta session_id s h = ground arith

pub grant-IsBalanced :
    (u user_id : ℕ) (amount : ℤ) (key : Text) (meta : Json) (reason : Text) (s : Session)
    → IsBalanced u s.current
    → Ensures (λ s'. IsBalanced u s'.current) (grant user_id amount key meta reason s)
unfolding grant
grant-IsBalanced u user_id amount key meta reason s h = ground arith
