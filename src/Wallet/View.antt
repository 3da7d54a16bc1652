-- ===== src/Wallet/View.antt =====
-- `get_wallet_view` of src/app/wallet/service.py: the balance and the latest rows of one user.
use model_lib.Base.{
  ℕ, ◌≤◌, ◌≡◌, inl, inr, some, List, [], ◌∷◌, arith, leb, ◌==◌, if◌then◌else◌, Bool-cases, take,
  All,
}
use model_lib.Tables.{User, LedgerTransaction}
use model_lib.Session.{Session, ok}
use mathlib.Core.List.{Perm}
use mathlib.Core.List.Perm
use model_lib.Wallet.{get_wallet_view, current_balance, insert_desc, user_txs}

-- no row is newer than the one before it
abbrev pub IsNewestFirst : List LedgerTransaction → Type 0
IsNewestFirst [] = Unit
IsNewestFirst (tx ∷ txs) = All (λ u. u.created_at ≤ tx.created_at) txs × IsNewestFirst txs

-- the rows of a user, in the table's order
abbrev pub rows_of : ℕ → List LedgerTransaction → List LedgerTransaction
rows_of u [] = []
rows_of u (tx ∷ txs) = if tx.user_id == u then tx ∷ rows_of u txs else rows_of u txs

All-insert_desc :
    (P : LedgerTransaction → Type 0) (tx : LedgerTransaction) (txs : List LedgerTransaction)
    → P tx
    → All P txs
    → All P (insert_desc tx txs)
unfolding insert_desc
All-insert_desc P tx [] p h = (p, tt)
All-insert_desc P tx (u ∷ us) p h = elim (Bool-cases (leb u.created_at tx.created_at)) [
  | inl e ↦ rw e (p, h)
  | inr e ↦ rw e (h.0, All-insert_desc P tx us p h.1)
]

All-weaken :
    (n m : ℕ) (txs : List LedgerTransaction)
    → n ≤ m
    → All (λ u. u.created_at ≤ n) txs
    → All (λ u. u.created_at ≤ m) txs
All-weaken n m [] le h = tt
All-weaken n m (u ∷ us) le h = (omega arith, All-weaken n m us le h.1)

insert_desc-IsNewestFirst :
    (tx : LedgerTransaction) (txs : List LedgerTransaction)
    → IsNewestFirst txs
    → IsNewestFirst (insert_desc tx txs)
unfolding insert_desc
insert_desc-IsNewestFirst tx [] h = (tt, tt)
insert_desc-IsNewestFirst tx (u ∷ us) h = elim (Bool-cases (leb u.created_at tx.created_at)) [
  | inl e ↦ rw e ((ground arith, All-weaken u.created_at tx.created_at us (ground arith) h.0), h)
  | inr e ↦ rw e (
    All-insert_desc (λ v. v.created_at ≤ u.created_at) tx us (ground arith) h.0,
    insert_desc-IsNewestFirst tx us h.1,
  )
]

user_txs-IsNewestFirst : (u : ℕ) (txs : List LedgerTransaction) → IsNewestFirst (user_txs u txs)
unfolding user_txs
user_txs-IsNewestFirst u [] = tt
user_txs-IsNewestFirst u (tx ∷ txs) = elim (Bool-cases (tx.user_id == u)) [
  | inl e ↦ rw e (insert_desc-IsNewestFirst tx (user_txs u txs) (user_txs-IsNewestFirst u txs))
  | inr e ↦ rw e (user_txs-IsNewestFirst u txs)
]

insert_desc-perm :
    (tx : LedgerTransaction) (txs : List LedgerTransaction) → Perm (insert_desc tx txs) (tx ∷ txs)
unfolding insert_desc
insert_desc-perm tx [] = Perm.refl (tx ∷ [])
insert_desc-perm tx (u ∷ us) = elim (Bool-cases (leb u.created_at tx.created_at)) [
  | inl e ↦ rw e (Perm.refl (tx ∷ u ∷ us))
  | inr e ↦ rw e (Perm.trans (Perm.cons u (insert_desc-perm tx us)) (Perm.swap tx u us))
]

user_txs-perm : (u : ℕ) (txs : List LedgerTransaction) → Perm (user_txs u txs) (rows_of u txs)
unfolding user_txs
user_txs-perm u [] = Perm.refl []
user_txs-perm u (tx ∷ txs) = elim (Bool-cases (tx.user_id == u)) [
  | inl e ↦
      rw e (Perm.trans (insert_desc-perm tx (user_txs u txs)) (Perm.cons tx (user_txs-perm u txs)))
  | inr e ↦ rw e (user_txs-perm u txs)
]

-- The wallet view of an existing user answers with the balance and the first `last_n` rows of a
-- list that has all and only the user's ledger rows, newest first; no balance and no ledger row
-- changes.
get_wallet_view_lem :
    (user_id last_n : ℕ) (s : Session) {row : User}
    → s.current.users user_id ≡ some row
    → let (r, s') = get_wallet_view user_id last_n s in
      let sorted = user_txs user_id s.current.ledger_transactions in
      (r ≡ ok (current_balance user_id s.current, take last_n sorted))
      × IsNewestFirst sorted
      × Perm sorted (rows_of user_id s.current.ledger_transactions)
      × (s'.current.ledger_transactions ≡ s.current.ledger_transactions)
      × ((u : ℕ) → current_balance u s'.current ≡ current_balance u s.current)
unfolding get_wallet_view
get_wallet_view_lem user_id last_n s exists =
    let sorted = user_txs user_id s.current.ledger_transactions in
    (
      ground arith,
      user_txs-IsNewestFirst user_id s.current.ledger_transactions,
      user_txs-perm user_id s.current.ledger_transactions,
      ground arith,
      λ u. ground arith,
    )
