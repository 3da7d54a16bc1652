-- ===== src/Tests/Wallets.antt =====
-- Debits, credits and the wallet's view, of src/app/wallet/service.py and src/app/admin/service.py.
use model_lib.Base.{◌≡◌, refl, false, some, [], ◌∷◌, arith}
use model_lib.Base.Int.{pos}
use model_lib.Tables.{TxType}
use model_lib.Session.{Session, session_scope}
use model_lib.Wallet.{GrantResult, grant, consume, validate_session}
use model_lib.Wallet.Account.{
  account, judge, answer, balance_after, used_after, grant-account, consume-account,
}
use model_lib.Tests.Data.{request, key_1, no_meta}

-- the committed database after a credit of five
abbrev credited : Session
credited = (session_scope (grant 1 (pos 5) key_1 no_meta key_1) request).1

credited-start : credited.committed ≡ credited.current
unfolding session_scope grant
credited-start = ground arith

grant-account_example :
    let (r, s') = session_scope (grant 1 (pos 5) key_1 no_meta key_1) request in
    let acc = account 1 request.committed in
    let acc' = account 1 s'.committed in
    let v = judge TxType.credit 5 key_1 acc in
    (r ≡ answer v acc request.committed.next_id)
    × (acc'.balance ≡ balance_after v acc)
    × (acc'.used key_1 ≡ used_after v acc TxType.credit 5 key_1 request.committed.next_id key_1)
grant-account_example =
    grant-account 1 5 key_1 no_meta request refl (omega arith) (omega arith) refl key_1 key_1

consume-account_example :
    let (r, s') = session_scope (consume 1 (pos 3) (99 ∷ []) no_meta (some 7)) credited in
    let acc = account 1 credited.committed in
    let acc' = account 1 s'.committed in
    let v = judge TxType.debit 3 (99 ∷ []) acc in
    (r ≡ answer v acc credited.committed.next_id)
    × (acc'.balance ≡ balance_after v acc)
    × (acc'.used (99 ∷ [])
        ≡ used_after v acc TxType.debit 3 (99 ∷ []) credited.committed.next_id (99 ∷ []))
unfolding session_scope grant validate_session
consume-account_example =
    consume-account 1 3 (99 ∷ []) no_meta credited refl (omega arith) (omega arith) credited-start
      (some 7) (99 ∷ []) refl

-- what the credit of five answers
abbrev five : GrantResult
five = record { new_balance = 5; ledger_tx_id = 0; idempotent_replay = false }

abbrev after_five : Session
after_five = (grant 1 (pos 5) key_1 no_meta key_1 request).1
