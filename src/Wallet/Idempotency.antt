-- ===== src/Wallet/Idempotency.antt =====
-- A second call with the key of a first one, and how far a call reaches.
use model_lib.Base.{ℕ, ◌≡◌, true, Option, arith}
use model_lib.Base.Int.{ℤ}
use model_lib.Base.Text.{Text, text_eq_refl}
use model_lib.Json.{Json}
use model_lib.Session.{ok, Session}
use model_lib.Wallet.{GrantResult, consume, grant}

-- A grant that went through is answered the same way again, as a replay, and the repeat writes
-- nothing, whatever metadata and reason it brings.
grant-grant :
    (user_id : ℕ) (amount : ℤ) (key : Text) (meta meta' : Json) (reason reason' : Text)
    (s s' : Session) (r : GrantResult)
    → grant user_id amount key meta reason s ≡ (ok r, s')
    → grant user_id amount key meta' reason' s' ≡ (ok (record r { idempotent_replay = true }), s')
unfolding grant
grant-grant user_id amount key meta meta' reason reason' s s' r h = ground (arith, text_eq_refl key)

-- A debit that went through is answered the same way again, as a replay, for the same chat
-- session, and the repeat writes nothing, whatever metadata it brings.
consume-consume :
    (user_id : ℕ) (amount : ℤ) (key : Text) (meta meta' : Json) (session_id : Option ℕ)
    (s s' : Session) (r : GrantResult)
    → consume user_id amount key meta session_id s ≡ (ok r, s')
    → consume user_id amount key meta' session_id s'
      ≡ (ok (record r { idempotent_replay = true }), s')
unfolding consume
consume-consume user_id amount key meta meta' session_id s s' r h = ground (arith, text_eq_refl key)
