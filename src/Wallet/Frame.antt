-- ===== src/Wallet/Frame.antt =====
-- Facts about wallets and their ledger, for the services that call `WalletService` between
-- statements on other tables.
use model_lib.Base.{
  ◌+◌, if◌then◌else◌, ℕ, ◌≡◌, refl, Bool, true, false, Option, none, some, List, arith, Table,
}
use model_lib.Base.Int.{pos_part, ℤ}
use model_lib.Base.Text.{Text, text_eq_refl}
use model_lib.Json.{Json}
use model_lib.Tables.{
  Subscription, LedgerTransaction, AdaptyWebhookEvent, CloudPaymentsWebhookEvent, AuditLog, Db,
}
use model_lib.Session.{Session, Result, ok, err, modify, ◌>>◌}
use model_lib.Session.{Ensures}
use model_lib.Session.Keeps.{Keeps, Keeps-bind, Keeps-modify}
use model_lib.Audit.{AuditEvent, record_event, check_user, check_session, add_event}
use model_lib.Wallet.{GrantResult, grant, existing_tx, current_balance}
use model_lib.Wallet.Integrity.{IsSound, grant-IsSound, committed-grant}

-- a fact that no other billing table has a part in
pub record IsMoneyFact (P : Db → Type 0) : Type 0 where
  pub audit : (db : Db) (t : List AuditLog) → P db → P (record db { audit_logs = t })
  pub subs : (db : Db) (t : Table Subscription) → P db → P (record db { subscriptions = t })
  pub adapty :
      (db : Db) (t : List AdaptyWebhookEvent) → P db → P (record db { adapty_webhook_events = t })
  pub cloudpayments :
      (db : Db) (t : List CloudPaymentsWebhookEvent)
      → P db
      → P (record db { cloudpayments_webhook_events = t })

-- the balances and the rows are those of another database
pub record SameMoney (db₀ db : Db) : Type 0 where
  pub balances : (u : ℕ) → current_balance u db ≡ current_balance u db₀
  pub rows : db.ledger_transactions ≡ db₀.ledger_transactions

-- the key has a ledger row
abbrev pub is_some : Option LedgerTransaction → Bool
is_some none = false
is_some (some _) = true

abbrev pub IsUsed : ℕ → Text → Db → Type 0
IsUsed user_id key db = is_some (existing_tx user_id key db) ≡ true

-- the effect of a grant on its user's balance, if it did not raise
abbrev pub GrantDelta : ℕ → ℤ → Text → Session → Result GrantResult × Session → Type 0
GrantDelta user_id amount key s (err e, s') = Unit
GrantDelta user_id amount key s (ok g, s') =
    (g.new_balance ≡ current_balance user_id s'.current)
    × (current_balance user_id s'.current
        ≡ current_balance user_id s.current + (if g.idempotent_replay then 0 else pos_part amount))
    × (g.idempotent_replay ≡ is_some (existing_tx user_id key s.current))

pub IsSound-money : IsMoneyFact IsSound
IsSound-money = record {
  audit = λ db t h. record {
    balanced = h.balanced;
    bounded = h.bounded;
    unique = h.unique;
    in_range = h.in_range;
    owned = h.owned;
  };
  subs = λ db t h. record {
    balanced = h.balanced;
    bounded = h.bounded;
    unique = h.unique;
    in_range = h.in_range;
    owned = h.owned;
  };
  adapty = λ db t h. record {
    balanced = h.balanced;
    bounded = h.bounded;
    unique = h.unique;
    in_range = h.in_range;
    owned = h.owned;
  };
  cloudpayments = λ db t h. record {
    balanced = h.balanced;
    bounded = h.bounded;
    unique = h.unique;
    in_range = h.in_range;
    owned = h.owned;
  };
}

pub SameMoney-money : (db₀ : Db) → IsMoneyFact (SameMoney db₀)
SameMoney-money db₀ = record {
  audit = λ db t h. record { balances = h.balances; rows = h.rows };
  subs = λ db t h. record { balances = h.balances; rows = h.rows };
  adapty = λ db t h. record { balances = h.balances; rows = h.rows };
  cloudpayments = λ db t h. record { balances = h.balances; rows = h.rows };
}

pub IsUsed-money : (user_id : ℕ) (key : Text) → IsMoneyFact (IsUsed user_id key)
IsUsed-money user_id key = record {
  audit = λ db t h. h;
  subs = λ db t h. h;
  adapty = λ db t h. h;
  cloudpayments = λ db t h. h;
}

module _ {P : Db → Type 0} where
  pub check_user-Keeps : (user_id : ℕ) → Keeps P (check_user user_id)
  unfolding check_user
  check_user-Keeps user_id = record { at = λ s h. ground arith; stays = λ s. ground arith }

  check_session-Keeps : (session_id : Option ℕ) → Keeps P (check_session session_id)
  unfolding check_session
  check_session-Keeps none = record { at = λ s h. h; stays = λ s. refl }
  check_session-Keeps (some id) = record { at = λ s h. ground arith; stays = λ s. ground arith }

  -- An audit row has no part in the money.
  pub record_event-Keeps :
      ((db : Db) (t : List AuditLog) → P db → P (record db { audit_logs = t }))
      → (event : AuditEvent) → Keeps P (record_event event)
  unfolding record_event
  record_event-Keeps audit event =
      Keeps-bind (check_user event.user_id)
        (λ _. check_session event.session_id >> modify (add_event event))
        (check_user-Keeps event.user_id)
        λ _.
          Keeps-bind (check_session event.session_id) (λ _. modify (add_event event))
            (check_session-Keeps event.session_id)
            λ _. Keeps-modify (add_event event) (λ db h. audit db _ h)

module _ (user_id : ℕ) (amount : ℤ) (key : Text) (meta : Json) (reason : Text) where
  pub grant-Keeps-IsSound : Keeps IsSound (grant user_id amount key meta reason)
  grant-Keeps-IsSound = record {
    at = λ s h. grant-IsSound user_id amount key meta reason s h;
    stays = λ s. committed-grant user_id amount key meta reason s;
  }

  grant_used_money :
      (db₀ : Db) (s : Session) (u : ℕ)
      → IsUsed user_id key db₀
      → SameMoney db₀ s.current
      → s.current.ledger_transactions ≡ db₀.ledger_transactions
      → current_balance u s.current ≡ current_balance u db₀
      → Ensures
          (λ s'.
            (current_balance u s'.current ≡ current_balance u db₀)
            × (s'.current.ledger_transactions ≡ db₀.ledger_transactions))
          (grant user_id amount key meta reason s)
  unfolding grant
  grant_used_money db₀ s u e h rows balance = ground arith

  -- With a key that was used, a grant moves nothing.
  pub grant-Keeps-SameMoney :
      (db₀ : Db)
      → IsUsed user_id key db₀
      → Keeps (SameMoney db₀) (grant user_id amount key meta reason)
  grant-Keeps-SameMoney db₀ e = record {
    at = λ s h.
        join (grant user_id amount key meta reason s)
          (λ u. grant_used_money db₀ s u e h h.rows (h.balances u));
    stays = λ s. committed-grant user_id amount key meta reason s;
  }
    where
      join :
          (x : Result GrantResult × Session)
          → ((u : ℕ)
              → Ensures
                  (λ s'.
                    (current_balance u s'.current ≡ current_balance u db₀)
                    × (s'.current.ledger_transactions ≡ db₀.ledger_transactions))
                  x)
          → Ensures (λ s'. SameMoney db₀ s'.current) x
      join (ok a, s) k = record { balances = λ u. (k u).0; rows = (k 0).1 }
      join (err e, s) k = tt

  -- A grant that does not raise leaves its key used,
  pub grant_uses :
      (s : Session)
      → Ensures (λ s'. IsUsed user_id key s'.current) (grant user_id amount key meta reason s)
  unfolding grant
  grant_uses s = ground (arith, text_eq_refl key)

  grant_keeps_IsUsed :
      (u : ℕ) (k : Text) (s : Session)
      → IsUsed u k s.current
      → Ensures (λ s'. IsUsed u k s'.current) (grant user_id amount key meta reason s)
  unfolding grant
  grant_keeps_IsUsed u k s e = ground arith

  -- and every other used key too.
  pub grant-Keeps-IsUsed :
      (u : ℕ) (k : Text) → Keeps (IsUsed u k) (grant user_id amount key meta reason)
  grant-Keeps-IsUsed u k = record {
    at = λ s e. grant_keeps_IsUsed u k s e;
    stays = λ s. committed-grant user_id amount key meta reason s;
  }

  pub subscriptions-grant :
      (s : Session)
      → (grant user_id amount key meta reason s).1.current.subscriptions ≡ s.current.subscriptions
  unfolding grant
  subscriptions-grant s = ground arith

  pub users-grant :
      (s : Session) → (grant user_id amount key meta reason s).1.current.users ≡ s.current.users
  unfolding grant
  users-grant s = ground arith

  pub adapty_webhook_events-grant :
      (s : Session)
      → (grant user_id amount key meta reason s).1.current.adapty_webhook_events
        ≡ s.current.adapty_webhook_events
  unfolding grant
  adapty_webhook_events-grant s = ground arith

  pub cloudpayments_webhook_events-grant :
      (s : Session)
      → (grant user_id amount key meta reason s).1.current.cloudpayments_webhook_events
        ≡ s.current.cloudpayments_webhook_events
  unfolding grant
  cloudpayments_webhook_events-grant s = ground arith

  -- What a grant that went through did to its user's balance.
  pub grant_balance :
      (s : Session) → GrantDelta user_id amount key s (grant user_id amount key meta reason s)
  unfolding grant
  grant_balance s = ground arith
