-- ===== src/Admin.antt =====
-- src/app/admin/service.py: grants by an operator, a thin wrapper over the wallet.
pub mod Laws
use model_lib.Base.{false, true, Bool, ℕ, Option, none, some, List, ◌++◌}
use model_lib.Base.Int.{ℤ, pos, ltb_ℤ}
use model_lib.Base.Text.{Text, codes}
use model_lib.Errors.{AppError}
use model_lib.Json.{Json, Fields}
use model_lib.Tables.{SubscriptionStatus, LedgerTransaction, Guarded, AuditPayload}
use model_lib.Session.{ok, err, Action, ⊤, pure, ◌>>=◌, ◌>>◌}
use model_lib.Audit.{AuditEvent, record_event}
use model_lib.Wallet.{GrantResult, grant, get_wallet_view}
use model_lib.Subscription.Service.{put_subscription}

-- `_require_user_exists`
unfoldable pub require_user_exists : ℕ → Action ⊤
require_user_exists user_id s = elim (s.current.users user_id) [
  | none ↦ (err AppError.user_not_found, s)
  | some _ ↦ (ok tt, s)
]

unfoldable pub admin_meta : Text → Json
admin_meta reason = Json.obj (
    Fields.field "source" (Json.str (codes "admin"))
      (Fields.field "reason" (Json.str reason) Fields.end))

unfoldable pub admin_grant_event : ℕ → ℤ → Text → Text → GrantResult → AuditEvent
admin_grant_event user_id amount key reason result = record {
  user_id = user_id;
  session_id = none;
  payload =
      AuditPayload.admin_grant user_id amount reason (Guarded.shown key) result.ledger_tx_id
        result.idempotent_replay;
}

-- `AdminService.grant`
unfoldable pub admin_grant : ℕ → ℤ → Text → Text → Action GrantResult
unfolding require_user_exists
admin_grant user_id amount key reason = do
  require_user_exists user_id
  result ← grant user_id amount key (admin_meta reason) reason
  record_event (admin_grant_event user_id amount key reason result)
  pure result

pub record AdminSubscriptionGrantResult : Type 0 where
  pub status : SubscriptionStatus
  pub expires_at : ℕ
  pub plan : Text
  pub credits_granted : ℤ
  pub new_balance : Option ℕ
  pub ledger_tx_id : Option ℕ
  pub idempotent_replay : Option Bool

admin_sub_grant_prefix : Text
admin_sub_grant_prefix = codes "admin-sub-grant:"

-- f"admin-sub-grant:{idempotency_key}"
unfoldable pub admin_sub_grant_key : Text → Text
unfolding admin_sub_grant_prefix
admin_sub_grant_key key = admin_sub_grant_prefix ++ key

unfoldable pub admin_sub_reason : Text
admin_sub_reason = codes "admin_subscription_grant"

-- `credits if credits is not None else settings.subscription_credits_per_period`
unfoldable pub effective_credits : Option ℤ → ℤ → ℤ
effective_credits none period = period
effective_credits (some credits) period = credits

unfoldable pub grant_when : Bool → ℕ → ℤ → Text → Action (Option GrantResult)
grant_when false user_id credits key = pure none
grant_when true user_id credits key = do
  g ← grant user_id credits (admin_sub_grant_key key) (admin_meta admin_sub_reason) admin_sub_reason
  pure (some g)

-- `if effective_credits > 0: grant = …`
unfoldable pub grant_if_positive : ℕ → ℤ → Text → Action (Option GrantResult)
unfolding grant_when
grant_if_positive user_id credits key = grant_when (ltb_ℤ (pos 0) credits) user_id credits key

abbrev tx_id : Option GrantResult → Option ℕ
tx_id none = none
tx_id (some g) = some g.ledger_tx_id

abbrev granted_balance : Option GrantResult → Option ℕ
granted_balance none = none
granted_balance (some g) = some g.new_balance

abbrev granted_replay : Option GrantResult → Option Bool
granted_replay none = none
granted_replay (some g) = some g.idempotent_replay

unfoldable pub admin_sub_event : ℕ → Text → ℕ → ℤ → Text → Option GrantResult → AuditEvent
admin_sub_event user_id plan expires_at credits key g = record {
  user_id = user_id;
  session_id = none;
  payload =
      AuditPayload.admin_subscription_grant user_id plan expires_at credits (Guarded.shown key)
        (tx_id g);
}

-- `AdminService.grant_subscription`; the upsert is one statement with ON CONFLICT DO UPDATE
unfoldable pub grant_subscription :
    ℕ → ℕ → Text → Text → Option ℤ → ℤ → Action AdminSubscriptionGrantResult
unfolding require_user_exists effective_credits
grant_subscription user_id expires_at plan key credits period = do
  require_user_exists user_id
  put_subscription user_id SubscriptionStatus.active (some plan) (some expires_at)
  g ← grant_if_positive user_id (effective_credits credits period) key
  record_event (admin_sub_event user_id plan expires_at (effective_credits credits period) key g)
  pure (record {
    status = SubscriptionStatus.active;
    expires_at = expires_at;
    plan = plan;
    credits_granted = effective_credits credits period;
    new_balance = granted_balance g;
    ledger_tx_id = tx_id g;
    idempotent_replay = granted_replay g;
  })

-- `AdminService.get_wallet_view`
unfoldable pub admin_wallet_view : ℕ → ℕ → Action (ℕ × List LedgerTransaction)
unfolding require_user_exists
admin_wallet_view user_id last_n = do require_user_exists user_id; get_wallet_view user_id last_n
