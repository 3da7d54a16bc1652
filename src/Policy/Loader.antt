-- ===== src/Policy/Loader.antt =====
-- src/app/policy/loader.py: the policy state of a user, read from the database, and what
-- /policy/effective answers.
use model_lib.Base.{
  ℕ, Bool, true, false, not, ◌&&◌, ◌||◌, Option, none, some, List, [], ◌∷◌, ◌++◌, leb,
  if◌then◌else◌,
}
use model_lib.Tables.{SubscriptionStatus, ByokState, User, Subscription, ByokKey, Db}
use model_lib.Session.{ok, Action, pure, ◌>>=◌}
use model_lib.Wallet.{current_balance, balance_of}
use model_lib.Policy.Engine.{Mode, BlockReason, PolicyState, Decision, evaluate}

-- `_effective_subscription_status`: an active row whose `expires_at <= now()` counts as expired.
unfoldable pub effective_subscription_status :
    Option SubscriptionStatus → Option ℕ → ℕ → SubscriptionStatus
effective_subscription_status none expires_at now = SubscriptionStatus.absent
effective_subscription_status (some SubscriptionStatus.absent) expires_at now =
    SubscriptionStatus.absent
effective_subscription_status (some SubscriptionStatus.expired) expires_at now =
    SubscriptionStatus.expired
effective_subscription_status (some SubscriptionStatus.active) none now = SubscriptionStatus.active
effective_subscription_status (some SubscriptionStatus.active) (some expires_at) now =
    if leb expires_at now then SubscriptionStatus.expired else SubscriptionStatus.active

unfoldable pub subscription_status : Option Subscription → ℕ → SubscriptionStatus
unfolding effective_subscription_status
subscription_status none now = effective_subscription_status none none now
subscription_status (some sub) now =
    effective_subscription_status (some sub.status) sub.expires_at now

unfoldable pub trial_of : Option User → Bool
trial_of none = false
trial_of (some user) = user.trial_used

unfoldable pub byok_of : Option ByokKey → Bool × ByokState
byok_of none = (false, ByokState.missing)
byok_of (some key) = (key.enabled, key.key_status)

-- `load_policy_state` on what the transaction sees at an instant
unfoldable pub policy_state : ℕ → Db → ℕ → PolicyState
unfolding subscription_status trial_of byok_of balance_of
policy_state user_id db now = record {
  subscription_status = subscription_status (db.subscriptions user_id) now;
  trial_used = trial_of (db.users user_id);
  credits_balance = current_balance user_id db;
  byok_enabled = (byok_of (db.byok_keys user_id)).0;
  byok_status = (byok_of (db.byok_keys user_id)).1;
}

unfoldable pub load_policy_state : ℕ → Action PolicyState
unfolding policy_state
load_policy_state user_id s = (ok (policy_state user_id s.current s.now), s)

pub record EffectivePolicy : Type 0 where
  pub is_subscribed : Bool
  pub trial_remaining : ℕ
  pub credits_balance : ℕ
  pub byok_enabled : Bool
  pub can_generate_credits_mode : Bool
  pub can_generate_byok_mode : Bool
  pub reasons : List BlockReason

-- `is`, on the reasons that are compared
unfoldable pub same_reason : BlockReason → BlockReason → Bool
same_reason BlockReason.trial_used BlockReason.trial_used = true
same_reason BlockReason.subscription_required BlockReason.subscription_required = true
same_reason BlockReason.subscription_expired BlockReason.subscription_expired = true
same_reason BlockReason.credits_empty BlockReason.credits_empty = true
same_reason BlockReason.byok_disabled BlockReason.byok_disabled = true
same_reason BlockReason.byok_invalid BlockReason.byok_invalid = true
same_reason BlockReason.rate_limited BlockReason.rate_limited = true
same_reason BlockReason.policy_denied BlockReason.policy_denied = true
same_reason BlockReason.max_tokens BlockReason.max_tokens = true
same_reason BlockReason.image_credits_empty BlockReason.image_credits_empty = true
same_reason _ _ = false

unfoldable pub in_reasons : BlockReason → List BlockReason → Bool
unfolding same_reason
in_reasons r [] = false
in_reasons r (q ∷ qs) = same_reason q r || in_reasons r qs

unfoldable pub first_reason : Decision → List BlockReason
first_reason d = elim d.block_reason [ some r ↦ if not d.allow then r ∷ [] else [] | none ↦ [] ]

unfoldable pub add_reason : Decision → List BlockReason → List BlockReason
unfolding in_reasons
add_reason d reasons = elim d.block_reason [
  | some r ↦ if not d.allow && not (in_reasons r reasons) then reasons ++ (r ∷ []) else reasons
  | none ↦ reasons
]

unfoldable pub is_active : SubscriptionStatus → Bool
is_active SubscriptionStatus.active = true
is_active _ = false

unfoldable pub is_absent : SubscriptionStatus → Bool
is_absent SubscriptionStatus.absent = true
is_absent _ = false

unfoldable pub is_valid : ByokState → Bool
is_valid ByokState.valid = true
is_valid _ = false

-- `effective`, after the state is loaded
unfoldable pub effective_of : PolicyState → EffectivePolicy
unfolding evaluate first_reason add_reason is_active is_absent is_valid
effective_of state = record {
  is_subscribed = is_active state.subscription_status;
  trial_remaining = if is_absent state.subscription_status && not state.trial_used then 1 else 0;
  credits_balance = state.credits_balance;
  byok_enabled = state.byok_enabled && is_valid state.byok_status;
  can_generate_credits_mode = (evaluate state Mode.credits).allow;
  can_generate_byok_mode = (evaluate state Mode.byok).allow;
  reasons = add_reason (evaluate state Mode.byok) (first_reason (evaluate state Mode.credits));
}

unfoldable pub effective : ℕ → Action EffectivePolicy
unfolding load_policy_state effective_of
effective user_id = do state ← load_policy_state user_id; pure (effective_of state)
