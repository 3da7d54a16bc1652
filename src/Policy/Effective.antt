-- ===== src/Policy/Effective.antt =====
-- /policy/effective predicts /chat/run: both go through the same engine.
use model_lib.Base.{ℕ, ◌≤◌, ◌<◌, ◌≡◌, refl, ◌↔◌, ◌⊎◌, true, false, none, some, List, [], ◌∷◌, arith}
use model_lib.Tables.{SubscriptionStatus, Subscription}
use model_lib.Session.{Session, ok}
use model_lib.Policy.Engine.{Mode, BlockReason, PolicyState, evaluate}
use model_lib.Policy.Loader.{effective_of, load_policy_state, policy_state, in_reasons, same_reason}

abbrev pub HasNoDuplicate : List BlockReason → Type 0
HasNoDuplicate [] = Unit
HasNoDuplicate (r ∷ rs) = (in_reasons r rs ≡ false) × HasNoDuplicate rs

abbrev pub IsReasonOf : PolicyState → Mode → BlockReason → Type 0
IsReasonOf st m r = (evaluate st m).block_reason ≡ some r

-- The two flags are the engine's decisions; a reason is listed exactly when it is the reason of
-- one of the two modes, and none is listed twice.
effective_of_reasons :
    (st : PolicyState) (r : BlockReason)
    → let e = effective_of st in
      (e.can_generate_credits_mode ≡ (evaluate st Mode.credits).allow)
      × (e.can_generate_byok_mode ≡ (evaluate st Mode.byok).allow)
      × HasNoDuplicate e.reasons
      × ((in_reasons r e.reasons ≡ true)
          ↔ (IsReasonOf st Mode.credits r ⊎ IsReasonOf st Mode.byok r))
unfolding effective_of same_reason in_reasons
effective_of_reasons st r = (ground arith, ground arith, ground arith, (ground arith, ground arith))

-- A user has a trial left exactly when the engine would let an answer on credits through without
-- a subscription, and then exactly one.
effective_of_trial :
    (st : PolicyState)
    → let e = effective_of st in
      ((e.trial_remaining ≡ 1) ↔ ((e.can_generate_credits_mode ≡ true) × (e.is_subscribed ≡ false)))
      × (e.trial_remaining ≤ 1)
unfolding effective_of
effective_of_trial st = ((ground arith, ground arith), ground arith)

-- For a user whose stored subscription is active, loading the policy state writes nothing, and
-- reads the subscription as active exactly until its expiry; one with no expiry stays active.
load_policy_state_lazy :
    (user_id : ℕ) (s : Session) {sub : Subscription}
    → s.current.subscriptions user_id ≡ some sub
    → sub.status ≡ SubscriptionStatus.active
    → let (r, s') = load_policy_state user_id s in
      (s' ≡ s)
      × ((r ≡ ok (policy_state user_id s.current s.now)))
      × (((policy_state user_id s.current s.now).subscription_status ≡ SubscriptionStatus.active)
          ↔ ((sub.expires_at ≡ none) ⊎ ((t : ℕ) × (sub.expires_at ≡ some t) × (s.now < t))))
unfolding load_policy_state
load_policy_state_lazy user_id s h a = (refl, refl, (ground arith, ground arith))
