-- ===== src/Policy/Engine.antt =====
-- src/app/policy/engine.py, a pure function of the user's state and the mode, and `_billing_plan` of
-- src/app/chat/orchestrator.py.
use model_lib.Base.{ℕ, Bool, true, false, Option, none, some, ◌==◌, if◌then◌else◌}
use model_lib.Tables.{SubscriptionStatus, ByokState}

pub data Mode : Type 0 where
  credits byok : Mode

pub data BlockReason : Type 0 where
  trial_used subscription_required subscription_expired credits_empty byok_disabled byok_invalid
        rate_limited policy_denied max_tokens image_credits_empty :
      BlockReason

pub record PolicyState : Type 0 where
  pub subscription_status : SubscriptionStatus
  pub trial_used : Bool
  pub credits_balance : ℕ
  pub byok_enabled : Bool
  pub byok_status : ByokState

pub record Decision : Type 0 where
  pub allow : Bool
  pub block_reason : Option BlockReason

abbrev pub allowed : Decision
allowed = record { allow = true; block_reason = none }

abbrev pub blocked : BlockReason → Decision
blocked reason = record { allow = false; block_reason = some reason }

-- `_byok_state`
unfoldable pub byok_state : Bool → ByokState → ByokState
byok_state byok_enabled byok_status = if byok_enabled then byok_status else ByokState.disabled

unfoldable pub evaluate_key : ByokState → Decision
evaluate_key ByokState.disabled = blocked BlockReason.byok_disabled
evaluate_key ByokState.valid = allowed
evaluate_key _ = blocked BlockReason.byok_invalid

unfoldable pub evaluate_byok : SubscriptionStatus → Bool → ByokState → Decision
unfolding byok_state evaluate_key
evaluate_byok SubscriptionStatus.active enabled status = evaluate_key (byok_state enabled status)
evaluate_byok SubscriptionStatus.expired enabled status = blocked BlockReason.subscription_expired
evaluate_byok SubscriptionStatus.absent enabled status = blocked BlockReason.subscription_required

unfoldable pub evaluate_credits : SubscriptionStatus → Bool → ℕ → Decision
evaluate_credits SubscriptionStatus.active used balance =
    if balance == 0 then blocked BlockReason.credits_empty else allowed
evaluate_credits SubscriptionStatus.expired used balance = blocked BlockReason.subscription_expired
evaluate_credits SubscriptionStatus.absent used balance =
    if used then blocked BlockReason.trial_used else allowed

unfoldable pub evaluate : PolicyState → Mode → Decision
unfolding evaluate_byok evaluate_credits
evaluate state Mode.byok =
    evaluate_byok state.subscription_status state.byok_enabled state.byok_status
evaluate state Mode.credits =
    evaluate_credits state.subscription_status state.trial_used state.credits_balance

pub record BillingPlan : Type 0 where
  pub debit_credits : Bool
  pub mark_trial : Bool

unfoldable pub plan_credits : SubscriptionStatus → Bool → BillingPlan
plan_credits SubscriptionStatus.active used = record { debit_credits = true; mark_trial = false }
plan_credits SubscriptionStatus.absent false = record { debit_credits = false; mark_trial = true }
plan_credits _ used = record { debit_credits = false; mark_trial = false }

-- `_billing_plan`
unfoldable pub billing_plan : Mode → PolicyState → BillingPlan
unfolding plan_credits
billing_plan Mode.byok state = record { debit_credits = false; mark_trial = false }
billing_plan Mode.credits state = plan_credits state.subscription_status state.trial_used
