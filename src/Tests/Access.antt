-- ===== src/Tests/Access.antt =====
-- The policy engine, and the operator's subscription grants.
use model_lib.Base.{◌≡◌, ◌↔◌, true, false, some}
use model_lib.Tables.{SubscriptionStatus, ByokState, Subscription}
use model_lib.Policy.Engine.{Mode, PolicyState, evaluate}
use model_lib.Policy.Access.{MayGenerate, evaluate_iff}
use model_lib.Tests.Data.{key_1}

abbrev new_user : PolicyState
new_user = record {
  subscription_status = SubscriptionStatus.absent;
  trial_used = false;
  credits_balance = 0;
  byok_enabled = false;
  byok_status = ByokState.missing;
}

evaluate_iff_example :
    ((evaluate new_user Mode.credits).allow ≡ true) ↔ MayGenerate new_user Mode.credits
evaluate_iff_example = evaluate_iff new_user Mode.credits

abbrev week_row : Subscription
week_row = record {
  status = SubscriptionStatus.active;
  plan = some key_1;
  expires_at = some 100000000000001;
  updated_at = 0;
}
