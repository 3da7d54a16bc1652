-- ===== src/Policy/Access.antt =====
-- When the engine allows an answer, and what the answer then costs.
use model_lib.Base.{◌<◌, ◌≡◌, ◌↔◌, ◌⊎◌, true, false, Option, none, some, arith}
use model_lib.Tables.{SubscriptionStatus, ByokState}
use model_lib.Policy.Engine.{Mode, BlockReason, PolicyState, evaluate, billing_plan}

-- What access means: an active subscription with a valid, enabled key, or an active subscription
-- with credits, or the unused trial.
abbrev pub MayGenerate : PolicyState → Mode → Type 0
MayGenerate st Mode.byok =
    (st.subscription_status ≡ SubscriptionStatus.active)
    × (st.byok_enabled ≡ true)
    × (st.byok_status ≡ ByokState.valid)
MayGenerate st Mode.credits =
    ((st.subscription_status ≡ SubscriptionStatus.active) × (0 < st.credits_balance))
    ⊎ ((st.subscription_status ≡ SubscriptionStatus.absent) × (st.trial_used ≡ false))

allow→MayGenerate : (st : PolicyState) (m : Mode) → (evaluate st m).allow ≡ true → MayGenerate st m
unfolding evaluate
allow→MayGenerate st Mode.byok = ground arith
allow→MayGenerate st Mode.credits = ground arith

MayGenerate→allow : (st : PolicyState) (m : Mode) → MayGenerate st m → (evaluate st m).allow ≡ true
unfolding evaluate
MayGenerate→allow st Mode.byok h = ground arith
MayGenerate→allow st Mode.credits h = ground arith

-- The engine allows an answer exactly when the user may generate, for every state and both
-- modes.
pub evaluate_iff : (st : PolicyState) (m : Mode) → ((evaluate st m).allow ≡ true) ↔ MayGenerate st m
evaluate_iff st m = (allow→MayGenerate st m, MayGenerate→allow st m)

-- the reasons that the policy may give, in the order of its checks
abbrev pub IsPolicyReason : Option BlockReason → Type 0
IsPolicyReason none = Unit
IsPolicyReason (some BlockReason.rate_limited) = ⊥
IsPolicyReason (some BlockReason.policy_denied) = ⊥
IsPolicyReason (some BlockReason.max_tokens) = ⊥
IsPolicyReason (some BlockReason.image_credits_empty) = ⊥
IsPolicyReason (some _) = Unit

-- A decision has a reason exactly when it blocks, and the reason is one of the policy's own.
evaluate_reason :
    (st : PolicyState) (m : Mode)
    → (((evaluate st m).block_reason ≡ none) ↔ ((evaluate st m).allow ≡ true))
      × IsPolicyReason (evaluate st m).block_reason
unfolding evaluate
evaluate_reason st Mode.byok = (ground arith, ground arith)
evaluate_reason st Mode.credits = (ground arith, ground arith)

-- An allowed answer on credits is paid in exactly one way, by a credit that is there or by the
-- unused trial; one on the user's own key is free.
billing_plan_exact :
    (st : PolicyState) (m : Mode)
    → (evaluate st m).allow ≡ true
    → let plan = billing_plan m st in
      ((m ≡ Mode.byok) × (plan.debit_credits ≡ false) × (plan.mark_trial ≡ false))
      ⊎ ((m ≡ Mode.credits)
          × (plan.debit_credits ≡ true)
          × (plan.mark_trial ≡ false)
          × (0 < st.credits_balance))
      ⊎ ((m ≡ Mode.credits)
          × (plan.debit_credits ≡ false)
          × (plan.mark_trial ≡ true)
          × (st.trial_used ≡ false))
unfolding evaluate billing_plan
billing_plan_exact st Mode.byok h = ground arith
billing_plan_exact st Mode.credits h = ground arith
