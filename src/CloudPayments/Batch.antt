-- ===== src/CloudPayments/Batch.antt =====
-- The payments of one callback together (the loop of `handle`,
-- src/app/billing_cloudpayments/service.py).
use model_lib.Base.{
  ℕ, suc, ◌+◌, ◌≡◌, refl, ap, ◌∙◌, ◌⊎◌, inl, inr, Bool, false, none, List, [], ◌∷◌, arith,
  if◌then◌else◌, Option-cases, length, All,
}
use model_lib.Base.Text.{text_eq_refl}
use model_lib.Tables.{Db}
use model_lib.Session.{Session, Result, ok, err, Action, pure, ◌>>=◌}
use mathlib.Core.Path.{subst}
use model_lib.Session.Keeps.{continue}
use model_lib.Audit.{record_event}
use model_lib.Wallet.Integrity.{committed-grant}
use model_lib.Wallet.Frame.{cloudpayments_webhook_events-grant}
use model_lib.Subscription.Service.{put_subscription}
use model_lib.CloudPayments.Verify.{CreditablePayment}
use model_lib.CloudPayments.Payment.{IsSeen, apply_payment_seen}
use model_lib.CloudPayments.Durable.{IsSeen-payments, apply_payments-Durable}
use model_lib.CloudPayments.Credit.{
  CloudPaymentsSettings, price, find_event, insert_event, activate, credit_new, credit_inserted,
  or_rollback, credit, apply_payment, apply_payments,
}

-- nothing is left to do for the payment
abbrev pub IsSettled : CloudPaymentsSettings → Db → CreditablePayment → Type 0
IsSettled settings db payment = (price settings payment ≡ none) ⊎ IsSeen payment.payment_id db

apply_payment_settles :
    (settings : CloudPaymentsSettings) (payment : CreditablePayment) (user_id : ℕ) (s s' : Session)
    (b : Bool)
    → s.committed ≡ s.current
    → apply_payment settings payment user_id s ≡ (ok b, s')
    → (s'.committed ≡ s'.current)
      × IsSettled settings s'.committed payment
      × (length s'.committed.cloudpayments_webhook_events
          ≡ length s.committed.cloudpayments_webhook_events + (if b then 1 else 0))
unfolding apply_payment credit or_rollback credit_inserted credit_new insert_event activate
    put_subscription record_event find_event
apply_payment_settles settings payment user_id s s' b start h =
    elim (Option-cases (price settings payment)) [
      | inl e ↦ (ground arith, inl e, ground arith)
      | inr (p, e) ↦ (
        grind (arith, committed-grant),
        inr (grind (arith, text_eq_refl, cloudpayments_webhook_events-grant)),
        grind (arith, cloudpayments_webhook_events-grant),
      )
    ]

IsSettled-stays :
    (settings : CloudPaymentsSettings) (payment : CreditablePayment) (user_id : ℕ)
    (payments : List CreditablePayment) (s : Session)
    → s.committed ≡ s.current
    → IsSettled settings s.committed payment
    → IsSettled settings (apply_payments settings user_id payments s).1.committed payment
IsSettled-stays settings payment user_id payments s start (inl e) = inl e
IsSettled-stays settings payment user_id payments s start (inr seen) = inr (
    ((apply_payments-Durable (IsSeen-payments payment.payment_id) settings user_id payments).at s
      seen (subst (IsSeen payment.payment_id) start seen)).0)

-- What went through in sequence went through step by step.
bind_ok :
    {A B : Type 0} (m : Action A) (f : A → Action B) (s s' : Session) (b : B)
    → (m >>= f) s ≡ (ok b, s')
    → (a : A) × (s₁ : Session) × (m s ≡ (ok a, s₁)) × (f a s₁ ≡ (ok b, s'))
unfolding continue
bind_ok {A} {B} m f s s' b h = go (m s) refl h
  where
    go :
        (x : Result A × Session)
        → m s ≡ x
        → continue x f ≡ (ok b, s')
        → (a : A) × (s₁ : Session) × (m s ≡ (ok a, s₁)) × (f a s₁ ≡ (ok b, s'))
    go (ok a, s₁) e h = (a, s₁, e, h)
    go (err x, s₁) e h = absurd (ground arith)

-- The loop that went through, from a session with nothing uncommitted, added a row to the dedup
-- journal for each payment that it counted, committed everything, and left each payment settled:
-- skipped by the prices, or in the journal.
pub apply_payments_settle :
    (settings : CloudPaymentsSettings) (user_id : ℕ) (payments : List CreditablePayment)
    (s s' : Session) (n : ℕ)
    → s.committed ≡ s.current
    → apply_payments settings user_id payments s ≡ (ok n, s')
    → (s'.committed ≡ s'.current)
      × All (IsSettled settings s'.committed) payments
      × (length s'.committed.cloudpayments_webhook_events
          ≡ n + length s.committed.cloudpayments_webhook_events)
unfolding apply_payments
apply_payments_settle settings user_id [] s s' n start h = (ground arith, tt, ground arith)
apply_payments_settle settings user_id (p ∷ ps) s s' n start h =
    let (b, s₁, e, h₁) =
      bind_ok (apply_payment settings p user_id)
        (λ b. apply_payments settings user_id ps >>= λ rest. pure (if b then suc rest else rest)) s
        s' n h in
    let (m, s₂, e₁, h₂) =
      bind_ok (apply_payments settings user_id ps) (λ rest. pure (if b then suc rest else rest)) s₁
        s' n h₁ in
    let (start₁, settled, rows) = apply_payment_settles settings p user_id s s₁ b start e in
    let (start₂, all, rows₁) = apply_payments_settle settings user_id ps s₁ s₂ m start₁ e₁ in
    let same : s₂ ≡ s' = ap (λ x. x.1) h₂ in
    let stays : IsSettled settings s₂.committed p =
      subst (λ x. IsSettled settings x.1.committed p) e₁
        (IsSettled-stays settings p user_id ps s₁ start₁ settled) in
    subst
      (λ x.
        (x.committed ≡ x.current)
        × All (IsSettled settings x.committed) (p ∷ ps)
        × (length x.committed.cloudpayments_webhook_events
            ≡ n + length s.committed.cloudpayments_webhook_events))
      same (start₂, (stays, all), ground arith)

apply_payment_settled :
    (settings : CloudPaymentsSettings) (payment : CreditablePayment) (user_id : ℕ) (s : Session)
    → s.committed ≡ s.current
    → IsSettled settings s.committed payment
    → apply_payment settings payment user_id s ≡ (ok false, s)
unfolding apply_payment
apply_payment_settled settings payment user_id s start (inl e) = rw (e, apply_payment) refl
apply_payment_settled settings payment user_id s start (inr seen) =
    apply_payment_seen settings payment user_id s start seen

-- From a session with nothing uncommitted in which every payment of a callback is settled, the
-- loop counts none, and the session is as it was.
apply_payments_settled :
    (settings : CloudPaymentsSettings) (user_id : ℕ) (payments : List CreditablePayment)
    (s : Session)
    → s.committed ≡ s.current
    → All (IsSettled settings s.committed) payments
    → apply_payments settings user_id payments s ≡ (ok 0, s)
unfolding apply_payments continue
apply_payments_settled settings user_id [] s start h = refl
apply_payments_settled settings user_id (p ∷ ps) s start (h, hs) =
    ap
      (λ x.
        continue x
          λ b. apply_payments settings user_id ps >>= λ rest. pure (if b then suc rest else rest))
      (apply_payment_settled settings p user_id s start h)
    ∙ ap (λ x. continue x pure) (apply_payments_settled settings user_id ps s start hs)
