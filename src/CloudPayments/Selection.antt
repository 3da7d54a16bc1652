-- ===== src/CloudPayments/Selection.antt =====
-- Which payments the reconciliation selects (`select_creditable_payments`,
-- src/app/billing_cloudpayments/verify.py).
use model_lib.Base.{
  ℕ, ◌-◌, ◌*◌, ◌≤◌, ◌≡◌, refl, sym, ap, ◌↔◌, ◌⊎◌, inl, inr, true, Option, none, some, List, [], ◌∷◌,
  arith,
}
use model_lib.Base.Text.{Text, text_mem, lower}
use model_lib.Json.{Json, Fields, Runtime, get, as_object}
use model_lib.Session.{ok}
use mathlib.Core.Path.{subst}
use mathlib.Core.List.{Memᴰ}
use mathlib.Core.List.Memᴰ
use model_lib.CloudPayments.Verify.{
  CreditablePayment, nonblank, parse_paid_at, payment_status, identified, creditable, select_from,
  select_creditable_payments, hour_us,
}

-- The payment that an object of the reply stands for, field by field, and why it may be credited: a
-- paid status, an instant not before the cutoff, and three identifiers that are not blank.
pub record IsPaid (py : Runtime) (paid_statuses : List Text) (cutoff : ℕ) (item : Fields)
    (p : CreditablePayment) : Type 0 where
  pub product : Fields
  pub type_text : Text
  pub status : p.status ≡ payment_status py item
  pub is_paid : text_mem p.status paid_statuses ≡ true
  pub paid_at : parse_paid_at py (get "paid_at" item) ≡ some p.paid_at
  pub fresh : cutoff ≤ p.paid_at
  pub payment_id : nonblank (get "payment_id" item) ≡ some p.payment_id
  pub has_product : get "product" item ≡ Json.obj product
  pub code : nonblank (get "code" product) ≡ some p.product_code
  pub has_type : nonblank (get "payment_type" product) ≡ some type_text
  pub type : p.payment_type ≡ lower type_text

creditable→IsPaid :
    (py : Runtime) (paid_statuses : List Text) (cutoff : ℕ) (item : Fields) (p : CreditablePayment)
    → creditable py paid_statuses cutoff item ≡ some p
    → IsPaid py paid_statuses cutoff item p
unfolding creditable identified as_object
creditable→IsPaid py paid_statuses cutoff item p h = ground arith

IsPaid→creditable :
    (py : Runtime) (paid_statuses : List Text) (cutoff : ℕ) (item : Fields) (p : CreditablePayment)
    → IsPaid py paid_statuses cutoff item p
    → creditable py paid_statuses cutoff item ≡ some p
unfolding creditable identified as_object
IsPaid→creditable py paid_statuses cutoff item p h = ground arith

module _ (p : CreditablePayment) (rest : List CreditablePayment) where
  first-or-rest :
      (o : Option CreditablePayment)
      → Memᴰ p (elim o [ none ↦ rest | some q ↦ q ∷ rest ])
      → (o ≡ some p) ⊎ Memᴰ p rest
  first-or-rest none m = inr m
  first-or-rest (some q) m = elim (Memᴰ.cases_cons m) [
    | inl same ↦ inl (ap some (sym same))
    | inr at ↦ inr at
  ]

  at_first :
      (o : Option CreditablePayment)
      → o ≡ some p
      → Memᴰ p (elim o [ none ↦ rest | some q ↦ q ∷ rest ])
  at_first none e = absurd (ground arith)
  at_first (some q) e = Memᴰ.head (ground arith)

  at_rest :
      (o : Option CreditablePayment)
      → Memᴰ p rest
      → Memᴰ p (elim o [ none ↦ rest | some q ↦ q ∷ rest ])
  at_rest none m = m
  at_rest (some q) m = Memᴰ.tail m

module _ (py : Runtime) (paid_statuses : List Text) (cutoff : ℕ) where
  selected→IsPaid :
      (items : List Fields) (p : CreditablePayment)
      → Memᴰ p (select_from py paid_statuses cutoff items)
      → (item : Fields) × Memᴰ item items × IsPaid py paid_statuses cutoff item p
  unfolding select_from
  selected→IsPaid [] p m = absurd (Memᴰ.not-nil m)
  selected→IsPaid (i ∷ items) p m =
      elim (first-or-rest p _ (creditable py paid_statuses cutoff i) m) [
        | inl e ↦ (i, Memᴰ.head refl, creditable→IsPaid py paid_statuses cutoff i p e)
        | inr rest ↦
            let (item, at, paid) = selected→IsPaid items p rest in (item, Memᴰ.tail at, paid)
      ]

  IsPaid→selected :
      (items : List Fields) (p : CreditablePayment) (item : Fields)
      → Memᴰ item items
      → IsPaid py paid_statuses cutoff item p
      → Memᴰ p (select_from py paid_statuses cutoff items)
  unfolding select_from
  IsPaid→selected [] p item m paid = absurd (Memᴰ.not-nil m)
  IsPaid→selected (i ∷ items) p item m paid = elim (Memᴰ.cases_cons m) [
    | inl same ↦ at_first p _ (creditable py paid_statuses cutoff i) (
        subst (λ x. creditable py paid_statuses cutoff x ≡ some p) same
          (IsPaid→creditable py paid_statuses cutoff item p paid))
    | inr rest ↦
        at_rest p _ (creditable py paid_statuses cutoff i) (IsPaid→selected items p item rest paid)
  ]

-- When the window reaches back to an instant that exists, a payment is selected exactly when an
-- object of the reply is that payment: its status is a paid one, it was paid within the window,
-- and its id, product code and payment type are not blank.
pub select_iff :
    (py : Runtime) (items : List Fields) (paid_statuses : List Text) (now hours : ℕ)
    (ps : List CreditablePayment) (p : CreditablePayment)
    → select_creditable_payments py items paid_statuses now hours ≡ ok ps
    → Memᴰ p ps
      ↔ ((item : Fields) × Memᴰ item items × IsPaid py paid_statuses (now - hours * hour_us) item p)
unfolding select_creditable_payments
select_iff py items paid_statuses now hours ps p h =
    subst
      (λ l. Memᴰ p l ↔ (
        (item : Fields) × Memᴰ item items × IsPaid py paid_statuses (now - hours * hour_us) item p))
      list
      (
        λ m. selected→IsPaid py paid_statuses (now - hours * hour_us) items p m,
        λ (item, at, paid).
            IsPaid→selected py paid_statuses (now - hours * hour_us) items p item at paid,
      )
  where
    list : select_from py paid_statuses (now - hours * hour_us) items ≡ ps
    list = ground arith
