-- ===== src/Session/Durable.antt =====
-- Actions that commit as they go: what they keep of the committed database, even where a later step
-- raises.
use mathlib.Core.Path.{subst}
use model_lib.Base.{◌≡◌, sym, Option, none, some, Option-cases, inl, inr}
use model_lib.Tables.{Db}
use model_lib.Session.{
  Session, Result, ok, err, Action, commit, rollback, session_scope, settle, Ensures, ◌>>=◌,
}
use model_lib.Session.Keeps.{Keeps, continue}

pub record Durable {A : Type 0} (P : Db → Type 0) (m : Action A) : Type 0 where
  pub at :
      (s : Session)
      → P s.committed
      → P s.current
      → P (m s).1.committed × Ensures (λ s'. P s'.current) (m s)

module _ {A : Type 0} {P : Db → Type 0} where
  pub Durable-Keeps : {m : Action A} → Keeps P m → Durable P m
  Durable-Keeps k = record { at = λ s c o. (subst P (sym (k.stays s)) c, k.at s o) }

  pub durable-request :
      (m : Action A) (s : Session)
      → Durable P m
      → s.committed ≡ s.current
      → P s.committed
      → P (session_scope m s).1.committed
  unfolding session_scope settle
  durable-request m s d start h = settled (m s) (d.at s h (subst P start h))
    where
      settled :
          (x : Result A × Session)
          → P x.1.committed × Ensures (λ s'. P s'.current) x
          → P (settle x).1.committed
      settled (ok a, s) (c, o) = o
      settled (err e, s) (c, o) = c

module _ {A B : Type 0} {P : Db → Type 0} where
  pub Durable-bind :
      (m : Action A) (f : A → Action B)
      → Durable P m
      → ((a : A) → Durable P (f a))
      → Durable P (m >>= f)
  unfolding continue
  Durable-bind m f dm df = record { at = λ s c o. next (m s) (dm.at s c o) }
    where
      next :
          (x : Result A × Session)
          → P x.1.committed × Ensures (λ s'. P s'.current) x
          → P (continue x f).1.committed × Ensures (λ s'. P s'.current) (continue x f)
      next (ok a, s) (c, o) = (df a).at s c o
      next (err e, s) (c, o) = (c, tt)

module _ {A X : Type 0} {P : Db → Type 0} where
  pub Durable-option :
      (v : Session → Option X) (n : Action A) (k : X → Action A)
      → Durable P n
      → ((x : X) → Durable P (k x))
      → Durable {A = A} P (λ s. elim (v s) [ none ↦ n s | some x ↦ k x s ])
  Durable-option v n k dn dk = record {
    at = λ s c o. elim (Option-cases (v s)) [
      | inl e ↦ rw e (dn.at s c o)
      | inr (x, e) ↦ rw e ((dk x).at s c o)
    ];
  }

module _ {P : Db → Type 0} where
  pub Durable-commit : Durable P commit
  Durable-commit = record { at = λ s c o. (o, o) }

  pub Durable-rollback : Durable P rollback
  Durable-rollback = record { at = λ s c o. (c, c) }
