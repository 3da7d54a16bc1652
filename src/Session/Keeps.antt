-- ===== src/Session/Keeps.antt =====
-- What an action keeps of the open transaction when it does not raise, one rule for each way to
-- build an action. An action that commits by itself has no such proof.
use model_lib.Base.{
  ◌≡◌, refl, ◌∙◌, Bool, true, false, if◌then◌else◌, Option, none, some, Option-cases, inl, inr,
}
use model_lib.Errors.{AppError}
use model_lib.Tables.{Db}
use model_lib.Session.{
  Session, Result, ok, err, Action, pure, raise, raise_if, gets, clock, modify, session_scope,
  ◌>>=◌,
}
use model_lib.Session.{Ensures, settle_keeps}

pub record Keeps {A : Type 0} (P : Db → Type 0) (m : Action A) : Type 0 where
  pub at : (s : Session) → P s.current → Ensures (λ s'. P s'.current) (m s)
  pub stays : (s : Session) → (m s).1.committed ≡ s.committed

module _ {A : Type 0} {P : Db → Type 0} where
  pub Keeps-pure : (a : A) → Keeps P (pure a)
  Keeps-pure a = record { at = λ s h. h; stays = λ s. refl }

  pub Keeps-raise : (e : AppError) → Keeps P (raise {A = A} e)
  Keeps-raise e = record { at = λ s h. tt; stays = λ s. refl }

  pub Keeps-gets : (f : Db → A) → Keeps P (gets f)
  Keeps-gets f = record { at = λ s h. h; stays = λ s. refl }

  pub Keeps-if : (b : Bool) (m n : Action A) → Keeps P m → Keeps P n → Keeps P (if b then m else n)
  Keeps-if true m n km kn = km
  Keeps-if false m n km kn = kn

raise_if-keeps :
    (Q : Db → Type 0) (c : Bool) (e : AppError) (s : Session)
    → Q s.current
    → Ensures (λ s'. Q s'.current) (raise_if c e s)
raise_if-keeps Q true e s h = tt
raise_if-keeps Q false e s h = h

module _ {P : Db → Type 0} where
  pub Keeps-clock : Keeps P clock
  Keeps-clock = record { at = λ s h. h; stays = λ s. refl }

  pub Keeps-raise_if : (c : Bool) (e : AppError) → Keeps P (raise_if c e)
  Keeps-raise_if c e = record { at = raise_if-keeps P c e; stays = λ s. refl }

  pub Keeps-modify : (f : Db → Db) → ((db : Db) → P db → P (f db)) → Keeps P (modify f)
  Keeps-modify f k = record { at = λ s h. k s.current h; stays = λ s. refl }

unfoldable pub continue : {A B : Type 0} → Result A × Session → (A → Action B) → Result B × Session
continue (r, s) f = elim r [ ok a ↦ f a s | err e ↦ (err e, s) ]

module _ {A B : Type 0} {P : Db → Type 0} where
  continue-Keeps :
      (x : Result A × Session) (f : A → Action B)
      → Ensures (λ s'. P s'.current) x
      → ((a : A) → Keeps P (f a))
      → Ensures (λ s'. P s'.current) (continue x f)
  unfolding continue
  continue-Keeps (ok a, s) f h k = (k a).at s h
  continue-Keeps (err e, s) f h k = tt

  continue-stays :
      (x : Result A × Session) (f : A → Action B)
      → ((a : A) → Keeps P (f a))
      → (continue x f).1.committed ≡ x.1.committed
  unfolding continue
  continue-stays (ok a, s) f k = (k a).stays s
  continue-stays (err e, s) f k = refl

  pub Keeps-bind :
      (m : Action A) (f : A → Action B) → Keeps P m → ((a : A) → Keeps P (f a)) → Keeps P (m >>= f)
  unfolding continue
  Keeps-bind m f km kf = record {
    at = λ s h. continue-Keeps (m s) f (km.at s h) kf;
    stays = λ s. continue-stays (m s) f kf ∙ km.stays s;
  }

-- A case on what the session holds keeps what its branches keep.
module _ {A X : Type 0} {P : Db → Type 0} where
  pub Keeps-option :
      (v : Session → Option X) (n : Action A) (k : X → Action A)
      → Keeps P n
      → ((x : X) → Keeps P (k x))
      → Keeps {A = A} P (λ s. elim (v s) [ none ↦ n s | some x ↦ k x s ])
  Keeps-option v n k kn kk = record {
    at = λ s h. elim (Option-cases (v s)) [
      | inl e ↦ rw e (kn.at s h)
      | inr (x, e) ↦ rw e ((kk x).at s h)
    ];
    stays = λ s. elim (Option-cases (v s)) [
      | inl e ↦ rw e (kn.stays s)
      | inr (x, e) ↦ rw e ((kk x).stays s)
    ];
  }

pub ruleset keeps_rules = (
  Keeps-pure, Keeps-raise, Keeps-gets, Keeps-if, Keeps-clock, Keeps-raise_if, Keeps-modify,
  Keeps-bind,
)

-- A request keeps of the committed database what its action keeps, whether it succeeds or not.
pub Keeps-request :
    {A : Type 0} (P : Db → Type 0) (m : Action A) (s : Session)
    → Keeps P m
    → s.committed ≡ s.current
    → P s.committed
    → P (session_scope m s).1.committed
unfolding session_scope
Keeps-request P m s k start h =
    settle_keeps P (m s) s.committed h (k.at s (rw (← start) h)) (k.stays s)
