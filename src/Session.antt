-- ===== src/Session.antt =====
-- The database session of src/app/db.py: what is committed, what the open transaction sees, and
-- the clock of the request. A service method is an action on it; what was written before a raise
-- stays in the open transaction until `session_scope` rolls it back.
pub mod Keeps
pub mod Durable
use model_lib.Base.{ℕ, ◌≡◌, refl, ◌⊎◌, inl, inr, Bool, if◌then◌else◌}
use model_lib.Errors.{AppError}
use model_lib.Tables.{Db}

pub record Session : Type 0 where
  pub committed : Db
  pub current : Db
  -- `_now()`, and `now()` of the database
  pub now : ℕ

pub data Result {ℓ} (A : Type ℓ) : Type ℓ where
  ok : A → Result A
  err : AppError → Result A

pub Result-cases {ℓ} :
    {A : Type ℓ} (r : Result A) → ((a : A) × (r ≡ ok a)) ⊎ ((e : AppError) × (r ≡ err e))
Result-cases (ok a) = inl (a, refl)
Result-cases (err e) = inr (e, refl)

abbrev pub Action : Type 0 → Type 0
Action A = Session → Result A × Session

module _ {A : Type 0} where
  abbrev pub pure : A → Action A
  pure a s = (ok a, s)

  abbrev pub raise : AppError → Action A
  raise e s = (err e, s)

  abbrev pub gets : (Db → A) → Action A
  gets f s = (ok (f s.current), s)

infixl 5 ◌>>=◌ ◌>>◌
abbrev pub ◌>>=◌ : {A B : Type 0} → Action A → (A → Action B) → Action B
◌>>=◌ m f s = let (r, s') = m s in elim r [ ok a ↦ f a s' | err e ↦ (err e, s') ]

abbrev pub ◌>>◌ : {A B : Type 0} → Action A → Action B → Action B
m >> k = m >>= λ _. k

abbrev pub ⊤ : Type 0
⊤ = Unit

abbrev pub raise_if : Bool → AppError → Action ⊤
raise_if c e s = (if c then err e else ok tt, s)

abbrev pub clock : Action ℕ
clock s = (ok s.now, s)

abbrev pub modify : (Db → Db) → Action ⊤
modify f s = (ok tt, record s { current = f s.current })

-- `session.commit()`
abbrev pub commit : Action ⊤
commit s = (ok tt, record s { committed = s.current })

-- `session.rollback()`
abbrev pub rollback : Action ⊤
rollback s = (ok tt, record s { current = s.committed })

-- `session_scope`: the endpoint runs in one transaction, committed on success, rolled back on error.
unfoldable pub settle : {A : Type 0} → Result A × Session → Result A × Session
settle (ok a, s) = (ok a, record s { committed = s.current })
settle (err e, s) = (err e, record s { current = s.committed })

unfoldable pub session_scope : {A : Type 0} → Action A → Session → Result A × Session
unfolding settle
session_scope m s = settle (m s)

-- What holds after a call that did not raise.
abbrev pub Ensures : {A : Type 0} → (Session → Type 0) → Result A × Session → Type 0
Ensures P (ok a, s) = P s
Ensures P (err e, s) = Unit

-- What the action keeps when it succeeds, and leaves committed when it raises, the request keeps of
-- the committed database.
pub settle_keeps :
    {A : Type 0} (P : Db → Type 0) (x : Result A × Session) (db : Db)
    → P db
    → Ensures (λ s. P s.current) x
    → x.1.committed ≡ db
    → P (settle x).1.committed
unfolding settle
settle_keeps P (ok a, s) db h e c = e
settle_keeps P (err e, s) db h _ c = rw c h
