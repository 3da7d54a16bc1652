-- ===== src/Auth/SameUser.antt =====
-- One device, one user, and one Apple account, one user: what src/app/auth/service.py promises over
-- any sequence of its calls.
use model_lib.Base.{
  ℕ, ◌≡◌, refl, inl, inr, not, Option, none, some, List, [], ◌∷◌, arith, Bool-cases, Option-cases,
}
use model_lib.Base.Text.{Text, text_eq, text_eq_iff}
use model_lib.Errors.{AppError}
use model_lib.Json.{Json, Runtime}
use model_lib.Tables.{Db}
use model_lib.Session.{Session, Result, ok, err, Action, pure, commit, session_scope, ◌>>◌}
use model_lib.Audit.{check_user}
use model_lib.Session.{settle, Result-cases}
use model_lib.Session.Keeps.{
  Keeps, Keeps-bind, Keeps-raise, Keeps-pure, Keeps-gets, Keeps-option, Keeps-raise_if,
}
use model_lib.Session.Durable.{
  Durable, Durable-bind, Durable-Keeps, Durable-commit, durable-request,
}
use model_lib.Auth.Apple.{verify_apple, VerifiedAppleIdentity}
use model_lib.Auth.Identity.{
  apple_user, resolve_apple_user, find_or_create_identity, upsert_device, link_identity,
  insert_identity, email_column, winner, write_identity, link_target,
}
use model_lib.Auth.Tokens.{
  AuthSettings, Fresh, IssuedTokens, register_or_token, sign_in_with_apple, refresh, issue_pair,
  lift, bind_and_issue, require_issuer, resolved_device_id,
}

-- a call of the service, with what is random in it
pub data AuthCall : Type 0 where
  register : Fresh → Option Text → AuthCall
  apple : Fresh → (identity_token : Text) → (device_id client_nonce : Option Text) → AuthCall
  refresh_pair : Fresh → Text → AuthCall

unfoldable pub auth_call : Runtime → AuthSettings → AuthCall → Action IssuedTokens
auth_call py settings (AuthCall.register f device_id) = register_or_token settings f device_id
auth_call py settings (AuthCall.apple f token device_id client_nonce) =
    sign_in_with_apple py settings f token device_id client_nonce
auth_call py settings (AuthCall.refresh_pair f token) = refresh settings f token

abbrev AnswersUser : Text → ℕ → ℕ → Result IssuedTokens × Session → Type 0
AnswersUser subject user_id target (ok r, s) =
    (r.user_id ≡ target) × (apple_user subject s.committed.auth_identities ≡ some user_id)
AnswersUser subject user_id target (err e, s) = Unit

abbrev AnswersLinked : Text → Result ℕ × Session → Type 0
AnswersLinked subject (ok u, s) = apple_user subject s.current.auth_identities ≡ some u
AnswersLinked subject (err e, s) = Unit

resolve_links :
    (u v : ℕ) (sub : Text) (email : Json) (device_id : Text) (s : Session)
    → AnswersLinked sub (resolve_apple_user u v sub email device_id s)
unfolding resolve_apple_user link_identity winner
resolve_links u v sub email device_id s = ground arith

-- the calls, oldest first, each in its own transaction and at its own instant
unfoldable pub run_auth : Runtime → AuthSettings → List (ℕ × AuthCall) → Session → Session
run_auth py settings [] s = s
run_auth py settings ((t, call) ∷ calls) s =
    run_auth py settings calls (session_scope (auth_call py settings call) (record s { now = t })).1

-- an Apple account that has a user keeps it
module _ (subject : Text) (user_id : ℕ) where
  abbrev IsLinked : Db → Type 0
  IsLinked db = apple_user subject db.auth_identities ≡ some user_id

  insert_identity-IsLinked :
      (u : ℕ) (sub : Text) (email : Option Text) (db : Db)
      → IsLinked db
      → IsLinked (insert_identity u sub email db)
  unfolding insert_identity apple_user
  insert_identity-IsLinked u sub email db h = elim (Bool-cases (text_eq sub subject)) [
    | inl e ↦ let same : sub ≡ subject = (text_eq_iff sub subject).0 e in grind arith
    | inr e ↦ ground arith
  ]

  winner-Keeps : (o : Option ℕ) → Keeps IsLinked (winner o)
  unfolding winner
  winner-Keeps none = Keeps-raise AppError.service_unavailable
  winner-Keeps (some u) = Keeps-pure u

  find_or_create-Keeps :
      (u : ℕ) (device_id : Text) → Keeps IsLinked (find_or_create_identity u device_id)
  unfolding find_or_create_identity
  find_or_create-Keeps u device_id = record { at = λ s h. ground arith; stays = λ s. ground arith }

  link_target-Keeps : (u v : ℕ) → Keeps IsLinked (link_target u v)
  unfolding link_target
  link_target-Keeps u v = record { at = λ s h. ground arith; stays = λ s. ground arith }

  write_identity-Keeps :
      (u : ℕ) (sub : Text) (email : Json) → Keeps IsLinked (write_identity u sub email)
  unfolding write_identity check_user
  write_identity-Keeps u sub email = record {
    at = λ s h. elim (Option-cases (email_column email)) [
      | inl e ↦ ground arith
      | inr (c, e) ↦ ground (arith, insert_identity-IsLinked u sub c s.current h)
    ];
    stays = λ s. ground arith;
  }

  link-Keeps :
      (u v : ℕ) (sub : Text) (email : Json) (device_id : Text)
      → Keeps IsLinked (link_identity u v sub email device_id)
  unfolding link_identity
  link-Keeps u v sub email device_id = Keeps-bind _ _ (find_or_create-Keeps u device_id) λ w.
      Keeps-bind _ _ (link_target-Keeps v w) λ x.
        Keeps-bind _ _ (write_identity-Keeps x sub email) λ _.
          Keeps-bind _ _ (Keeps-gets (λ db. apple_user sub db.auth_identities)) λ o. winner-Keeps o

  resolve-Keeps :
      (u v : ℕ) (sub : Text) (email : Json) (device_id : Text)
      → Keeps IsLinked (resolve_apple_user u v sub email device_id)
  unfolding resolve_apple_user
  resolve-Keeps u v sub email device_id =
      Keeps-option (λ s. apple_user sub s.current.auth_identities) _ pure
        (link-Keeps u v sub email device_id) (λ x. Keeps-pure x)

  upsert-Keeps : (device_id : Text) (u : ℕ) → Keeps IsLinked (upsert_device device_id u)
  unfolding upsert_device check_user
  upsert-Keeps device_id u = record { at = λ s h. ground arith; stays = λ s. ground arith }

  issue-Keeps :
      (settings : AuthSettings) (f : Fresh) (u : ℕ) (device_id : Text)
      → Keeps IsLinked (issue_pair settings f u device_id)
  unfolding issue_pair check_user
  issue-Keeps settings f u device_id = record {
    at = λ s h. ground arith;
    stays = λ s. ground arith;
  }

  lift-Keeps : {A : Type 0} (r : Result A) → Keeps IsLinked (lift r)
  unfolding lift
  lift-Keeps (ok a) = Keeps-pure a
  lift-Keeps (err e) = Keeps-raise e

  -- both at the end of a call
  commit-Durable : {A : Type 0} (a : A) → Durable IsLinked (commit >> pure a)
  commit-Durable a = Durable-bind commit _ Durable-commit λ _. Durable-Keeps (Keeps-pure a)

  sign_in-Durable :
      (py : Runtime) (settings : AuthSettings) (f : Fresh) (token : Text)
      (device_id client_nonce : Option Text)
      → Durable IsLinked (sign_in_with_apple py settings f token device_id client_nonce)
  unfolding sign_in_with_apple require_issuer bind_and_issue
  sign_in-Durable py settings f token device_id client_nonce =
      Durable-bind _ _
        (Durable-Keeps (Keeps-raise_if (not settings.configured) AppError.service_unavailable))
        λ _.
          Durable-bind _ _
            (Durable-Keeps
              (lift-Keeps (verify_apple py settings.apple settings.jwt token client_nonce)))
            λ identity.
              Durable-bind _ _
                (Durable-Keeps (
                  resolve-Keeps f.new_user f.second_user identity.apple_sub identity.email
                    (resolved_device_id f device_id)))
                λ target.
                  Durable-bind _ _
                    (Durable-Keeps (upsert-Keeps (resolved_device_id f device_id) target))
                    λ _.
                      Durable-bind _ _
                        (Durable-Keeps
                          (issue-Keeps settings f target (resolved_device_id f device_id)))
                        λ r. commit-Durable r

module _ (py : Runtime) (settings : AuthSettings) where
  call_keeps_apple :
      (call : AuthCall) (subject : Text) (user_id : ℕ) (s : Session)
      → s.committed ≡ s.current
      → apple_user subject s.committed.auth_identities ≡ some user_id
      → apple_user subject
          (session_scope (auth_call py settings call) s).1.committed.auth_identities
        ≡ some user_id
  unfolding session_scope auth_call register_or_token sign_in_with_apple refresh check_user
      issue_pair resolve_apple_user find_or_create_identity upsert_device
  call_keeps_apple (AuthCall.register f device_id) subject user_id s start h = ground arith
  call_keeps_apple (AuthCall.apple f token device_id client_nonce) subject user_id s start h =
      durable-request _ s
        (sign_in-Durable subject user_id py settings f token device_id client_nonce) start h
  call_keeps_apple (AuthCall.refresh_pair f token) subject user_id s start h = ground arith

  settled : {A : Type 0} (x : Result A × Session) → (settle x).1.committed ≡ (settle x).1.current
  unfolding settle
  settled (ok a, s) = refl
  settled (err e, s) = refl

  run_keeps_apple :
      (calls : List (ℕ × AuthCall)) (subject : Text) (user_id : ℕ) (s : Session)
      → s.committed ≡ s.current
      → IsLinked subject user_id s.committed
      → IsLinked subject user_id (run_auth py settings calls s).committed
        × ((run_auth py settings calls s).committed ≡ (run_auth py settings calls s).current)
  unfolding run_auth session_scope
  run_keeps_apple [] subject user_id s start h = (h, start)
  run_keeps_apple ((t, call) ∷ calls) subject user_id s start h =
      run_keeps_apple calls subject user_id
        (session_scope (auth_call py settings call) (record s { now = t })).1
        (settled (auth_call py settings call (record s { now = t })))
        (call_keeps_apple call subject user_id (record s { now = t }) start h)

  -- the end of a sign-in answers its user, and links nothing
  bind_and_issue_lem :
      (f : Fresh) (device_id subject : Text) (user_id target : ℕ) (s : Session)
      → IsLinked subject user_id s.current
      → AnswersUser subject user_id target (settle (bind_and_issue settings f device_id target s))
  unfolding bind_and_issue check_user settle upsert_device
  bind_and_issue_lem f device_id subject user_id target s h = ground arith

  -- a sign-in leaves the account linked to the user it answers, and finds the user it is linked to
  sign_in_links :
      (f : Fresh) (token : Text) (device_id client_nonce : Option Text) (s : Session)
      (r : IssuedTokens) (identity : VerifiedAppleIdentity)
      → verify_apple py settings.apple settings.jwt token client_nonce ≡ ok identity
      → (session_scope (sign_in_with_apple py settings f token device_id client_nonce) s).0 ≡ ok r
      → IsLinked identity.apple_sub r.user_id
          (session_scope
            (sign_in_with_apple py settings f token device_id client_nonce)
            s).1.committed
  unfolding session_scope sign_in_with_apple check_user issue_pair
  sign_in_links f token device_id client_nonce s r identity v h =
      elim (Result-cases
        (resolve_apple_user f.new_user f.second_user identity.apple_sub identity.email
          (resolved_device_id f device_id) s).0) [
            | inr (x, e) ↦ absurd (ground arith)
            | inl (target, e) ↦ ground (
              arith,
              bind_and_issue_lem f (resolved_device_id f device_id) identity.apple_sub target target
                  (resolve_apple_user f.new_user f.second_user identity.apple_sub identity.email
                    (resolved_device_id f device_id) s).1,
              resolve_links f.new_user f.second_user identity.apple_sub identity.email
                  (resolved_device_id f device_id) s,
            )
          ]

  sign_in_linked :
      (f : Fresh) (token : Text) (device_id client_nonce : Option Text) (s : Session)
      (r : IssuedTokens) (identity : VerifiedAppleIdentity) (user_id : ℕ)
      → verify_apple py settings.apple settings.jwt token client_nonce ≡ ok identity
      → IsLinked identity.apple_sub user_id s.current
      → (session_scope (sign_in_with_apple py settings f token device_id client_nonce) s).0 ≡ ok r
      → r.user_id ≡ user_id
  unfolding session_scope sign_in_with_apple resolve_apple_user check_user issue_pair
  sign_in_linked f token device_id client_nonce s r identity user_id v l h = ground arith

-- A user who signed in with Apple is the same user at every later sign-in with that Apple
-- account, from whatever device and after whatever calls of the service that succeeded or failed
-- between.
pub sign_in-sign_in :
    (py : Runtime) (settings : AuthSettings) (f f' : Fresh) (token token' : Text)
    (device_id device_id' client_nonce client_nonce' : Option Text) (calls : List (ℕ × AuthCall))
    (t : ℕ) (s : Session) (r r' : IssuedTokens) (identity identity' : VerifiedAppleIdentity)
    → verify_apple py settings.apple settings.jwt token client_nonce ≡ ok identity
    → verify_apple py settings.apple settings.jwt token' client_nonce' ≡ ok identity'
    → identity'.apple_sub ≡ identity.apple_sub
    → let (x, s₁) =
        session_scope (sign_in_with_apple py settings f token device_id client_nonce) s in
      let s₂ = record (run_auth py settings calls s₁) { now = t } in
      x ≡ ok r
      → (session_scope (sign_in_with_apple py settings f' token' device_id' client_nonce') s₂).0
        ≡ ok r'
      → r'.user_id ≡ r.user_id
unfolding session_scope
sign_in-sign_in py settings f f' token token' device_id device_id' client_nonce client_nonce' calls
      t s r r' identity identity' v v' same h h' =
    let (linked, start) =
      run_keeps_apple py settings calls identity.apple_sub r.user_id
        (session_scope (sign_in_with_apple py settings f token device_id client_nonce) s).1
        (settled py settings (sign_in_with_apple py settings f token device_id client_nonce s))
        (sign_in_links py settings f token device_id client_nonce s r identity v h) in
    sign_in_linked py settings f' token' device_id' client_nonce' _ r' identity' r.user_id v'
      (rw (same, ← start) linked) h'
