-- ===== src/Byok/Status.antt =====
-- When a key that src/app/byok/service.py stored may be used.
use model_lib.Base.{ℕ, ◌≡◌, Bool, true, false, Option, none, some, arith}
use model_lib.Base.Text.{Text}
use model_lib.Tables.{ByokState, ByokKey, Db}
use model_lib.Session.{Session, Result, ok, err, Action, pure, session_scope, ◌>>=◌, ◌>>◌}
use model_lib.Audit.{record_event}
use model_lib.Session.{Ensures, settle_keeps}
use model_lib.Policy.Engine.{Mode, evaluate}
use model_lib.Policy.Loader.{policy_state}
use model_lib.Byok.Keys.{Entropy, ByokSettings, detect_byok_provider}
use model_lib.Byok.Service.{
  ByokResult, set_key, toggle, delete_key, mark_invalid, mark_expired, store_key, set_with_provider,
  status_of_validation, status_of_row,
}

-- the calls that change a user's key
pub data KeyCall : Type 0 where
  set : Entropy → Text → KeyCall
  switch : Bool → KeyCall
  delete invalidate expire : KeyCall

-- what an endpoint or the orchestrator runs; the answer of the two marks is empty
unfoldable pub call_byok : ByokSettings → ℕ → KeyCall → Action (Option ByokResult)
call_byok settings user_id (KeyCall.set entropy api_key) = do
  r ← set_key settings entropy user_id api_key
  pure (some r)
call_byok settings user_id (KeyCall.switch enabled) = do
  r ← toggle settings user_id enabled
  pure (some r)
call_byok settings user_id KeyCall.delete = do r ← delete_key user_id; pure (some r)
call_byok settings user_id KeyCall.invalidate = do mark_invalid user_id; pure none
call_byok settings user_id KeyCall.expire = do mark_expired user_id; pure none

-- an enabled key is valid
abbrev pub IsGoodRow : Option ByokKey → Type 0
IsGoodRow none = Unit
IsGoodRow (some row) = row.enabled ≡ true → row.key_status ≡ ByokState.valid

abbrev pub IsGood : Db → Type 0
IsGood db = (u : ℕ) → IsGoodRow (db.byok_keys u)

module _ (settings : ByokSettings) (user_id : ℕ) (call : KeyCall) (s : Session) where
  call-IsGoodRow :
      (u : ℕ)
      → IsGoodRow (s.current.byok_keys u)
      → IsGoodRow (s.current.byok_keys user_id)
      → Ensures (λ s'. IsGoodRow (s'.current.byok_keys u)) (call_byok settings user_id call s)
  unfolding call_byok set_key toggle delete_key mark_invalid mark_expired record_event
  call-IsGoodRow u h k = ground arith

  committed-call : (call_byok settings user_id call s).1.committed ≡ s.committed
  unfolding call_byok set_key toggle delete_key mark_invalid mark_expired record_event
  committed-call = ground arith

gather :
    {A : Type 0} (x : Result A × Session)
    → ((u : ℕ) → Ensures (λ s. IsGoodRow (s.current.byok_keys u)) x)
    → Ensures (λ s. IsGood s.current) x
gather (ok a, s) h = h
gather (err e, s) h = tt

-- With nothing uncommitted before it, a call that sets, toggles, deletes or marks a key commits
-- a database in which every enabled key is valid, if the one before was such, whatever its
-- outcome.
pub call_request-IsGood :
    (settings : ByokSettings) (user_id : ℕ) (call : KeyCall) (s : Session)
    → s.committed ≡ s.current
    → IsGood s.committed
    → IsGood (session_scope (call_byok settings user_id call) s).1.committed
unfolding session_scope
call_request-IsGood settings user_id call s start h =
    let opened : IsGood s.current = rw (← start) h in
    settle_keeps IsGood (call_byok settings user_id call s) s.committed h
      (gather (call_byok settings user_id call s)
        λ u. call-IsGoodRow settings user_id call s u (opened u) (opened user_id))
      (committed-call settings user_id call s)

-- what was answered, if anything was, is the status
abbrev pub AnswersStatus : ByokSettings → ℕ → Result (Option ByokResult) × Session → Type 0
AnswersStatus settings user_id (ok (some r), s) =
    status_of_row settings (s.current.byok_keys user_id) ≡ r
AnswersStatus settings user_id (ok none, s) = Unit
AnswersStatus settings user_id (err e, s) = Unit

module _ (settings : ByokSettings) (user_id : ℕ) (s : Session) where
  store_status :
      (entropy : Entropy) (api_key : Text) (status : ByokState) (provider : Option Text)
      → AnswersStatus settings user_id
          ((store_key settings entropy user_id api_key status provider >>= λ r. pure (some r)) s)
  unfolding store_key record_event status_of_row
  store_status entropy api_key status provider = ground arith

  set_status :
      (entropy : Entropy) (api_key : Text) (provider : Option Text)
      → AnswersStatus settings user_id
          ((set_with_provider settings entropy user_id api_key provider >>= λ r. pure (some r)) s)
  unfolding set_with_provider
  set_status entropy api_key none = store_status entropy api_key ByokState.invalid none
  set_status entropy api_key (some provider) =
      store_status entropy api_key (status_of_validation (settings.validate_key provider api_key))
        (some provider)

  toggle_status :
      (enabled : Bool)
      → IsGoodRow (s.current.byok_keys user_id)
      → AnswersStatus settings user_id ((toggle settings user_id enabled >>= λ r. pure (some r)) s)
  unfolding toggle record_event status_of_row
  toggle_status enabled h = ground arith

  -- Where every enabled key is valid, what a call answers, if it answers a status, is what the
  -- status is after it.
  call_status :
      (call : KeyCall)
      → IsGood s.current
      → AnswersStatus settings user_id (call_byok settings user_id call s)
  unfolding call_byok set_key status_of_row delete_key record_event mark_invalid mark_expired
  call_status (KeyCall.set entropy api_key) h =
      set_status entropy api_key (detect_byok_provider api_key)
  call_status (KeyCall.switch enabled) h = toggle_status enabled (h user_id)
  call_status KeyCall.delete h = ground arith
  call_status KeyCall.invalidate h = ground arith
  call_status KeyCall.expire h = ground arith

-- After a key was marked invalid or expired, the policy engine allows no answer on it, at any
-- time.
mark_blocks :
    (user_id t : ℕ) (s s' s'' : Session)
    → mark_invalid user_id s ≡ (ok tt, s')
    → mark_expired user_id s ≡ (ok tt, s'')
    → ((evaluate (policy_state user_id s'.current t) Mode.byok).allow ≡ false)
      × ((evaluate (policy_state user_id s''.current t) Mode.byok).allow ≡ false)
unfolding mark_invalid mark_expired record_event evaluate policy_state
mark_blocks user_id t s s' s'' h k = (ground arith, ground arith)
