-- ===== src/Auth/Devices.antt =====
-- The devices of src/app/auth/service.py that register.
use model_lib.Base.{ℕ, ◌≡◌, false, some, arith}
use model_lib.Base.Text.{Text, text_eq_refl, is_empty}
use model_lib.Session.{Session, Result, ok, err}
use model_lib.Audit.{check_user}
use model_lib.Auth.Tokens.{AuthSettings, Fresh, IssuedTokens, register_or_token, issue_pair}
use model_lib.Auth.Identity.{find_or_create_identity}

-- what an answered registration leaves bound
abbrev AnswersBound : Text → Result IssuedTokens × Session → Type 0
AnswersBound device_id (ok r, s) =
    (s.current.auth_devices device_id ≡ some r.user_id) × (r.device_id ≡ device_id)
AnswersBound device_id (err e, s) = Unit

register_binds :
    (settings : AuthSettings) (f : Fresh) (device_id : Text) (s : Session)
    → is_empty device_id ≡ false
    → AnswersBound device_id (register_or_token settings f (some device_id) s)
unfolding register_or_token check_user find_or_create_identity issue_pair
register_binds settings f device_id s d = ground (arith, text_eq_refl device_id)

abbrev AnswersAs : ℕ → Result IssuedTokens × Session → Type 0
AnswersAs user_id (ok r, s) = r.user_id ≡ user_id
AnswersAs user_id (err e, s) = Unit

register_bound :
    (settings : AuthSettings) (f : Fresh) (device_id : Text) (user_id : ℕ) (s : Session)
    → is_empty device_id ≡ false
    → s.current.auth_devices device_id ≡ some user_id
    → AnswersAs user_id (register_or_token settings f (some device_id) s)
unfolding register_or_token check_user find_or_create_identity issue_pair
register_bound settings f device_id user_id s d h = ground arith

-- A device that was registered answers the same user when it registers again.
register-register :
    (settings : AuthSettings) (f f' : Fresh) (device_id : Text) (s s₁ s₂ s₃ : Session)
    (r r' : IssuedTokens)
    → is_empty device_id ≡ false
    → register_or_token settings f (some device_id) s ≡ (ok r, s₁)
    → s₂.current ≡ s₁.current
    → register_or_token settings f' (some device_id) s₂ ≡ (ok r', s₃)
    → (r'.user_id ≡ r.user_id) × (r'.device_id ≡ device_id)
register-register settings f f' device_id s s₁ s₂ s₃ r r' d h same h' = (
  grind (
    arith,
    register_binds settings f device_id s d,
    register_bound settings f' device_id r.user_id s₂ d,
  ),
  grind (arith, register_binds settings f' device_id s₂ d),
)
