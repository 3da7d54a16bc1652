-- ===== src/Auth/Rows.antt =====
-- The rows of `auth_refresh_tokens` under the two UPDATEs of src/app/auth/service.py.
use model_lib.Base.{ℕ, ◌≡◌, inl, inr, none, some, List, [], ◌∷◌, arith, if◌then◌else◌, Bool-cases}
use model_lib.Base.Text.{Text, text_eq, text_eq_iff}
use model_lib.Tables.{AuthRefreshToken}
use model_lib.Auth.Tokens.{find_token, mark_used, revoke_row, revoke_rows, in_chain}

pub find-mark_used :
    (h : Text) (now : ℕ) (rows : List AuthRefreshToken) (row : AuthRefreshToken)
    → find_token h rows ≡ some row
    → find_token h (mark_used row.id now rows) ≡ some (record row { used_at = some now })
unfolding find_token mark_used
find-mark_used h now [] row e = absurd (ground arith)
find-mark_used h now (r ∷ rows) row e = grind (arith, find-mark_used h now rows row)

-- the row of a chain that was revoked
abbrev pub revoked_in : ℕ → Text → ℕ → AuthRefreshToken → AuthRefreshToken
revoked_in user_id device_id now row =
    if in_chain user_id device_id row then revoke_row now row else row

pub find-revoke_rows :
    (h : Text) (user_id now : ℕ) (device_id : Text) (rows : List AuthRefreshToken)
    (row : AuthRefreshToken)
    → find_token h rows ≡ some row
    → find_token h (revoke_rows user_id device_id now rows)
      ≡ some (revoked_in user_id device_id now row)
unfolding find_token revoke_rows
find-revoke_rows h user_id now device_id [] row e = absurd (ground arith)
find-revoke_rows h user_id now device_id (r ∷ rows) row e =
    grind (arith, find-revoke_rows h user_id now device_id rows row)

-- a token's row is found under a hash that another new row does not have
pub find-beside :
    (h : Text) (fresh row : AuthRefreshToken) (rows : List AuthRefreshToken)
    → find_token h rows ≡ some row
    → find_token fresh.token_hash rows ≡ none
    → find_token h (fresh ∷ rows) ≡ some row
unfolding find_token
find-beside h fresh row rows e n = elim (Bool-cases (text_eq fresh.token_hash h)) [
  | inl same ↦
      absurd
        (let e₂ : fresh.token_hash ≡ h = (text_eq_iff fresh.token_hash h).0 same in grind arith)
  | inr other ↦ ground arith
]
