-- ===== src/Auth/Refresh.antt =====
-- What the single use of a refresh token means in src/app/auth/service.py.
use model_lib.Base.{
  ℕ, ◌+◌, ◌*◌, ◌≡◌, refl, sym, ap, ◌∙◌, ◌≢◌, inl, inr, true, Option, none, some, ◌∷◌, arith,
  Option-cases,
}
use model_lib.Base.Text.{Text, text_eq_refl}
use model_lib.Errors.{AppError}
use model_lib.Tables.{AuthRefreshToken, Db}
use model_lib.Session.{Session, Result, ok, err, pure, commit, ◌>>=◌, ◌>>◌}
use model_lib.Audit.{check_user}
use model_lib.Auth.Tokens.{
  AuthSettings, issue_pair, Fresh, IssuedTokens, refresh, hash_refresh, find_token, mark_used,
  revoke_rows, revoke_row,
}
use model_lib.Auth.Rows.{find-mark_used, find-revoke_rows, find-beside, revoked_in}

-- what an exchange leaves: the row of the old token, used, and one of the new token, in one chain
record IsRotated (settings : AuthSettings) (token fresh : Text) (s : Session) : Type 0 where
  configured : settings.configured ≡ true
  old : AuthRefreshToken
  new : AuthRefreshToken
  used : ℕ
  finds_old : find_token (hash_refresh settings token) s.current.auth_refresh_tokens ≡ some old
  finds_new : find_token (hash_refresh settings fresh) s.current.auth_refresh_tokens ≡ some new
  is_used : old.used_at ≡ some used
  same_user : new.user_id ≡ old.user_id
  same_device : new.device_id ≡ old.device_id

module _ (settings : AuthSettings) where
  -- the row that an exchange inserts
  abbrev fresh_row : Fresh → AuthRefreshToken → Db → ℕ → AuthRefreshToken
  fresh_row f row db now = record {
    id = db.next_id;
    user_id = row.user_id;
    device_id = row.device_id;
    token_hash = hash_refresh settings f.refresh_token;
    expires_at = now + settings.auth_refresh_ttl_seconds * 1000000;
    used_at = none;
    revoked_at = none;
  }

  -- what issuing a pair to the user and the device of a row adds
  abbrev IsIssued : Fresh → AuthRefreshToken → Db → ℕ → IssuedTokens → Session → Type 0
  IsIssued f row db now r s =
      (settings.configured ≡ true)
      × (r.refresh_token ≡ f.refresh_token)
      × (find_token (hash_refresh settings f.refresh_token) db.auth_refresh_tokens ≡ none)
      × (s.current.auth_refresh_tokens ≡ fresh_row f row db now ∷ db.auth_refresh_tokens)

  issue_commit-IsIssued :
      (f : Fresh) (row : AuthRefreshToken) (s s₁ : Session) (r : IssuedTokens)
      → (do tokens ← issue_pair settings f row.user_id row.device_id; commit; pure tokens) s
        ≡ (ok r, s₁)
      → IsIssued f row s.current s.now r s₁
  unfolding issue_pair check_user
  issue_commit-IsIssued f row s s₁ r h = (ground arith, ground arith, ground arith, ground arith)

  module _ (f : Fresh) (token : Text) (s s₁ : Session) (r : IssuedTokens)
      (h : refresh settings f token s ≡ (ok r, s₁)) where
    exchanged_rows :
        (row : AuthRefreshToken)
        → find_token (hash_refresh settings token) s.current.auth_refresh_tokens ≡ some row
        → IsIssued f row
            (record s.current {
              auth_refresh_tokens = mark_used row.id s.now s.current.auth_refresh_tokens;
            })
            s.now
            r
            s₁
    unfolding refresh
    exchanged_rows row e =
        issue_commit-IsIssued f row
          (record s {
            current = record s.current {
              auth_refresh_tokens = mark_used row.id s.now s.current.auth_refresh_tokens;
            };
          })
          s₁ r (ground arith)

    token_known :
        (row : Option AuthRefreshToken)
        → find_token (hash_refresh settings token) s.current.auth_refresh_tokens ≡ row
        → row ≢ none
    unfolding refresh
    token_known row e n = absurd (ground arith)

    rotated :
        (row : AuthRefreshToken)
        → find_token (hash_refresh settings token) s.current.auth_refresh_tokens ≡ some row
        → IsRotated settings token r.refresh_token s₁
    unfolding find_token
    rotated row e =
        let (c, t, n, rows) = exchanged_rows row e in
        record {
          configured = c;
          old = record row { used_at = some s.now };
          new = fresh_row f row s.current s.now;
          used = s.now;
          finds_old = rw rows (
              find-beside (hash_refresh settings token) (fresh_row f row s.current s.now)
                (record row { used_at = some s.now })
                (mark_used row.id s.now s.current.auth_refresh_tokens)
                (find-mark_used (hash_refresh settings token) s.now s.current.auth_refresh_tokens
                  row e)
                n);
          finds_new =
              rw (rows, t) (ground (arith, text_eq_refl (hash_refresh settings f.refresh_token)));
          is_used = refl;
          same_user = refl;
          same_device = refl;
        }

    refresh-IsRotated : IsRotated settings token r.refresh_token s₁
    refresh-IsRotated =
        elim (Option-cases
          (find_token (hash_refresh settings token) s.current.auth_refresh_tokens)) [
            | inl e ↦ absurd (token_known none e refl)
            | inr (row, e) ↦ rotated row e
          ]

  -- a used token: its chain is revoked, and that is committed
  refresh_used :
      (f : Fresh) (token : Text) (s : Session) (row : AuthRefreshToken) (used : ℕ)
      → settings.configured ≡ true
      → find_token (hash_refresh settings token) s.current.auth_refresh_tokens ≡ some row
      → row.used_at ≡ some used
      → let db = record s.current {
        auth_refresh_tokens =
            revoke_rows row.user_id row.device_id s.now s.current.auth_refresh_tokens;
      } in
        refresh settings f token s
        ≡ (err AppError.unauthorized, record s { current = db; committed = db })
  unfolding refresh
  refresh_used f token s row used c e u = ground arith

  -- a revoked token is refused
  refresh_revoked :
      (f : Fresh) (token : Text) (s : Session) (row : AuthRefreshToken)
      → settings.configured ≡ true
      → find_token (hash_refresh settings token) s.current.auth_refresh_tokens ≡ some row
      → row.revoked_at ≢ none
      → (refresh settings f token s).0 ≡ err AppError.unauthorized
  unfolding refresh
  refresh_revoked f token s row c e h = ground arith

  revoked_in_chain :
      (now : ℕ) (row : AuthRefreshToken)
      → (revoked_in row.user_id row.device_id now row).revoked_at ≢ none
  unfolding revoke_row
  revoked_in_chain now row = ground (arith, text_eq_refl row.device_id)

-- A refresh token that was exchanged is refused when it is presented again on the rows that the
-- exchange left, and the revocation is committed at once: on the rows that this leaves, the
-- refresh token that it was exchanged for is refused too, at any time.
pub refresh-refresh :
    (settings : AuthSettings) (f₁ f₂ f₃ : Fresh) (token : Text) (s s₁ s₂ s₃ : Session)
    (r : IssuedTokens) (x : Result IssuedTokens)
    → refresh settings f₁ token s ≡ (ok r, s₁)
    → s₂.current ≡ s₁.current
    → refresh settings f₂ token s₂ ≡ (x, s₃)
    → (x ≡ err AppError.unauthorized)
      × (s₃.committed ≡ s₃.current)
      × ((s₄ : Session)
          → s₄.current ≡ s₃.current
          → (refresh settings f₃ r.refresh_token s₄).0 ≡ err AppError.unauthorized)
unfolding refresh
refresh-refresh settings f₁ f₂ f₃ token s s₁ s₂ s₃ r x h same k =
    let i = refresh-IsRotated settings f₁ token s s₁ r h in
    let used =
      refresh_used settings f₂ token s₂ i.old i.used i.configured (rw same i.finds_old) i.is_used in
    let e = ap (λ p. p.1) (sym k ∙ used) in
    (
      ap (λ p. p.0) (sym k ∙ used),
      rw e refl,
      λ s₄ later.
          refresh_revoked settings f₃ r.refresh_token s₄
            (revoked_in i.old.user_id i.old.device_id s₂.now i.new) i.configured
            (rw (later, e)
              (find-revoke_rows (hash_refresh settings r.refresh_token) i.old.user_id s₂.now
                i.old.device_id s₂.current.auth_refresh_tokens i.new (rw same i.finds_new)))
            (rw (← i.same_user, ← i.same_device) (revoked_in_chain settings s₂.now i.new)),
    )
