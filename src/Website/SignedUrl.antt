-- ===== src/Website/SignedUrl.antt =====
-- src/app/website/signed_url.py: the tokens of preview links.
use model_lib.Base.{
  ℕ, zero, suc, ◌+◌, ◌-◌, ◌%◌, Bool, true, false, ◌&&◌, Option, none, some, List, [], ◌∷◌, ◌++◌,
  ltb, leb, ◌==◌, if◌then◌else◌, length,
}
use model_lib.Base.Int.{ℤ, pos, negsuc}
use model_lib.Base.Text.{Text, text_eq, is_empty, decimal}
use model_lib.Base.Split.{split}
use model_lib.Codec.{Codec}
use model_lib.Json.{Runtime, int_text}

pub record PreviewSettings : Type 0 where
  pub preview_url_secret : Text
  pub preview_url_ttl_seconds : ℕ

pub record SignedPreview : Type 0 where
  pub token : Text
  -- seconds from 1970
  pub expires_at : ℕ

-- `s.rstrip("=")`: padding is dropped where nothing else stands behind it
unfoldable pub put_unless_padding : ℕ → Text → Text
put_unless_padding c [] = if c == b'=' then [] else c ∷ []
put_unless_padding c (a ∷ s) = c ∷ a ∷ s

unfoldable pub rstrip_padding : Text → Text
unfolding put_unless_padding
rstrip_padding [] = []
rstrip_padding (c ∷ s) = put_unless_padding c (rstrip_padding s)

-- `"=" * n`
unfoldable pub padding : ℕ → Text
padding zero = []
padding (suc n) = b'=' ∷ padding n

-- `_b64url_encode`
unfoldable pub b64url_encode : Codec → List ℕ → Text
unfolding rstrip_padding
b64url_encode codec content = rstrip_padding (codec.urlsafe_b64encode content)

-- `_b64url_decode`; `-len(value) % 4`
unfoldable pub b64url_decode : Codec → Text → Option (List ℕ)
unfolding padding
b64url_decode codec value = codec.urlsafe_b64decode (value ++ padding ((4 - length value % 4) % 4))

-- `_canonical`; the text is ASCII, so its bytes are its codes
unfoldable pub canonical : Runtime → (project_id owner_user_id : ℕ) → (exp : ℤ) → Text
unfolding int_text
canonical py project_id owner_user_id exp =
    py.uuid_text project_id ++ (b'|' ∷ (py.uuid_text owner_user_id ++ (b'|' ∷ int_text exp)))

-- `build_token`; `none` for `PreviewSecretMissingError`
unfoldable pub build_token :
    Codec → Runtime → PreviewSettings → (project_id owner_user_id now : ℕ) → Option SignedPreview
unfolding b64url_encode canonical is_empty decimal
build_token codec py settings project_id owner_user_id now =
    let exp = now + settings.preview_url_ttl_seconds in
    let mac =
      codec.hmac_sha256 settings.preview_url_secret
        (canonical py project_id owner_user_id (pos exp)) in
    if is_empty settings.preview_url_secret
    then none
    else some (record {
      token = b64url_encode codec (decimal exp) ++ (b'.' ∷ b64url_encode codec mac);
      expires_at = exp;
    })

-- `bytes.decode("ascii")`
unfoldable pub is_ascii : List ℕ → Bool
is_ascii [] = true
is_ascii (c ∷ content) = ltb c 128 && is_ascii content

unfoldable pub read_exp : Codec → Text → Option ℤ
unfolding b64url_decode is_ascii
read_exp codec part = elim (b64url_decode codec part) [
  | none ↦ none
  | some content ↦ if is_ascii content then codec.int_of_text content else none
]

-- `current <= exp`
unfoldable pub is_current : (now : ℕ) → ℤ → Bool
is_current now (pos exp) = leb now exp
is_current now (negsuc _) = false

unfoldable pub read_parts : List Text → Option (Text × Text)
read_parts (exp_part ∷ mac_part ∷ []) = some (exp_part, mac_part)
read_parts _ = none

-- the comparison of the signatures, then the expiry; `none` for `PreviewSecretMissingError`
unfoldable pub check_mac :
    Codec
    → Runtime
    → PreviewSettings
    → (project_id owner_user_id now : ℕ) → (exp : ℤ) → (presented_mac : List ℕ) → Option Bool
unfolding canonical is_current is_empty text_eq
check_mac codec py settings project_id owner_user_id now exp presented_mac =
    if is_empty settings.preview_url_secret
    then none
    else some (
        text_eq presented_mac (
          codec.hmac_sha256 settings.preview_url_secret (canonical py project_id owner_user_id exp))
        && is_current now exp)

-- `verify_token`
unfoldable pub verify_token :
    Codec
    → Runtime
    → PreviewSettings
    → (project_id owner_user_id : ℕ) → (token : Text) → (now : ℕ) → Option Bool
unfolding read_exp b64url_decode check_mac split read_parts
verify_token codec py settings project_id owner_user_id token now =
    elim (read_parts (split b'.' token)) [
      | none ↦ some false
      | some (exp_part, mac_part) ↦ elim (read_exp codec exp_part) [
        | none ↦ some false
        | some exp ↦ elim (b64url_decode codec mac_part) [
          | none ↦ some false
          | some mac ↦ check_mac codec py settings project_id owner_user_id now exp mac
        ]
      ]
    ]
