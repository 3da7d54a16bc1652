-- ===== src/Website/Tokens.antt =====
-- What a preview token of src/app/website/signed_url.py is good for.
use model_lib.Base.{
  ℕ, zero, suc, ◌+◌, ◌-◌, ◌/◌, ◌%◌, ◌≤◌, ◌≡◌, ◌≢◌, ◌⊎◌, Bool-cases, inl, inr, refl, sym, ap, ◌∙◌,
  true, false, Option, none, some, List, [], ◌∷◌, ◌++◌, arith, leb, if◌then◌else◌, length,
}
use mathlib.Core.Path.{subst}
use model_lib.Base.Int.{pos}
use model_lib.Base.Text.{Text, text_eq, text_eq_iff, text_eq_refl, is_empty, decimal, decimal_from}
use model_lib.Base.Split.{has_code, split, split_two, split-append}
use model_lib.Json.{Runtime, int_text}
use model_lib.Codec.{Codec}
use model_lib.Website.SignedUrl.{
  PreviewSettings, SignedPreview, rstrip_padding, padding, b64url_encode, b64url_decode, canonical,
  build_token, is_ascii, read_exp, is_current, read_parts, check_mac, verify_token,
}

-- What base64 documents of the encoding of some bytes: a body of other characters than `=` and `.`,
-- at most two `=` that fill it up to a multiple of four, and a decoder that reads it back.
pub record IsBase64 (codec : Codec) (content : List ℕ) (body : Text) (pad : ℕ) : Type 0 where
  pub encoded : codec.urlsafe_b64encode content ≡ body ++ padding pad
  pub decoded : codec.urlsafe_b64decode (body ++ padding pad) ≡ some content
  pub short : pad ≤ 2
  pub filled : (length body + pad) % 4 ≡ 0
  pub no_padding : has_code b'=' body ≡ false
  pub no_dot : has_code b'.' body ≡ false

rstrip-padding : (n : ℕ) → rstrip_padding (padding n) ≡ []
unfolding rstrip_padding padding
rstrip-padding zero = refl
rstrip-padding (suc n) = rw (rstrip-padding n)

rstrip-body :
    (body : Text) (n : ℕ) → has_code b'=' body ≡ false → rstrip_padding (body ++ padding n) ≡ body
unfolding rstrip_padding has_code
rstrip-body [] n h = rstrip-padding n
rstrip-body (c ∷ []) n h = rw (rstrip-padding n) (ground arith)
rstrip-body (c ∷ a ∷ body) n h = rw (rstrip-body (a ∷ body) n (ground arith))

-- The stripped padding is put back: the text of some bytes is read as those bytes.
module _ (codec : Codec) (content : List ℕ) (body : Text) (pad : ℕ)
    (b : IsBase64 codec content body pad) where
  encode_body : b64url_encode codec content ≡ body
  unfolding b64url_encode
  encode_body = ap rstrip_padding b.encoded ∙ rstrip-body body pad b.no_padding

  decode-encode : b64url_decode codec body ≡ some content
  unfolding b64url_decode
  decode-encode =
      let same : (4 - length body % 4) % 4 ≡ pad = omega (arith, b.short, b.filled) in
      ap (λ n. codec.urlsafe_b64decode (body ++ padding n)) same ∙ b.decoded

is_ascii-decimal_from :
    (f n : ℕ) (acc : Text) → is_ascii acc ≡ true → is_ascii (decimal_from f n acc) ≡ true
unfolding decimal_from is_ascii
is_ascii-decimal_from zero n acc h = h
is_ascii-decimal_from (suc f) n acc h =
    ground (arith, is_ascii-decimal_from f (n / 10) ((48 + n % 10) ∷ acc))

is_ascii-decimal : (n : ℕ) → is_ascii (decimal n) ≡ true
unfolding decimal is_ascii
is_ascii-decimal n = is_ascii-decimal_from (suc n) n [] refl

-- the texts and the bytes of one token
module _ (codec : Codec) (py : Runtime) (settings : PreviewSettings)
    (project_id owner_user_id exp : ℕ) (exp_body mac_body : Text) (exp_pad mac_pad : ℕ) where
  abbrev pub mac_of : List ℕ
  mac_of =
      codec.hmac_sha256 settings.preview_url_secret
        (canonical py project_id owner_user_id (pos exp))

  -- the token of an expiry is read back
  abbrev pub IsReadable : Type 0
  IsReadable =
      IsBase64 codec (decimal exp) exp_body exp_pad
      × IsBase64 codec mac_of mac_body mac_pad
      × (codec.int_of_text (decimal exp) ≡ some (pos exp))

  read_token :
      (q o now : ℕ)
      → IsReadable
      → verify_token codec py settings q o (exp_body ++ (b'.' ∷ mac_body)) now
        ≡ check_mac codec py settings q o now (pos exp) mac_of
  unfolding verify_token read_exp read_parts
  read_token q o now (e, m, i) = ground (
    arith,
    split_two b'.' exp_body mac_body e.no_dot m.no_dot,
    decode-encode codec (decimal exp) exp_body exp_pad e,
    is_ascii-decimal exp,
    decode-encode codec mac_of mac_body mac_pad m,
  )

  -- the token that was built is made of these texts
  pub built_lem :
      (now : ℕ) (signed : SignedPreview)
      → IsReadable
      → exp ≡ now + settings.preview_url_ttl_seconds
      → build_token codec py settings project_id owner_user_id now ≡ some signed
      → (is_empty settings.preview_url_secret ≡ false)
        × (signed.expires_at ≡ exp)
        × (signed.token ≡ exp_body ++ (b'.' ∷ mac_body))
  unfolding build_token
  built_lem now signed (e, m, i) x h =
      let expiry : now + settings.preview_url_ttl_seconds ≡ exp = sym x in
      let built = subst (λ n. build_at n ≡ some signed) expiry h in
      ground (
        arith,
        encode_body codec (decimal exp) exp_body exp_pad e,
        encode_body codec mac_of mac_body mac_pad m,
      )
    where
      build_at : ℕ → Option SignedPreview
      build_at n =
          if is_empty settings.preview_url_secret
          then none
          else some (record {
            token =
                b64url_encode codec (decimal n)
                ++ (b'.'
                    ∷ b64url_encode codec (
                        codec.hmac_sha256 settings.preview_url_secret
                          (canonical py project_id owner_user_id (pos n))));
            expires_at = n;
          })

  -- A link that was signed for a project and its owner is accepted for them exactly until it
  -- expires.
  pub verify-build :
      (now later : ℕ) (signed : SignedPreview)
      → IsReadable
      → exp ≡ now + settings.preview_url_ttl_seconds
      → build_token codec py settings project_id owner_user_id now ≡ some signed
      → verify_token codec py settings project_id owner_user_id signed.token later
        ≡ some (leb later (now + settings.preview_url_ttl_seconds))
  unfolding check_mac is_current
  verify-build now later signed r x h =
      let (s, e, t) = built_lem now signed r x h in
      rw t (rw (read_token project_id owner_user_id later r) (ground (arith, text_eq_refl mac_of)))

  -- two messages with one signature: that of the link, and that of another project or owner
  abbrev pub IsForged : (q o : ℕ) → Type 0
  IsForged q o =
      (canonical py project_id owner_user_id (pos exp) ≢ canonical py q o (pos exp))
      × (mac_of ≡ codec.hmac_sha256 settings.preview_url_secret (canonical py q o (pos exp)))

  -- Where base64 and int read the token back, and the texts of two ids are the same only for the
  -- same id and have no bar in them, a link that was signed for a project and its owner is
  -- accepted for that project and that owner alone, unless the message of another project or
  -- owner has the very signature of the link's.
  pub verify_binds :
      (now later q o : ℕ) (signed : SignedPreview)
      → IsReadable
      → exp ≡ now + settings.preview_url_ttl_seconds
      → build_token codec py settings project_id owner_user_id now ≡ some signed
      → ((u v : ℕ) → py.uuid_text u ≡ py.uuid_text v → u ≡ v)
      → ((u : ℕ) → has_code b'|' (py.uuid_text u) ≡ false)
      → verify_token codec py settings q o signed.token later ≡ some true
      → ((q ≡ project_id) × (o ≡ owner_user_id)) ⊎ IsForged q o
  unfolding check_mac canonical
  verify_binds now later q o signed r x h uuid_inj no_bar v =
      let (s, e, t) = built_lem now signed r x h in
      let checked : check_mac codec py settings q o later (pos exp) mac_of ≡ some true =
        sym (read_token q o later r)
        ∙ sym (ap (λ k. verify_token codec py settings q o k later) t)
        ∙ v in
      let equal : text_eq mac_of
            (codec.hmac_sha256 settings.preview_url_secret (canonical py q o (pos exp)))
          ≡ true =
        ground arith in
      let mine = canonical py project_id owner_user_id (pos exp) in
      let theirs = canonical py q o (pos exp) in
      elim (Bool-cases (text_eq mine theirs)) [
        | inl same ↦ inl (one_message ((text_eq_iff mine theirs).0 same))
        | inr apart ↦
            inr
              (λ same. ground (arith, (text_eq_iff mine theirs).1 same), (text_eq_iff _ _).0 equal)
      ]
    where
      split_canonical :
          (p w : ℕ)
          → split b'|' (canonical py p w (pos exp))
            ≡ py.uuid_text p ∷ py.uuid_text w ∷ split b'|' (int_text (pos exp))
      split_canonical p w =
          split-append b'|' (py.uuid_text p) (py.uuid_text w ++ (b'|' ∷ int_text (pos exp)))
            (no_bar p)
          ∙ ap (λ r. py.uuid_text p ∷ r)
              (split-append b'|' (py.uuid_text w) (int_text (pos exp)) (no_bar w))

      one_message :
          canonical py project_id owner_user_id (pos exp) ≡ canonical py q o (pos exp)
          → (q ≡ project_id) × (o ≡ owner_user_id)
      one_message message =
          let parts =
            sym (split_canonical project_id owner_user_id)
            ∙ ap (split b'|') message
            ∙ split_canonical q o in
          (uuid_inj q project_id (cc parts), uuid_inj o owner_user_id (cc parts))
