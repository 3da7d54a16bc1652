-- ===== src/Chats/Cursor.antt =====
-- src/app/chats/cursor.py: the opaque cursor of the list of chats.
use model_lib.Base.{
  ℕ, ◌≡◌, refl, Bool, true, false, not, Option, none, some, List, [], ◌∷◌, ◌++◌, arith, ◌==◌,
  if◌then◌else◌,
}
use model_lib.Base.Int.{pos, negsuc}
use model_lib.Base.Text.{Text}
use model_lib.Base.Split.{has_code}
use model_lib.Json.{IsoTime, Runtime}
use model_lib.Codec.{Codec}
use model_lib.Website.SignedUrl.{is_ascii}

pub record ChatCursor : Type 0 where
  pub is_pinned : Bool
  pub updated_at : ℕ
  pub id : ℕ

-- `str(int(is_pinned))`
unfoldable pub pinned_text : Bool → Text
pinned_text true = b'1' ∷ []
pinned_text false = b'0' ∷ []

-- what stands before the first bar and behind it; `none` where there is no bar
unfoldable pub cut_bar : Text → Option (Text × Text)
cut_bar [] = none
cut_bar (c ∷ s) =
    let rest = cut_bar s in
    if c == b'|' then some ([], s) else elim rest [ none ↦ none | some (a, b) ↦ some (c ∷ a, b) ]

-- `datetime.isoformat` is an argument
module _ (codec : Codec) (py : Runtime) (isoformat : ℕ → Text) where
  unfoldable pub raw_cursor : ChatCursor → Text
  unfolding pinned_text
  raw_cursor c =
      pinned_text c.is_pinned ++ (b'|' ∷ (isoformat c.updated_at ++ (b'|' ∷ py.uuid_text c.id)))

  -- `encode`; the text is ASCII, so its bytes are its codes
  unfoldable pub encode_cursor : ChatCursor → Text
  unfolding raw_cursor
  encode_cursor c = codec.urlsafe_b64encode (raw_cursor c)

  -- `bool(int(text))`
  unfoldable pub read_pinned : Text → Option Bool
  read_pinned text = elim (codec.int_of_text text) [
    | none ↦ none
    | some (pos n) ↦ some (not (n == 0))
    | some (negsuc n) ↦ some true
  ]

  -- a date without an offset is taken to be UTC
  unfoldable pub read_time : Text → Option ℕ
  read_time text = elim (py.fromisoformat text) [
    | none ↦ none
    | some (IsoTime.naive t) ↦ some t
    | some (IsoTime.aware t) ↦ some t
  ]

  unfoldable pub read_fields : (pinned updated id : Text) → Option ChatCursor
  unfolding read_pinned read_time
  read_fields pinned updated id = elim (read_time updated) [
    | none ↦ none
    | some t ↦ elim (read_pinned pinned) [
      | none ↦ none
      | some p ↦ elim (py.uuid id) [
        | none ↦ none
        | some u ↦ some (record { is_pinned = p; updated_at = t; id = u })
      ]
    ]
  ]

  -- `raw.split("|", 2)`
  unfoldable pub read_raw : Text → Option ChatCursor
  unfolding cut_bar read_fields
  read_raw raw = elim (cut_bar raw) [
    | none ↦ none
    | some (pinned, rest) ↦ elim (cut_bar rest) [
      | none ↦ none
      | some (updated, id) ↦ read_fields pinned updated id
    ]
  ]

  unfoldable pub read_bytes : Option (List ℕ) → Option ChatCursor
  unfolding read_raw
  read_bytes none = none
  read_bytes (some content) = elim (codec.decode content) [ none ↦ none | some raw ↦ read_raw raw ]

  -- `decode`; `none` for `InvalidCursorError`
  unfoldable pub decode_cursor : Text → Option ChatCursor
  unfolding is_ascii read_bytes
  decode_cursor value = if is_ascii value then read_bytes (codec.urlsafe_b64decode value) else none

  cut-append : (a b : Text) → has_code b'|' a ≡ false → cut_bar (a ++ (b'|' ∷ b)) ≡ some (a, b)
  unfolding cut_bar has_code
  cut-append [] b h = refl
  cut-append (c ∷ a) b h = ground (arith, cut-append a b)

  -- What the standard library documents of the parts of one cursor.
  pub record IsReadable (c : ChatCursor) : Type 0 where
    pub ascii : is_ascii (codec.urlsafe_b64encode (raw_cursor c)) ≡ true
    pub base64 :
        codec.urlsafe_b64decode (codec.urlsafe_b64encode (raw_cursor c)) ≡ some (raw_cursor c)
    pub utf8 : codec.decode (raw_cursor c) ≡ some (raw_cursor c)
    pub zero_text : codec.int_of_text (b'0' ∷ []) ≡ some (pos 0)
    pub one_text : codec.int_of_text (b'1' ∷ []) ≡ some (pos 1)
    pub time : py.fromisoformat (isoformat c.updated_at) ≡ some (IsoTime.aware c.updated_at)
    pub time_no_bar : has_code b'|' (isoformat c.updated_at) ≡ false
    pub uuid : py.uuid (py.uuid_text c.id) ≡ some c.id

  pinned-read : (c : ChatCursor) → IsReadable c → (b : Bool) → read_pinned (pinned_text b) ≡ some b
  unfolding read_pinned pinned_text
  pinned-read c r true = ground (arith, r.one_text)
  pinned-read c r false = ground (arith, r.zero_text)

  pinned_no_bar : (b : Bool) → has_code b'|' (pinned_text b) ≡ false
  unfolding pinned_text has_code
  pinned_no_bar true = refl
  pinned_no_bar false = refl

  read-raw : (c : ChatCursor) → IsReadable c → read_raw (raw_cursor c) ≡ some c
  unfolding read_raw raw_cursor read_fields read_time
  read-raw c r = ground (
    arith,
    cut-append (pinned_text c.is_pinned) (isoformat c.updated_at ++ (b'|' ∷ py.uuid_text c.id))
        (pinned_no_bar c.is_pinned),
    cut-append (isoformat c.updated_at) (py.uuid_text c.id) r.time_no_bar,
    pinned-read c r c.is_pinned,
    r.time,
    r.uuid,
  )

  -- Where the standard library reads its parts back, the cursor that a page of chats hands out
  -- is read back as the position that it stands for.
  pub decode-encode : (c : ChatCursor) → IsReadable c → decode_cursor (encode_cursor c) ≡ some c
  unfolding decode_cursor encode_cursor read_bytes
  decode-encode c r = ground (arith, r.ascii, r.base64, r.utf8, read-raw c r)
