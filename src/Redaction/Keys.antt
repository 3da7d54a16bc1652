-- ===== src/Redaction/Keys.antt =====
-- The keys whose values are secret, by name or by a part of the name, and the test of
-- src/app/observability/redaction.py that has to find them.
use model_lib.Base.{String, ◌≡◌, ◌⊎◌, refl, true, false, List, [], ◌∷◌, ◌++◌, arith, inl, inr}
use mathlib.Core.List.{Memᴰ}
use mathlib.Core.List.Memᴰ
use model_lib.Base.Text.{
  Text, codes, text_eq_iff, text_mem, starts_with, ends_with, has_infix, lower,
}
use model_lib.Redaction.{any_infix, deny_exact, deny_substrings, is_sensitive_key}

abbrev pub secret_names : List Text
secret_names =
    codes "apikey"
    ∷ codes "transaction"
    ∷ codes "jws"
    ∷ codes "receipt"
    ∷ codes "dek"
    ∷ codes "nonce"
    ∷ codes "encrypted_key"
    ∷ codes "x-admin-token"
    ∷ codes "x_admin_token"
    ∷ []

abbrev pub secret_parts : List Text
secret_parts =
    codes "key"
    ∷ codes "token"
    ∷ codes "secret"
    ∷ codes "password"
    ∷ codes "authorization"
    ∷ codes "credential"
    ∷ []

-- `part` stands somewhere in the text
abbrev pub HasPart : (part text : Text) → Type 0
HasPart part text = (before : Text) × (behind : Text) × (text ≡ before ++ (part ++ behind))

-- Whatever the case of its letters, a key is secret that is a secret name or has a secret part, and
-- is no status.
abbrev pub IsSecret : String → Type 0
IsSecret k =
    (ends_with (lower (codes k)) (codes "status") ≡ false)
    × (Memᴰ (lower (codes k)) secret_names
        ⊎ ((part : Text) × Memᴰ part secret_parts × HasPart part (lower (codes k))))

text_mem_lem : (t : Text) (ts : List Text) → Memᴰ t ts → text_mem t ts ≡ true
unfolding text_mem
text_mem_lem t [] m = absurd (Memᴰ.not-nil m)
text_mem_lem t (u ∷ ts) m = elim (Memᴰ.cases_cons m) [
  | inl same ↦ ground (arith, (text_eq_iff t u).1 same)
  | inr r ↦ ground (arith, text_mem_lem t ts r)
]

starts_with-append : (p r : Text) → starts_with (p ++ r) p ≡ true
unfolding starts_with
starts_with-append [] r = refl
starts_with-append (c ∷ p) r = ground (arith, starts_with-append p r)

infix_at_start : (p s : Text) → starts_with s p ≡ true → has_infix p s ≡ true
unfolding has_infix
infix_at_start p [] h = h
infix_at_start p (c ∷ s) h = ground arith

has_infix_lem : (p before behind : Text) → has_infix p (before ++ (p ++ behind)) ≡ true
unfolding has_infix
has_infix_lem p [] behind = infix_at_start p (p ++ behind) (starts_with-append p behind)
has_infix_lem p (c ∷ before) behind = ground (arith, has_infix_lem p before behind)

any_infix_lem :
    (part : Text) (parts : List Text) (text : Text)
    → Memᴰ part parts
    → HasPart part text
    → any_infix parts text ≡ true
unfolding any_infix
any_infix_lem part [] text m h = absurd (Memᴰ.not-nil m)
any_infix_lem part (p ∷ parts) text m (before, behind, e) = elim (Memᴰ.cases_cons m) [
  | inl same ↦ rw (e, ← same) (ground (arith, has_infix_lem part before behind))
  | inr r ↦ ground (arith, any_infix_lem part parts text r (before, behind, e))
]

-- every secret key is found
pub is_sensitive_key_lem : (k : String) → IsSecret k → is_sensitive_key k ≡ true
unfolding is_sensitive_key deny_exact deny_substrings
is_sensitive_key_lem k (s, inl m) = ground (arith, text_mem_lem (lower (codes k)) secret_names m)
is_sensitive_key_lem k (s, inr (part, m, h)) =
    ground (arith, any_infix_lem part secret_parts (lower (codes k)) m h)
