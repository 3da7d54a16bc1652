-- ===== src/Website/Canonical.antt =====
-- What src/app/website/paths.py accepts and what it makes of it.
use model_lib.Base.{
  ℕ, ◌≡◌, refl, sym, ap, ◌∙◌, ◌≢◌, ◌↔◌, true, false, some, List, [], ◌∷◌, arith, ◌==◌, Bool-cases,
  Option-cases, inl, inr, All,
}
use mathlib.Core.Path.{subst}
use model_lib.Base.Text.{Text, text_eq_iff, is_empty, starts_with}
use model_lib.Base.Split.{
  has_code, split, join, grow, split-join, join-split, All-split, All-split_lacks, has_code-join,
}
use model_lib.Website.Paths.{
  is_refused, is_skipped, is_parent, keep_segments, join_segments, normalize_site_path, IsPlain,
  IsCanonical,
}

is_plain_lem : (s : Text) → is_skipped s ≡ false → is_parent s ≡ false → IsPlain s
unfolding is_skipped is_parent is_empty
is_plain_lem [] h k = absurd (ground arith)
is_plain_lem (c ∷ s) h k = (
  λ e. cc,
  λ e. ground (arith, text_eq_iff (c ∷ s) (b'.' ∷ [])),
  λ e. ground (arith, text_eq_iff (c ∷ s) (b'.' ∷ b'.' ∷ [])),
)

plain_tests : (s : Text) → IsPlain s → (is_skipped s ≡ false) × (is_parent s ≡ false)
unfolding is_skipped is_parent is_empty
plain_tests [] (h, _, _) = absurd (h refl)
plain_tests (c ∷ s) (h, k, l) =
    ground (arith, text_eq_iff (c ∷ s) (b'.' ∷ []), text_eq_iff (c ∷ s) (b'.' ∷ b'.' ∷ []))

module _ (P : Text → Type 0) where
  keep_segments-All :
      (segments kept : List Text) → All P segments → keep_segments segments ≡ some kept → All P kept
  unfolding keep_segments
  keep_segments-All [] kept h e = let same : [] ≡ kept = ground arith in subst (All P) same h
  keep_segments-All (s ∷ segments) kept (p, h) e = elim (Option-cases (keep_segments segments)) [
    | inl n ↦ absurd (ground arith)
    | inr (r, q) ↦ elim (Bool-cases (is_skipped s)) [
      | inl skip ↦ keep_segments-All segments kept h (ground arith)
      | inr keep ↦
          let same : s ∷ r ≡ kept = ground arith in
          subst (All P) same (p, keep_segments-All segments r h q)
    ]
  ]

keep_segments-IsPlain :
    (segments kept : List Text) → keep_segments segments ≡ some kept → All IsPlain kept
unfolding keep_segments
keep_segments-IsPlain [] kept e = let same : [] ≡ kept = ground arith in subst (All IsPlain) same tt
keep_segments-IsPlain (s ∷ segments) kept e = elim (Option-cases (keep_segments segments)) [
  | inl n ↦ absurd (ground arith)
  | inr (r, q) ↦ elim (Bool-cases (is_skipped s)) [
    | inl skip ↦ keep_segments-IsPlain segments kept (ground arith)
    | inr keep ↦
        let same : s ∷ r ≡ kept = ground arith in
        let up : is_parent s ≡ false = ground arith in
        subst (All IsPlain) same (is_plain_lem s keep up, keep_segments-IsPlain segments r q)
  ]
]

-- plain segments are all kept
keep_segments_self :
    (segments : List Text) → All IsPlain segments → keep_segments segments ≡ some segments
unfolding keep_segments
keep_segments_self [] h = refl
keep_segments_self (s ∷ segments) (p, h) =
    ground (arith, plain_tests s p, keep_segments_self segments h)

slash_first : (c : ℕ) (s : Text) → (c == b'/') ≡ true → split b'/' (c ∷ s) ≡ [] ∷ split b'/' s
unfolding split
slash_first c s e = ground arith

-- a path whose segments are plain is refused for a NUL or a backslash only
canonical_allowed : (path : Text) → IsCanonical path → is_refused path ≡ false
unfolding is_refused is_empty starts_with split
canonical_allowed [] (_, _, h) = absurd (h.0.0 refl)
canonical_allowed (c ∷ s) (n, b, h) = elim (Bool-cases (c == b'/')) [
  | inl e ↦ absurd ((subst (All IsPlain) (slash_first c s e) h).0.0 refl)
  | inr e ↦ ground arith
]

refused_not :
    (raw : Text) → is_refused raw ≡ false → (has_code 0 raw ≡ false) × (has_code b'\\' raw ≡ false)
unfolding is_refused
refused_not raw h = ground arith

join_segments_self :
    (path : Text) (parts : List Text)
    → split b'/' path ≡ parts
    → parts ≢ []
    → join_segments parts ≡ some path
unfolding join_segments
join_segments_self path [] e n = absurd (n refl)
join_segments_self path (p ∷ parts) e n = ap some (ap (join b'/') (sym e) ∙ join-split b'/' path)

split-ne_nil : (path : Text) → split b'/' path ≢ []
unfolding split grow
split-ne_nil [] = λ e. cc
split-ne_nil (c ∷ s) =
    λ e. absurd (elim (Bool-cases (c == b'/')) [ inl t ↦ ground arith | inr f ↦ ground arith ])

-- A canonical path is stored as it is.
normalize_canonical : (path : Text) → IsCanonical path → normalize_site_path path ≡ some path
unfolding normalize_site_path
normalize_canonical path c = ground (
  arith,
  canonical_allowed path c,
  keep_segments_self (split b'/' path) c.2,
  join_segments_self path (split b'/' path) refl (split-ne_nil path),
)

join_segments-IsCanonical :
    (kept : List Text) (path : Text)
    → All IsPlain kept
    → All (λ q. has_code b'/' q ≡ false) kept
    → All (λ q. has_code 0 q ≡ false) kept
    → All (λ q. has_code b'\\' q ≡ false) kept
    → join_segments kept ≡ some path
    → IsCanonical path
unfolding join_segments
join_segments-IsCanonical [] path p s n b e = absurd (ground arith)
join_segments-IsCanonical (k ∷ kept) path p s n b e =
    let same : join b'/' (k ∷ kept) ≡ path = ground arith in
    subst IsCanonical same (
      has_code-join 0 b'/' (k ∷ kept) refl n,
      has_code-join b'\\' b'/' (k ∷ kept) refl b,
      subst (All IsPlain) (sym (split-join b'/' k kept s)) p,
    )

pub normalize-IsCanonical :
    (raw path : Text) → normalize_site_path raw ≡ some path → IsCanonical path
unfolding normalize_site_path
normalize-IsCanonical raw path e = elim (Bool-cases (is_refused raw)) [
  | inl r ↦ absurd (ground arith)
  | inr r ↦ elim (Option-cases (keep_segments (split b'/' raw))) [
    | inl n ↦ absurd (ground arith)
    | inr (kept, k) ↦
        let all = λ (P : Text → Type 0) (h : All P (split b'/' raw)).
          keep_segments-All P (split b'/' raw) kept h k in
        let (n, b) = refused_not raw r in
        join_segments-IsCanonical kept path (keep_segments-IsPlain (split b'/' raw) kept k)
          (all (λ q. has_code b'/' q ≡ false) (All-split b'/' raw))
          (all (λ q. has_code 0 q ≡ false) (All-split_lacks 0 b'/' raw n))
          (all (λ q. has_code b'\\' q ≡ false) (All-split_lacks b'\\' b'/' raw b)) (ground arith)
  ]
]

-- A path is its own normal form exactly when it is canonical: plain segments between single
-- slashes, none of them `.` or `..`, and no NUL or backslash in it.
pub normalize_site_path_iff :
    (path : Text) → (normalize_site_path path ≡ some path) ↔ IsCanonical path
normalize_site_path_iff path = (normalize-IsCanonical path path, normalize_canonical path)

-- What the guard accepts, it accepts again and leaves as it is.
pub normalize-normalize :
    (raw path : Text) → normalize_site_path raw ≡ some path → normalize_site_path path ≡ some path
normalize-normalize raw path e = normalize_canonical path (normalize-IsCanonical raw path e)
