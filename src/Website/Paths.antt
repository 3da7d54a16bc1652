-- ===== src/Website/Paths.antt =====
-- src/app/website/paths.py: the guard of the paths of site files. `none` is `InvalidPathError`.
use model_lib.Base.{
  ◌≡◌, ◌≢◌, Bool, false, ◌||◌, Option, none, some, List, [], ◌∷◌, if◌then◌else◌, All,
}
use model_lib.Base.Text.{Text, text_eq, is_empty, starts_with}
use model_lib.Base.Split.{has_code, split, join}

-- the tests before the path is split: empty, NUL, backslash, absolute
unfoldable pub is_refused : Text → Bool
unfolding is_empty has_code starts_with
is_refused raw = is_empty raw || has_code 0 raw || has_code b'\\' raw || starts_with raw (b'/' ∷ [])

-- a segment that is skipped
unfoldable pub is_skipped : Text → Bool
unfolding is_empty text_eq
is_skipped segment = is_empty segment || text_eq segment (b'.' ∷ [])

unfoldable pub is_parent : Text → Bool
unfolding text_eq
is_parent segment = text_eq segment (b'.' ∷ b'.' ∷ [])

-- the loop over the segments
unfoldable pub keep_segments : List Text → Option (List Text)
unfolding is_skipped is_parent
keep_segments [] = some []
keep_segments (segment ∷ segments) =
    let rest = keep_segments segments in
    if is_skipped segment
    then rest
    else if is_parent segment
    then none
    else elim rest [ none ↦ none | some kept ↦ some (segment ∷ kept) ]

-- `if not segments: raise`, and the join
unfoldable pub join_segments : List Text → Option Text
unfolding join
join_segments [] = none
join_segments (segment ∷ segments) = some (join b'/' (segment ∷ segments))

-- `normalize_site_path`
unfoldable pub normalize_site_path : Text → Option Text
unfolding is_refused split keep_segments join_segments
normalize_site_path raw =
    if is_refused raw
    then none
    else elim (keep_segments (split b'/' raw)) [ none ↦ none | some kept ↦ join_segments kept ]

-- a segment that is kept as it is
abbrev pub IsPlain : Text → Type 0
IsPlain segment = (segment ≢ []) × (segment ≢ b'.' ∷ []) × (segment ≢ b'.' ∷ b'.' ∷ [])

-- A path as it is stored: plain segments between single slashes, with no NUL and no backslash in
-- them.
abbrev pub IsCanonical : Text → Type 0
IsCanonical path =
    (has_code 0 path ≡ false) × (has_code b'\\' path ≡ false) × All IsPlain (split b'/' path)
