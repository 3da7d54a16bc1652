-- ===== src/RateLimit/Window.antt =====
-- The bound that the sliding window of src/app/api_gateway/rate_limit.py is there for.
use model_lib.Base.{
  ℕ, suc, ◌+◌, ◌≤◌, ◌<◌, ◌≡◌, refl, Bool, true, false, ◌&&◌, Option, some, List, [], ◌∷◌, arith,
  ltb, leb, if◌then◌else◌, length, All,
}
use model_lib.Base.Text.{Text, text_eq_refl}
use native.Mathlib.Decide.{dec_lt}
use model_lib.RateLimit.{
  Redis, Bucket, Link, allow, slide, zremrangebyscore, live_scores, put_bucket,
}

-- the calls of one key, newest first, each with its instant and what became of its pipeline
abbrev pub Calls : Type 0
Calls = List (ℕ × Link)

abbrev pub IsNewestFirst : Calls → Type 0
IsNewestFirst [] = Unit
IsNewestFirst ((t, link) ∷ calls) = All (λ c. c.0 ≤ t) calls × IsNewestFirst calls

-- what Redis holds after the calls
unfoldable pub after_calls : (key : Text) (limit window : ℕ) → Calls → Redis → Redis
unfolding allow
after_calls key limit window [] redis = redis
after_calls key limit window ((t, link) ∷ calls) redis =
    (allow link key limit window t (after_calls key limit window calls redis)).1

abbrev pub is_allowed : Option Bool → Bool
is_allowed (some true) = true
is_allowed _ = false

-- how many of the calls later than `a`, and not later than a window after it, were answered True
unfoldable pub allowed_within : (a : ℕ) (key : Text) (limit window : ℕ) → Calls → Redis → ℕ
unfolding after_calls allow
allowed_within a key limit window [] redis = 0
allowed_within a key limit window ((t, link) ∷ calls) redis =
    let answer = (allow link key limit window t (after_calls key limit window calls redis)).0 in
    let rest = allowed_within a key limit window calls redis in
    if ltb a t && leb t (a + window) && is_allowed answer then suc rest else rest

zremrangebyscore_twice :
    (window t now : ℕ) (xs : List ℕ)
    → t ≤ now
    → zremrangebyscore window now (zremrangebyscore window t xs) ≡ zremrangebyscore window now xs
unfolding zremrangebyscore
zremrangebyscore_twice window t now [] h = refl
zremrangebyscore_twice window t now (x ∷ xs) h =
    grind (arith, zremrangebyscore_twice window t now xs h)

live_mono :
    (window t now : ℕ) (b : Bucket)
    → t ≤ now
    → length (zremrangebyscore window now (live_scores now b))
      ≤ length (zremrangebyscore window now (live_scores t b))
unfolding live_scores zremrangebyscore
live_mono window t now b h = ground arith

slide_live :
    (window t now : ℕ) (b : Bucket)
    → t ≤ now
    → now < t + window
    → suc (length (zremrangebyscore window now (live_scores now b)))
      ≤ length (zremrangebyscore window now (live_scores now (slide window t b)))
unfolding slide
slide_live window t now b h k =
    ground
      (arith, zremrangebyscore_twice window t now (live_scores t b) h, live_mono window t now b h)

module _ (a : ℕ) (key : Text) (limit window : ℕ) where
  none_within :
      (calls : Calls) (redis : Redis)
      → All (λ c. c.0 ≤ a) calls
      → allowed_within a key limit window calls redis ≡ 0
  unfolding allowed_within
  none_within [] redis h = refl
  none_within ((t, link) ∷ calls) redis (h, hs) = ground (arith, none_within calls redis hs)

  All-le :
      (t now : ℕ) (calls : Calls) → t ≤ now → All (λ c. c.0 ≤ t) calls → All (λ c. c.0 ≤ now) calls
  All-le t now [] h k = tt
  All-le t now (c ∷ calls) h (k, ks) = (omega arith, All-le t now calls h ks)

  -- every allowed call of the window is still a score of the key's set
  within_live :
      (calls : Calls) (redis : Redis) (now : ℕ)
      → now ≤ a + window
      → All (λ c. c.0 ≤ now) calls
      → IsNewestFirst calls
      → allowed_within a key limit window calls redis
        ≤ length (
            zremrangebyscore window now
              (live_scores now (after_calls key limit window calls redis key)))
  unfolding allowed_within after_calls allow put_bucket
  within_live [] redis now h k o = omega arith
  within_live ((t, Link.unreachable) ∷ calls) redis now h (k, ks) (o, os) =
      ground (arith, within_live calls redis now h ks os)
  within_live ((t, link) ∷ calls) redis now h (k, ks) (o, os) = elim (dec_lt now (t + window)) [
    | yes lt ↦ ground (
      arith,
      within_live calls redis now h ks os,
      slide_live window t now (after_calls key limit window calls redis key) k lt,
      text_eq_refl key,
    )
    | no ge ↦ ground (arith, none_within calls redis (All-le t a calls (omega arith) o))
  ]

-- Of the calls that one key answered, in order of time and whatever was lost on the way to Redis
-- or back, at most `limit` fall into any span of one window and were let through by the counter.
pub allowed_within_bound :
    (a : ℕ) (key : Text) (limit window : ℕ) (calls : Calls) (redis : Redis)
    → IsNewestFirst calls
    → allowed_within a key limit window calls redis ≤ limit
unfolding allowed_within after_calls allow slide
allowed_within_bound a key limit window [] redis o = omega arith
allowed_within_bound a key limit window ((t, Link.unreachable) ∷ calls) redis (o, os) =
    ground (arith, allowed_within_bound a key limit window calls redis os)
allowed_within_bound a key limit window ((t, Link.reply_lost) ∷ calls) redis (o, os) =
    ground (arith, allowed_within_bound a key limit window calls redis os)
allowed_within_bound a key limit window ((t, Link.works) ∷ calls) redis (o, os) =
    elim (dec_lt (a + window) t) [
      | yes lt ↦ ground (arith, allowed_within_bound a key limit window calls redis os)
      | no ge ↦ ground (
        arith,
        allowed_within_bound a key limit window calls redis os,
        within_live a key limit window calls redis t (omega arith) o os,
      )
    ]
