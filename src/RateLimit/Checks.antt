-- ===== src/RateLimit/Checks.antt =====
-- The limits of a chat request (src/app/api_gateway/rate_limit.py), which are counted one by one.
use model_lib.Base.{
  ℕ, ◌<◌, ◌≡◌, ◌++◌, ◌⊎◌, inl, inr, none, some, refl, ◌↔◌, true, false, Option, List, [], ◌∷◌,
  arith, length,
}
use model_lib.Base.Text.{Text, codes, text_eq, is_empty}
use model_lib.RateLimit.{
  Redis, Link, RateSettings, allow, slide, zremrangebyscore, live_scores, put_bucket, microseconds,
  optional_check, chat_checks, run_checks, enforce_chat_limits,
}

-- how many calls of the key are in the window that ends now
abbrev pub live_count : (window now : ℕ) → Redis → Text → ℕ
live_count window now redis key = length (zremrangebyscore window now (live_scores now (redis key)))

abbrev pub HasRoom : (window now : ℕ) → Redis → List (Text × ℕ) → Type 0
HasRoom window now redis [] = Unit
HasRoom window now redis ((key, limit) ∷ checks) =
    (live_count window now redis key < limit) × HasRoom window now redis checks

abbrev pub IsApart : Text → List (Text × ℕ) → Type 0
IsApart key [] = Unit
IsApart key ((k, limit) ∷ checks) = (text_eq k key ≡ false) × IsApart key checks

abbrev pub IsDistinct : List (Text × ℕ) → Type 0
IsDistinct [] = Unit
IsDistinct ((key, limit) ∷ checks) = IsApart key checks × IsDistinct checks

module _ (window now : ℕ) where
  -- a call on one key leaves the room of the others
  HasRoom-allow :
      (key : Text) (limit : ℕ) (redis : Redis) (checks : List (Text × ℕ))
      → IsApart key checks
      → HasRoom window now redis checks
        ↔ HasRoom window now (allow Link.works key limit window now redis).1 checks
  unfolding allow put_bucket
  HasRoom-allow key limit redis [] a = (λ h. h, λ h. h)
  HasRoom-allow key limit redis ((k, l) ∷ checks) (a, apart) =
      ground (arith, HasRoom-allow key limit redis checks apart)

  run_checks_iff :
      (checks : List (Text × ℕ)) (redis : Redis)
      → IsDistinct checks
      → ((run_checks (λ k. Link.works) window now checks redis).0 ≡ true)
        ↔ HasRoom window now redis checks
  unfolding run_checks allow slide
  run_checks_iff [] redis d = (λ h. tt, λ h. refl)
  run_checks_iff ((key, limit) ∷ checks) redis (a, d) = ground (
    arith,
    run_checks_iff checks (allow Link.works key limit window now redis).1 d,
    HasRoom-allow key limit redis checks a,
  )

chat_checks-IsDistinct :
    (settings : RateSettings) (user_id : Text) (device_id ip : Option Text)
    → IsDistinct (chat_checks settings user_id device_id ip)
unfolding chat_checks text_eq
chat_checks-IsDistinct settings user_id device_id ip = ground arith

-- a limit that is counted for a value that is given and not empty
abbrev pub HasRoomFor : (window now : ℕ) → Redis → Text → Option Text → (limit : ℕ) → Type 0
HasRoomFor window now redis prefix none limit = Unit
HasRoomFor window now redis prefix (some value) limit =
    (value ≡ []) ⊎ (live_count window now redis (prefix ++ value) < limit)

module _ (window now : ℕ) (redis : Redis) where
  HasRoom-append :
      (checks rest : List (Text × ℕ))
      → HasRoom window now redis (checks ++ rest)
        ↔ (HasRoom window now redis checks × HasRoom window now redis rest)
  HasRoom-append [] rest = (λ h. (tt, h), λ h. h.1)
  HasRoom-append ((key, limit) ∷ checks) rest =
      let more = HasRoom-append checks rest in
      (λ (h, hs). ((h, (more.0 hs).0), (more.0 hs).1), λ ((h, hs), r). (h, more.1 (hs, r)))

  optional_check_iff :
      (prefix : Text) (value : Option Text) (limit : ℕ)
      → HasRoom window now redis (optional_check prefix value limit)
        ↔ HasRoomFor window now redis prefix value limit
  unfolding optional_check is_empty
  optional_check_iff prefix none limit = (λ h. h, λ h. h)
  optional_check_iff prefix (some []) limit = (λ h. inl refl, λ h. tt)
  optional_check_iff prefix (some (c ∷ value)) limit =
      (λ h. inr h.0, λ h. (elim h [ inl e ↦ absurd (cc e) | inr l ↦ l ], tt))

  chat_checks_iff :
      (settings : RateSettings) (user_id : Text) (device_id ip : Option Text)
      → HasRoom window now redis (chat_checks settings user_id device_id ip) ↔ (
          (live_count window now redis (codes "rl:user:" ++ user_id)
            < settings.rate_limit_chat_per_user)
          × HasRoomFor window now redis
              (codes "rl:dev:")
              device_id
              settings.rate_limit_chat_per_device
          × HasRoomFor window now redis (codes "rl:ip:") ip settings.rate_limit_chat_per_ip)
  unfolding chat_checks
  chat_checks_iff settings user_id device_id ip =
      let device =
        optional_check_iff (codes "rl:dev:") device_id settings.rate_limit_chat_per_device in
      let address = optional_check_iff (codes "rl:ip:") ip settings.rate_limit_chat_per_ip in
      let both =
        HasRoom-append
          (optional_check (codes "rl:dev:") device_id settings.rate_limit_chat_per_device)
          (optional_check (codes "rl:ip:") ip settings.rate_limit_chat_per_ip) in
      (
        λ (h, hs). (h, device.0 (both.0 hs).0, address.0 (both.0 hs).1),
        λ (h, d, a). (h, both.1 (device.1 d, address.1 a)),
      )

-- With every pipeline working, a chat request is let through exactly when the user, the device
-- where one is named, and the address where it is known, each have fewer calls than their limit
-- in the window that ends now.
pub enforce_chat_limits_iff :
    (settings : RateSettings) (now : ℕ) (user_id : Text) (device_id ip : Option Text)
    (redis : Redis)
    → ((enforce_chat_limits settings (λ k. Link.works) now user_id device_id ip redis).0 ≡ true) ↔ (
        (live_count (microseconds settings) now redis (codes "rl:user:" ++ user_id)
          < settings.rate_limit_chat_per_user)
        × HasRoomFor
            (microseconds settings)
            now
            redis
            (codes "rl:dev:")
            device_id
            settings.rate_limit_chat_per_device
        × HasRoomFor
            (microseconds settings)
            now
            redis
            (codes "rl:ip:")
            ip
            settings.rate_limit_chat_per_ip)
unfolding enforce_chat_limits
enforce_chat_limits_iff settings now user_id device_id ip redis =
    let window = microseconds settings in
    let run =
      run_checks_iff window now (chat_checks settings user_id device_id ip) redis
        (chat_checks-IsDistinct settings user_id device_id ip) in
    let room = chat_checks_iff window now redis settings user_id device_id ip in
    (λ h. room.0 (run.0 h), λ h. run.1 (room.1 h))
