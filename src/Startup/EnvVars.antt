-- ===== src/Startup/EnvVars.antt =====
-- The reading of the environment: backend/cmd/api/main.go. A duration is a signed number of
-- nanoseconds, and a variable that is not set is the empty text, as for os.Getenv.
use secure_auth_platform.Prelude.{
  ℕ, zero, suc, ◌-◌, ◌*◌, ◌%◌, ◌^◌, ◌≤◌, ◌<◌, ◌≡◌, ap, ◌∙◌, [], ◌∷◌, Option, none, some, Text, ℤ,
  pos, negsuc, arith, ltb, ◌=t=◌, if◌then◌else◌, parse_int64, parse_uint32, Text-discrete,
}

abbrev pub minute : ℕ
minute = 60 * 1000000000

-- A product of int64 numbers, brought back into their range.
unfoldable pub wrapped : ℕ → ℤ
wrapped n = let r = n % 2 ^ 64 in if ltb r (2 ^ 63) then pos r else negsuc (2 ^ 64 - 1 - r)

-- An environment, and time.ParseDuration.
module _ (getenv : Text → Text) (parse_duration : Text → Option ℤ) where
  unfoldable pub env : (key fallback : Text) → Text
  env key fallback = if getenv key =t= [] then fallback else getenv key

  -- The program ends if the variable is not set.
  unfoldable pub must_env : Text → Option Text
  must_env key = if getenv key =t= [] then none else some (getenv key)

  abbrev or_fallback {ℓ} : {A : Type ℓ} → Option A → A → A
  or_fallback none d = d
  or_fallback (some a) d = a

  unfoldable pub env_duration : Text → ℤ → ℤ
  env_duration key fallback =
      if getenv key =t= [] then fallback else or_fallback (parse_duration (getenv key)) fallback

  unfoldable pub env_uint32 : Text → ℕ → ℕ
  env_uint32 key fallback =
      if getenv key =t= [] then fallback else or_fallback (parse_uint32 (getenv key)) fallback

  -- The minutes of a positive number, and else the fallback.
  unfoldable pub minutes_or : ℕ → Option ℤ → ℤ
  minutes_or fallback none = wrapped (fallback * minute)
  minutes_or fallback (some (pos zero)) = wrapped (fallback * minute)
  minutes_or fallback (some (pos (suc n))) = wrapped (suc n * minute)
  minutes_or fallback (some (negsuc n)) = wrapped (fallback * minute)

  unfoldable pub env_minutes : Text → ℕ → ℤ
  env_minutes key fallback =
      if getenv key =t= []
      then wrapped (fallback * minute)
      else minutes_or fallback (parse_int64 (getenv key))

  wrapped-small : (n : ℕ) → n < 2 ^ 63 → wrapped n ≡ pos n
  unfolding wrapped
  wrapped-small n h = ground (arith, h)

  wrapped-large : (n : ℕ) → 2 ^ 63 ≤ n → n < 2 ^ 64 → wrapped n ≡ negsuc (2 ^ 64 - 1 - n)
  unfolding wrapped
  wrapped-large n h k = ground (arith, h, k)

  minutes_of :
      (t : Text) (fallback n : ℕ)
      → parse_int64 t ≡ some (pos (suc n))
      → (if t =t= [] then wrapped (fallback * minute) else minutes_or fallback (parse_int64 t))
        ≡ wrapped (suc n * minute)
  unfolding minutes_or parse_int64 Text-discrete
  minutes_of [] fallback n h = cc
  minutes_of (c ∷ s) fallback n h = ap (minutes_or fallback) h

  minutes_read :
      (key : Text) (fallback n : ℕ)
      → parse_int64 (getenv key) ≡ some (pos (suc n))
      → env_minutes key fallback ≡ wrapped (suc n * minute)
  unfolding env_minutes
  minutes_read key fallback n h = minutes_of (getenv key) fallback n h

  -- A variable that holds a positive number gives that many minutes, as long as they fit in an
  -- int64; a number up to twice as large gives a negative duration.
  pub env_minutes_range :
      (key : Text) (fallback n : ℕ)
      → parse_int64 (getenv key) ≡ some (pos (suc n))
      → (suc n * minute < 2 ^ 63 → env_minutes key fallback ≡ pos (suc n * minute))
        × (2 ^ 63 ≤ suc n * minute
            → suc n * minute < 2 ^ 64
            → env_minutes key fallback ≡ negsuc (2 ^ 64 - 1 - suc n * minute))
  env_minutes_range key fallback n h = (
    λ k. minutes_read key fallback n h ∙ wrapped-small _ k,
    λ k l. minutes_read key fallback n h ∙ wrapped-large _ k l,
  )
