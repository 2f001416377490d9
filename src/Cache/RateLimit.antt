-- ===== src/Cache/RateLimit.antt =====
-- backend/cache/tiered_ratelimit.go
pub mod Bounds
pub mod Progress
use secure_auth_platform.Prelude.{
  ℕ, Bool, true, false, ◌&&◌, List, [], ◌∷◌, ◌++◌, Text, bytes, ltb, leb, ◌==◌, if◌then◌else◌,
}
use secure_auth_platform.Exec.{Exec, Result, ok, err, pure, ◌>>=◌, ◌>>◌, attempt, ignore}
use secure_auth_platform.Env.{Env, RateTier}

-- The loop of `MaxTierThreshold`, from the largest threshold met so far.
max_threshold_from : ℕ → List RateTier → ℕ
max_threshold_from m [] = m
max_threshold_from m (t ∷ tiers) =
    max_threshold_from (if ltb m t.threshold then t.threshold else m) tiers

unfoldable pub max_tier_threshold : List RateTier → ℕ
unfolding max_threshold_from
max_tier_threshold tiers = max_threshold_from 0 tiers

-- The loop of `blockDuration`, from the longest block met so far.
unfoldable pub block_from : ℕ → ℕ → List RateTier → ℕ
block_from count block [] = block
block_from count block (t ∷ tiers) =
    block_from count (if leb t.threshold count && ltb block t.block then t.block else block) tiers

unfoldable pub block_duration : List RateTier → ℕ → ℕ
unfolding block_from
block_duration tiers count = block_from count 0 tiers

-- The three results of `Check`.
pub record Verdict : Type 0 where
  pub blocked : Bool
  pub retry_after : ℕ
  pub count : ℕ

-- `v, _ := …`: zero on an error.
abbrev pub or_zero : Result ℕ → ℕ
or_zero (ok n) = n
or_zero (err e) = 0

module _ (env : Env) where
  unfoldable pub full_key : Text → Text
  full_key key = env.config.key_prefix ++ key

  unfoldable pub block_key : Text → Text
  block_key key = env.config.key_prefix ++ (key ++ bytes ":block")

  -- A key with a block is refused before its attempts are counted.
  unfoldable pub refused : Text → ℕ → Exec env.redis.State Verdict
  refused key left = do
    stored ← attempt (env.redis.get_int (full_key key))
    pure (record { blocked = true; retry_after = left; count = or_zero stored })

  unfoldable pub blocked_now : Text → (count block : ℕ) → Exec env.redis.State Verdict
  blocked_now key count block = do
    env.redis.set_flag (block_key key) (bytes "1") block
    pure (record { blocked = true; retry_after = block; count = count })

  -- The tiers decide once the attempt is counted.
  unfoldable pub decided : Text → ℕ → Exec env.redis.State Verdict
  unfolding blocked_now
  decided key count = do
    let block = block_duration env.config.tiers count
    if ltb 0 block
        then blocked_now key count block
        else pure (record { blocked = false; retry_after = 0; count = count })

  unfoldable pub counted : Text → Exec env.redis.State Verdict
  unfolding decided
  counted key = do
    count ← env.redis.incr (full_key key)
    if count == 1 then ignore (env.redis.expire (full_key key) env.config.counter_ttl) else pure tt
    decided key count

  unfoldable pub check : Text → Exec env.redis.State Verdict
  unfolding refused counted
  check key = do
    left ← env.redis.ttl (block_key key)
    if ltb 0 left then refused key left else counted key

  unfoldable pub reset : Text → Exec env.redis.State (Unit {0})
  reset key = env.redis.del (full_key key ∷ block_key key ∷ [])

unfoldable pub login_ip_key : Text → Text
login_ip_key ip = bytes "login:ip:" ++ ip

unfoldable pub login_email_key : Text → Text
login_email_key email = bytes "login:email:" ++ email
