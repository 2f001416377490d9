-- ===== src/Startup/Sound.antt =====
-- A start that succeeds, and the default tiers: New and
-- DefaultLoginRateTiers of backend/internal/app/app.go.
use secure_auth_platform.Prelude.{
  ℕ, ◌<◌, ◌*◌, ◌≡◌, ◌≢◌, refl, ap, subst, ◌∙◌, Bool, true, false, List, [], ◌∷◌, Option, none, some,
  ℤ, pos, negsuc, arith, ◌⊎◌, inr, ltb, if◌then◌else◌,
}
use secure_auth_platform.Env.{RateTier}
use secure_auth_platform.Cache.RateLimit.{block_from, block_duration}
use secure_auth_platform.Startup.{Outside}
use secure_auth_platform.Startup.EnvVars.{minute}
use secure_auth_platform.Startup.Keys.{JwtKeyPair}
use secure_auth_platform.Startup.GeoIp.{Lookup}
use secure_auth_platform.Startup.App.{
  hour, default_login_rate_tiers, StartError, AppConfig, Settings, or_default, tiers_or_default,
  active_params, step, checked, run_migrations, connect, new_client, ping, jwt_keys, resolve_geo_ip,
  settings, new,
}

-- The default tiers: no block below 5 attempts, then a minute, 15 minutes from 10 attempts on, and
-- a day from 20 on.
pub default_block :
    (n : ℕ)
    → block_duration default_login_rate_tiers n ≡ (
        if ltb n 5
        then 0
        else if ltb n 10
        then minute
        else if ltb n 20
        then 15 * minute
        else 24 * hour)
unfolding block_duration block_from default_login_rate_tiers
default_block n = ground arith

step-inr :
    {A B : Type 0} (e : StartError) (o : Option A) (k : A → StartError ⊎ B) (b : B)
    → step e o k ≡ inr b
    → (a : A) × (o ≡ some a) × (k a ≡ inr b)
unfolding step
step-inr e none k b h = cc
step-inr e (some a) k b h = (a, refl, h)

checked-some : (b : Bool) (u : Unit {0}) → checked b ≡ some u → b ≡ true
checked-some true u h = refl
checked-some false u h = cc

-- What New hands on is usable: some tier, and no duration of zero where zero means unset.
pub record IsUsable (out : Outside) (s : Settings out) : Type 0 where
  pub has_tier : s.tiers ≢ []
  pub counter_set : s.counter_ttl ≢ pos 0
  pub window_set : s.travel_window ≢ pos 0
  pub memory_set : 0 < s.params.memory

or_default-set : (d : ℕ) (z : ℤ) → 0 < d → or_default d z ≢ pos 0
unfolding or_default
or_default-set d (pos n) h = λ e. ground (arith, e, h)
or_default-set d (negsuc n) h = λ e. cc

tiers-set : (ts : List RateTier) → tiers_or_default ts ≢ []
unfolding tiers_or_default default_login_rate_tiers
tiers-set [] = λ e. cc
tiers-set (t ∷ ts) = λ e. cc

memory-set : (m : ℕ) → 0 < (active_params m).memory
unfolding active_params
memory-set m = ground arith

module _ (out : Outside) where
  settings-IsUsable :
      (cfg : AppConfig out) (keys : JwtKeyPair out) (geo : Lookup)
      → IsUsable out (settings out cfg keys geo)
  unfolding settings
  settings-IsUsable cfg keys geo = record {
    has_tier = tiers-set cfg.login_rate_tiers;
    counter_set = or_default-set (24 * hour) cfg.login_counter_ttl (omega arith);
    window_set = or_default-set (30 * minute) cfg.impossible_travel_window (omega arith);
    memory_set = memory-set cfg.argon2_memory;
  }

  -- What has passed when New succeeds.
  pub record HasStarted (cfg : AppConfig out) (s : Settings out) : Type 0 where
    pub migrated : run_migrations out cfg.database_url cfg.migrations_path ≡ true
    pub connected : connect out cfg.database_url ≡ true
    pub redis_known : new_client out cfg.redis_url ≡ true
    pub redis_up : ping out cfg.redis_url ≡ true
    pub keys_loaded : jwt_keys out cfg ≡ some s.keys
    pub geo_resolved : resolve_geo_ip out cfg ≡ some s.geo
    pub usable : IsUsable out s

  -- If New succeeds, then the migrations ran, the database and Redis answered, the keys and the
  -- GeoIP lookup are those that were loaded, and what it hands to the services is usable: there is
  -- a tier, the counter and the travel window are not zero and the hash has memory.
  pub new_sound : (cfg : AppConfig out) (s : Settings out) → new out cfg ≡ inr s → HasStarted cfg s
  unfolding new settings step-inr
  new_sound cfg s h =
      let (_, a, h₁) = step-inr _ _ _ s h in
      let (_, b, h₂) = step-inr _ _ _ s h₁ in
      let (_, c, h₃) = step-inr _ _ _ s h₂ in
      let (_, d, h₄) = step-inr _ _ _ s h₃ in
      let (keys, e, h₅) = step-inr _ _ _ s h₄ in
      let (geo, f, h₆) = step-inr _ _ _ s h₅ in
      let same : settings out cfg keys geo ≡ s = cc in
      record {
        migrated = checked-some _ tt a;
        connected = checked-some _ tt b;
        redis_known = checked-some _ tt c;
        redis_up = checked-some _ tt d;
        keys_loaded = e ∙ ap (λ (x : Settings out). some x.keys) same;
        geo_resolved = f ∙ ap (λ (x : Settings out). some x.geo) same;
        usable = subst (IsUsable out) same (settings-IsUsable cfg keys geo);
      }
