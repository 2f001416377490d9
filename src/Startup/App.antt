-- ===== src/Startup/App.antt =====
-- What app.New checks and hands to the services: backend/internal/app/app.go,
-- backend/database/database.go, backend/cache/redis.go, and NewAuthService of
-- backend/internal/service/auth.go.
use secure_auth_platform.Prelude.{
  ℕ, ◌*◌, Bool, ◌&&◌, ◌++◌, List, [], ◌∷◌, Option, none, some, Text, bytes, ℤ, pos, negsuc, ◌⊎◌,
  inl, inr, ltb, ◌=t=◌, if◌then◌else◌,
}
use secure_auth_platform.Env.{RateTier, Params}
use secure_auth_platform.Startup.{Outside}
use secure_auth_platform.Startup.EnvVars.{minute}
use secure_auth_platform.Startup.Keys.{JwtKeyPair, load_jwt_keys}
use secure_auth_platform.Startup.GeoIp.{Lookup, nop, open_max_mind}

abbrev pub hour : ℕ
hour = 60 * minute

unfoldable pub default_login_rate_tiers : List RateTier
default_login_rate_tiers =
    record { threshold = 5; block = minute }
    ∷ record { threshold = 10; block = 15 * minute }
    ∷ record { threshold = 20; block = 24 * hour }
    ∷ []

abbrev pub default_params : Params
default_params = record {
  memory = 65536;
  iterations = 3;
  parallelism = 2;
  salt_length = 16;
  key_length = 32;
}

-- The steps of `New` that can fail.
pub data StartError : Type 0 where
  migrations_failed postgres_failed redis_failed redis_ping_failed keys_failed geoip_failed :
      StartError

-- Config, for the keys and lookups of `out`
pub record AppConfig (out : Outside) : Type 0 where
  pub database_url : Text
  pub migrations_path : Text
  pub redis_url : Text
  pub redis_key_prefix : Text
  pub jwt_private_key_path : Text
  pub jwt_public_key_path : Text
  pub jwt_key_pair : Option (JwtKeyPair out)
  pub access_ttl : ℤ
  pub refresh_ttl : ℤ
  pub perm_cache_ttl : ℤ
  pub login_rate_tiers : List RateTier
  pub login_counter_ttl : ℤ
  pub admin_email : Text
  pub admin_password : Text
  pub cookie_secure : Bool
  pub geoip_db_path : Text
  pub geoip_lookup : Option Lookup
  pub impossible_travel_window : ℤ
  pub argon2_memory : ℕ

-- What the services are made with.
pub record Settings (out : Outside) : Type 0 where
  pub key_prefix : Text
  pub keys : JwtKeyPair out
  pub tiers : List RateTier
  pub counter_ttl : ℤ
  pub access_ttl : ℤ
  pub refresh_ttl : ℤ
  pub travel_window : ℤ
  pub permission_ttl : ℤ
  pub last_login_ttl : ℤ
  pub geo : Lookup
  pub params : Params
  pub cookie_secure : Bool

-- `if d == 0 { d = fallback }`
unfoldable pub or_default : ℕ → ℤ → ℤ
or_default fallback (pos n) = if ltb 0 n then pos n else pos fallback
or_default fallback (negsuc n) = negsuc n

-- `if len(tiers) == 0`
unfoldable pub tiers_or_default : List RateTier → List RateTier
tiers_or_default [] = default_login_rate_tiers
tiers_or_default (t ∷ ts) = t ∷ ts

-- The cost of the hashes: SetParams is called if the memory is set.
unfoldable pub active_params : ℕ → Params
active_params memory =
    if ltb 0 memory then record default_params { memory = memory } else default_params

-- A step that fails ends the start.
unfoldable pub step : {A B : Type 0} → StartError → Option A → (A → StartError ⊎ B) → StartError ⊎ B
step e none k = inl e
step e (some a) k = k a

abbrev pub checked : Bool → Option (Unit {0})
checked b = if b then some tt else none

module _ (out : Outside) where
  -- `migrate_up` is true for ErrNoChange too.
  unfoldable pub run_migrations : (dsn path : Text) → Bool
  run_migrations dsn path =
      let source = bytes "file://" ++ path in
      out.new_migrate source dsn && out.migrate_up source dsn

  -- database.Connect, up to the pool
  unfoldable pub connect : Text → Bool
  connect dsn = out.ping_postgres dsn

  -- cache.NewClient and Ping
  unfoldable pub new_client : Text → Bool
  new_client url = out.parse_redis_url url

  unfoldable pub ping : Text → Bool
  ping url = out.ping_redis url

  unfoldable pub jwt_keys : AppConfig out → Option (JwtKeyPair out)
  jwt_keys cfg = elim cfg.jwt_key_pair [
    | some pair ↦ some pair
    | none ↦ load_jwt_keys out cfg.jwt_private_key_path cfg.jwt_public_key_path
  ]

  unfoldable pub resolve_geo_ip : AppConfig out → Option Lookup
  resolve_geo_ip cfg = elim cfg.geoip_lookup [
    | some lookup ↦ some lookup
    | none ↦ if cfg.geoip_db_path =t= [] then some nop else open_max_mind out cfg.geoip_db_path
  ]

  unfoldable pub settings : AppConfig out → JwtKeyPair out → Lookup → Settings out
  settings cfg keys geo = record {
    key_prefix = cfg.redis_key_prefix;
    keys = keys;
    tiers = tiers_or_default cfg.login_rate_tiers;
    counter_ttl = or_default (24 * hour) cfg.login_counter_ttl;
    access_ttl = cfg.access_ttl;
    refresh_ttl = cfg.refresh_ttl;
    travel_window = or_default (30 * minute) cfg.impossible_travel_window;
    permission_ttl = cfg.perm_cache_ttl;
    last_login_ttl = pos (30 * 24 * hour);
    geo = geo;
    params = active_params cfg.argon2_memory;
    cookie_secure = cfg.cookie_secure;
  }

  -- The steps that can fail; Flushing has the call of FlushAll that comes after them.
  unfoldable pub new : AppConfig out → StartError ⊎ Settings out
  new cfg =
      step StartError.migrations_failed
        (checked (run_migrations cfg.database_url cfg.migrations_path))
        λ _. step StartError.postgres_failed (checked (connect cfg.database_url)) λ _.
          step StartError.redis_failed (checked (new_client cfg.redis_url)) λ _.
            step StartError.redis_ping_failed (checked (ping cfg.redis_url)) λ _.
              step StartError.keys_failed (jwt_keys cfg) λ keys.
                step StartError.geoip_failed (resolve_geo_ip cfg) λ geo. inr (settings cfg keys geo)
