-- ===== src/Startup/Main.antt =====
-- The configuration that main makes of the environment: backend/cmd/api/main.go.
use secure_auth_platform.Prelude.{◌*◌, [], Option, none, some, Text, bytes, ℤ, pos, ◌=t=◌}
use secure_auth_platform.Startup.{Outside}
use secure_auth_platform.Startup.EnvVars.{
  minute, env, must_env, env_duration, env_uint32, env_minutes,
}
use secure_auth_platform.Startup.App.{AppConfig, default_login_rate_tiers, hour}

module _ (out : Outside) (getenv : Text → Text) (parse_duration : Text → Option ℤ) where
  variable_or : (key fallback : Text) → Text
  variable_or = env getenv parse_duration

  -- The configuration, once DATABASE_URL is known.
  unfoldable pub config_with : Text → AppConfig out
  unfolding variable_or
  config_with database_url = record {
    database_url = database_url;
    migrations_path = variable_or (bytes "MIGRATIONS_PATH") (bytes "migrations");
    redis_url = variable_or (bytes "REDIS_URL") (bytes "redis://localhost:6379/0");
    redis_key_prefix = variable_or (bytes "REDIS_KEY_PREFIX") (bytes "auth:");
    jwt_private_key_path = variable_or (bytes "JWT_PRIVATE_KEY_PATH") (bytes "keys/private.pem");
    jwt_public_key_path = variable_or (bytes "JWT_PUBLIC_KEY_PATH") (bytes "keys/public.pem");
    jwt_key_pair = none;
    access_ttl = env_duration getenv parse_duration (bytes "ACCESS_TOKEN_TTL") (pos (15 * minute));
    refresh_ttl =
        env_duration getenv parse_duration (bytes "REFRESH_TOKEN_TTL") (pos (30 * 24 * hour));
    perm_cache_ttl =
        env_duration getenv parse_duration (bytes "PERMISSIONS_CACHE_TTL") (pos (5 * minute));
    login_rate_tiers = default_login_rate_tiers;
    login_counter_ttl = pos (24 * hour);
    admin_email = variable_or (bytes "ADMIN_EMAIL") (bytes "admin@local.dev");
    admin_password = getenv (bytes "ADMIN_PASSWORD");
    cookie_secure = variable_or (bytes "COOKIE_SECURE") (bytes "false") =t= bytes "true";
    geoip_db_path = variable_or (bytes "GEOIP_DB_PATH") [];
    geoip_lookup = none;
    impossible_travel_window =
        env_minutes getenv parse_duration (bytes "IMPOSSIBLE_TRAVEL_WINDOW_MINUTES") 30;
    argon2_memory = env_uint32 getenv parse_duration (bytes "ARGON2_MEMORY") 0;
  }

  -- The program ends at once without DATABASE_URL.
  unfoldable pub main_config : Option (AppConfig out)
  main_config = elim (must_env getenv parse_duration (bytes "DATABASE_URL")) [
    | none ↦ none
    | some url ↦ some (config_with url)
  ]
