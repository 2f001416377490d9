-- ===== src/Startup.antt =====
-- The start of the program: what it calls and does not implement, and the errors of app.New.
pub mod EnvVars
pub mod Keys
pub mod GeoIp
pub mod App
pub mod Main
pub mod Sound
pub mod Flushing
use secure_auth_platform.Prelude.{ℕ, ℤ, Bool, Option, none, some, Text, List}
use secure_auth_platform.Env.{RateTier}

-- crypto/x509, encoding/pem, os, the GeoIP reader, golang-migrate, the PostgreSQL driver and
-- go-redis. `none` and `false` are errors. A key of `parse_pkcs8` or `parse_pkix` that is no RSA key
-- is the inner `none`.
pub record Outside : Type 1 where
  pub PrivateKey : Type 0
  pub PublicKey : Type 0
  pub Reader : Type 0
  pub Address : Type 0
  pub read_file : Text → Option Text
  pub pem_decode : Text → Option (Text × Text)
  pub parse_pkcs1 : Text → Option PrivateKey
  pub parse_pkcs8 : Text → Option (Option PrivateKey)
  pub parse_pkix : Text → Option (Option PublicKey)
  pub open_reader : Text → Option Reader
  pub parse_ip : Text → Option Address
  pub country : Reader → Address → Option Text
  pub new_migrate : (source dsn : Text) → Bool
  pub migrate_up : (source dsn : Text) → Bool
  pub ping_postgres : Text → Bool
  pub parse_redis_url : Text → Bool
  pub ping_redis : Text → Bool
