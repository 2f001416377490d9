-- ===== src/Env.antt =====
-- What the program calls and does not implement: parameters of every definition that uses them.
use secure_auth_platform.Prelude.{ℕ, Bool, List, Option, Text}
use secure_auth_platform.Exec.{Exec}

-- go-redis: each method sends one command, and may fail. A duration of 0 stands for "none".
pub record Redis : Type 1 where
  pub State : Type 0
  pub ttl : Text → Exec State ℕ
  pub get_int : Text → Exec State ℕ
  pub incr : Text → Exec State ℕ
  pub expire : Text → ℕ → Exec State (Unit {0})
  pub set_flag : Text → Text → ℕ → Exec State (Unit {0})
  pub del : List Text → Exec State (Unit {0})
  pub smembers : Text → Exec State (List Text)
  pub sadd : Text → List Text → Exec State (Unit {0})
  pub get_bytes : Text → Exec State (Option Text)
  pub set_bytes : Text → Text → ℕ → Exec State (Unit {0})
  pub scan : (cursor : ℕ) (pattern : Text) (count : ℕ) → Exec State (List Text × ℕ)

-- The claims of a parsed access token: each is there if it is a number.
pub record Claims : Type 0 where
  pub sub : Option ℕ
  pub sid : Option ℕ

pub record LastLogin : Type 0 where
  pub country_code : Text
  pub ip : Text
  pub at : ℕ

-- Hashing, encodings, JWT (`jwt_alg` is the algorithm that a token names, `jwt_parse` checks the
-- signature and, at the time that it is given, the expiry), the
-- scanning and printing of numbers, JSON, the GeoIP lookup, and the order in which the database
-- sorts texts.
pub record Libs : Type 0 where
  pub sha256 : Text → Text
  pub sha1 : Text → Text
  pub base64_url : Text → Text
  pub base64_std : Text → Text
  pub base64_std_decode : Text → Option Text
  pub bcrypt_matches : Text → Text → Bool
  pub argon2id : (plain salt : Text) (iterations memory parallelism key_length : ℕ) → Text
  pub scan_version : Text → Option ℕ
  pub scan_params : Text → Option (ℕ × ℕ × ℕ)
  pub decimal : ℕ → Text
  pub jwt_sign : (sub sid : ℕ) (email : Text) (iat exp : ℕ) → Option Text
  pub jwt_alg : Text → Option Text
  pub jwt_parse : ℕ → Text → Option Claims
  pub parse_address : Text → Option Text
  pub trim_space : Text → Text
  pub login_to_json : LastLogin → Option Text
  pub login_of_json : Text → Option LastLogin
  pub country_code : Text → Option Text
  pub collates : Text → Text → Bool

-- unicode and strings.ToLower
pub record Unicode : Type 0 where
  pub runes : Text → List ℕ
  pub is_lower : ℕ → Bool
  pub is_upper : ℕ → Bool
  pub is_digit : ℕ → Bool
  pub to_lower : Text → Text

pub record RateTier : Type 0 where
  pub threshold : ℕ
  pub block : ℕ

-- password.Params
pub record Params : Type 0 where
  pub memory : ℕ
  pub iterations : ℕ
  pub parallelism : ℕ
  pub salt_length : ℕ
  pub key_length : ℕ

-- The values that backend/internal/app/app.go hands to the services.
pub record Config : Type 0 where
  pub key_prefix : Text
  pub tiers : List RateTier
  pub counter_ttl : ℕ
  pub access_ttl : ℕ
  pub refresh_ttl : ℕ
  pub travel_window : ℕ
  pub permission_ttl : ℕ
  pub last_login_ttl : ℕ
  pub params : Params
  pub admin_email : Text
  pub admin_password : Text

-- The calls of the outside world are numbered. `sql_fails n` says whether call `n` fails if it is
-- a statement, `clock n` is the time read by it, `random n k` the `k` bytes drawn by it, and
-- `hibp_range n prefix` the body that the leak service answers to it, if it answers with status 200.
pub record Env : Type 1 where
  pub redis : Redis
  pub libs : Libs
  pub unicode : Unicode
  pub config : Config
  pub sql_fails : ℕ → Bool
  pub clock : ℕ → ℕ
  pub random : ℕ → ℕ → Option Text
  pub hibp_range : ℕ → Text → Option Text
