-- ===== src/Example.antt =====
-- A small platform to evaluate the definitions on: one user with a session, an empty memory for
-- Redis, and simple functions in the places of the libraries.
use secure_auth_platform.Prelude.{
  ℕ, zero, suc, ◌+◌, ◌-◌, Bool, true, false, not, ◌&&◌, ◌==◌, has_prefix, has_suffix, trim_suffix,
  List, [], ◌∷◌, ◌++◌, none, some, Text, bytes, ◌=t=◌, select, if◌then◌else◌,
}
use secure_auth_platform.Exec.{ok}
use secure_auth_platform.Models.{Session, Tables, User}
use secure_auth_platform.Env.{Redis, Libs, Unicode, Config, Env}
use secure_auth_platform.World.{World}

-- Redis as an association list of numbers.
abbrev pub Memory : Type 0
Memory = List (Text × ℕ)

abbrev pub look : Memory → Text → ℕ
look [] k = 0
look ((j, n) ∷ m) k = if j =t= k then n else look m k

abbrev pub put : Text → ℕ → Memory → Memory
put k n m = (k, n) ∷ select (λ p. not (p.0 =t= k)) m

abbrev pub forget : List Text → Memory → Memory
forget [] m = m
forget (k ∷ ks) m = forget ks (select (λ p. not (p.0 =t= k)) m)

-- The pattern is a text and a star.
abbrev pub star_fits : (pattern key : Text) → Bool
star_fits pattern key = has_prefix key (trim_suffix pattern (bytes "*"))

abbrev pub keys_where : (Text → Bool) → Memory → List Text
keys_where q [] = []
keys_where q ((k, n) ∷ m) = if q k then k ∷ keys_where q m else keys_where q m

-- A scan has two pages: the keys that end in 1, and the others.
abbrev pub on_page : ℕ → Text → Text → Bool
on_page c pattern k =
    star_fits pattern k
    && (if c == 0 then has_suffix k (bytes "1") else not (has_suffix k (bytes "1")))

abbrev pub memory : Redis
memory = record {
  State = Memory;
  ttl = λ k m. (ok (look m k), m);
  get_int = λ k m. (ok (look m k), m);
  incr = λ k m. (ok (suc (look m k)), put k (suc (look m k)) m);
  expire = λ k d m. (ok tt, m);
  set_flag = λ k v d m. (ok tt, put k d m);
  del = λ ks m. (ok tt, forget ks m);
  smembers = λ k m. (ok [], m);
  sadd = λ k vs m. (ok tt, m);
  get_bytes = λ k m. (ok none, m);
  set_bytes = λ k v d m. (ok tt, m);
  scan = λ c p n m. (ok (keys_where (on_page c p) m, if c == 0 then 1 else 0), m);
}

-- The first `k` bytes, with zeros where there are none.
abbrev pub pad : ℕ → Text → Text
pad zero t = []
pad (suc k) [] = 0 ∷ pad k []
pad (suc k) (b ∷ t) = b ∷ pad k t

abbrev pub shift_down : Text → Text
shift_down [] = []
shift_down (b ∷ t) = (b - 64) ∷ shift_down t

abbrev pub shift_up : Text → Text
shift_up [] = []
shift_up (b ∷ t) = (b + 64) ∷ shift_up t

abbrev pub libs : Libs
libs = record {
  sha256 = λ t. t;
  sha1 = λ t. t;
  base64_url = λ t. t;
  base64_std = shift_up;
  base64_std_decode = λ t. some (shift_down t);
  bcrypt_matches = λ s t. false;
  argon2id = λ plain salt t m p k. pad k (plain ++ salt);
  scan_version = λ t. some 19;
  scan_params = λ t. some (8, 1, 1);
  decimal = λ n. (n + 48) ∷ [];
  jwt_sign = λ sub sid email iat exp. some (sub ∷ sid ∷ []);
  jwt_alg = λ t. some (bytes "RS256");
  jwt_parse = λ now t. some (record { sub = some 1; sid = some 1 });
  parse_address = λ t. some t;
  trim_space = λ t. t;
  login_to_json = λ l. some [];
  login_of_json = λ t. none;
  country_code = λ ip. none;
  collates = λ s t. true;
}

abbrev pub unicode : Unicode
unicode = record {
  runes = λ t. t;
  is_lower = λ r. true;
  is_upper = λ r. true;
  is_digit = λ r. true;
  to_lower = λ t. t;
}

abbrev pub config : Config
config = record {
  key_prefix = [];
  tiers = record { threshold = 5; block = 60 } ∷ record { threshold = 10; block = 900 } ∷ [];
  counter_ttl = 100;
  access_ttl = 50;
  refresh_ttl = 1000;
  travel_window = 10;
  permission_ttl = 10;
  last_login_ttl = 10;
  params = record { memory = 8; iterations = 1; parallelism = 1; salt_length = 1; key_length = 3 };
  admin_email = [];
  admin_password = [];
}

-- The time is the number of the call, and so is the random text.
abbrev pub env : Env
env = record {
  redis = memory;
  libs = libs;
  unicode = unicode;
  config = config;
  sql_fails = λ n. false;
  clock = λ n. n;
  random = λ n k. some (n ∷ []);
  hibp_range = λ n p. none;
}

abbrev pub user : User
user = record {
  id = 1;
  role_id = none;
  name = [];
  email = 7 ∷ [];
  password_hash = [];
  active = true;
  created_at = 0;
  updated_at = 0;
}

-- A session with token 99, still good.
abbrev pub session : Session
session = record {
  id = 1;
  user_id = 1;
  refresh_token_hash = 54 ∷ 51 ∷ [];
  expires_at = 100;
  revoked = false;
  revoked_at = none;
  ip_address = none;
  user_agent = none;
  last_activity_at = none;
  created_at = 0;
}

abbrev pub dead_session : Session
dead_session = record session { revoked = true; revoked_at = some 0 }

abbrev pub tables : Tables
tables = record {
  roles = [];
  users = user ∷ [];
  permissions = [];
  user_permissions = [];
  sessions = session ∷ [];
  audit_logs = [];
  next_user = 2;
  next_permission = 1;
  next_session = 2;
  next_audit = 1;
}

abbrev pub world : World Memory
world = record { db = tables; redis = []; tick = 0 }

-- The same, with the session revoked.
abbrev pub later_world : World Memory
later_world = record { db = record tables { sessions = dead_session ∷ [] }; redis = []; tick = 0 }
