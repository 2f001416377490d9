-- ===== src/Tests/Starts.antt =====
-- The start of a small platform, and what it keeps in Redis.
use mathlib.Core.List.{Memᴰ}
use secure_auth_platform.Prelude.{
  ℕ, suc, ◌≤◌, ◌<◌, ◌*◌, ◌-◌, ◌^◌, ◌≡◌, refl, sym, ap, ◌∙◌, true, false, List, [], ◌∷◌, none, some,
  Text, bytes, pos, negsuc, arith, inr, any, parse_int64, digits, digits_from, Text-discrete, ◌=t=◌,
  if◌then◌else◌,
}
use secure_auth_platform.Exec.{ok, ignore, outcome-eq, ◌>>=◌, ◌>>◌}
use secure_auth_platform.Cache.PermissionCache.{cache_key, flush_all}
use secure_auth_platform.Cache.PermissionCache.Flush.{flush_all_empties}
use secure_auth_platform.Tests.Scans.{holds, scans}
use secure_auth_platform.Cache.RateLimit.{Verdict, block_duration}
use secure_auth_platform.Cache.RateLimit.Progress.{Counter, attempts, attempts_block}
use secure_auth_platform.Startup.{Outside}
use secure_auth_platform.Startup.EnvVars.{minute, env_minutes, env_minutes_range}
use secure_auth_platform.Startup.Keys.{
  JwtKeyPair, private_of_block, load_private_key, load_public_key, load_jwt_keys,
}
use secure_auth_platform.Startup.Keys.Loaded.{AreLoaded, load_jwt_keys_sound}
use secure_auth_platform.Startup.GeoIp.{nop}
use secure_auth_platform.Startup.App.{
  default_login_rate_tiers, AppConfig, run_migrations, connect, new_client, ping, jwt_keys,
  resolve_geo_ip, settings, step, new,
}
use secure_auth_platform.World.{World, on_redis}
use secure_auth_platform.Startup.Flushing.{flushed_start, new_app, IsFresh, new_app_empties}
use secure_auth_platform.Startup.Sound.{default_block, HasStarted, new_sound}
use secure_auth_platform.Example.{env, world, Memory, look, put, star_fits}

abbrev two_keys : Memory
two_keys = (bytes "permissions:user:1", 1) ∷ (bytes "permissions:user:2", 1) ∷ []

flush_all_empties_example :
    (v : Memory) × (flush_all env 3 two_keys ≡ (ok true, v))
    × ((k : Text) → star_fits (bytes "permissions:user:*") k ≡ true → holds k v ≡ false)
    × ((user : ℕ) → holds (cache_key env user) v ≡ false)
    × ((k : Text) → holds k v ≡ true → holds k two_keys ≡ true)
unfolding bytes
flush_all_empties_example = flush_all_empties env scans 3 two_keys refl (omega arith)

look-put : (k : Text) (n : ℕ) (m : Memory) → look (put k n m) k ≡ n
look-put k n m = ground arith

counter : Counter env
counter = record {
  count = λ k m. look m k;
  ttl_keeps = λ j k s s' r e. ap (λ x. look x.1 k) (sym e);
  expire_keeps = λ j k d s. refl;
  incr_adds = λ k s s' n e.
      let (counted, stored) = outcome-eq e in
      (sym counted, ap (λ (m : Memory). look m k) stored ∙ look-put k (suc (look s k)) s ∙ counted);
  ttl_answers = λ k s. (look s k, s, refl);
  incr_answers = λ k s. (suc (look s k), put k (suc (look s k)) s, refl);
  flag_answers = λ k v d s. (tt, put k d s, refl);
}

attempts_block_example :
    (vs : List Verdict) × (s' : Memory) × (attempts env counter (bytes "login:ip:x") 5 []
      ≡ (ok vs, s'))
    × (any (λ v. v.blocked) vs ≡ true)
attempts_block_example =
    attempts_block env counter (bytes "login:ip:x") (record { threshold = 5; block = 60 }) []
      (Memᴰ.head refl) (omega arith) (omega arith)

abbrev getenv : Text → Text
getenv key = bytes "45"

forty_five : parse_int64 (getenv (bytes "IMPOSSIBLE_TRAVEL_WINDOW_MINUTES")) ≡ some (pos 45)
unfolding parse_int64 digits digits_from bytes
forty_five = refl

env_minutes_range_example :
    (45 * minute < 2 ^ 63
      → env_minutes getenv (λ t. none) (bytes "IMPOSSIBLE_TRAVEL_WINDOW_MINUTES") 30
        ≡ pos (45 * minute))
    × (2 ^ 63 ≤ 45 * minute
        → 45 * minute < 2 ^ 64
        → env_minutes getenv (λ t. none) (bytes "IMPOSSIBLE_TRAVEL_WINDOW_MINUTES") 30
          ≡ negsuc (2 ^ 64 - 1 - 45 * minute))
env_minutes_range_example =
    env_minutes_range getenv (λ t. none) (bytes "IMPOSSIBLE_TRAVEL_WINDOW_MINUTES") 30 44 forty_five

default_block_example : block_duration default_login_rate_tiers 12 ≡ 15 * minute
default_block_example = default_block 12

-- Files whose text is their name: a private key in the one named 1, a public key in any other.
abbrev out : Outside
out = record {
  PrivateKey = ℕ;
  PublicKey = ℕ;
  Reader = ℕ;
  Address = ℕ;
  read_file = λ path. some path;
  pem_decode =
      λ file. some (if file =t= (1 ∷ []) then bytes "PRIVATE KEY" else bytes "PUBLIC KEY", file);
  parse_pkcs1 = λ body. none;
  parse_pkcs8 = λ body. some (some 7);
  parse_pkix = λ body. some (some 8);
  open_reader = λ path. none;
  parse_ip = λ ip. none;
  country = λ r a. none;
  new_migrate = λ source dsn. true;
  migrate_up = λ source dsn. true;
  ping_postgres = λ dsn. true;
  parse_redis_url = λ url. true;
  ping_redis = λ url. true;
}

abbrev keys : JwtKeyPair out
keys = record { private = 7; public = 8 }

keys_ok : load_jwt_keys out (1 ∷ []) (2 ∷ []) ≡ some keys
unfolding load_jwt_keys load_private_key load_public_key private_of_block bytes Text-discrete
keys_ok = refl

load_jwt_keys_sound_example : AreLoaded out (1 ∷ []) (2 ∷ []) keys
load_jwt_keys_sound_example = load_jwt_keys_sound out (1 ∷ []) (2 ∷ []) keys keys_ok

-- A configuration with nothing but a key pair and two paths.
abbrev config : AppConfig out
config = record {
  database_url = 1 ∷ [];
  migrations_path = [];
  redis_url = 2 ∷ [];
  redis_key_prefix = [];
  jwt_private_key_path = 1 ∷ [];
  jwt_public_key_path = 2 ∷ [];
  jwt_key_pair = none;
  access_ttl = pos 1;
  refresh_ttl = pos 1;
  perm_cache_ttl = pos 1;
  login_rate_tiers = [];
  login_counter_ttl = pos 0;
  admin_email = [];
  admin_password = [];
  cookie_secure = false;
  geoip_db_path = [];
  geoip_lookup = none;
  impossible_travel_window = pos 0;
  argon2_memory = 0;
}

started : new out config ≡ inr (settings out config keys nop)
unfolding new run_migrations connect new_client ping jwt_keys resolve_geo_ip step Text-discrete
started = rw keys_ok refl

new_sound_example : HasStarted out config (settings out config keys nop)
new_sound_example = new_sound out config (settings out config keys nop) started

abbrev full : World Memory
full = record world { redis = two_keys }

abbrev flushed : World Memory
flushed = (flushed_start env out 3 (inr (settings out config keys nop)) full).1

flushed_ok : new_app env out 3 config full ≡ (ok (inr (settings out config keys nop)), flushed)
unfolding new_app flushed_start ignore on_redis ◌>>◌ ◌>>=◌
flushed_ok = rw started refl

new_app_empties_example :
    (new out config ≡ inr (settings out config keys nop)) × IsFresh env out scans full flushed
unfolding bytes
new_app_empties_example =
    new_app_empties env out scans 3 config (settings out config keys nop) full flushed refl
      (omega arith) flushed_ok
