-- ===== src/Tests/Credentials.antt =====
-- A stored password, and a login with it.
use secure_auth_platform.Prelude.{
  ℕ, ◌≡◌, refl, ap, [], ◌∷◌, ◌++◌, Text, bytes, arith, find, Text-discrete, has_prefix,
}
use secure_auth_platform.Exec.{ok, ◌>>=◌, ◌>>◌, attempt, ignore}
use secure_auth_platform.World.{World, sql, time_now, on_redis, or_fault, read_random}
use secure_auth_platform.Repository.Sessions
use secure_auth_platform.Repository.Users
use secure_auth_platform.Repository.Audit
use secure_auth_platform.Service.Audit.{log}
use secure_auth_platform.Service.Tokens.{
  TokenPair, hash_token, create_session, generate_refresh_token, generate_access_token, new_session,
  non_empty, hex_encode,
}
use secure_auth_platform.Cache.PermissionCache
use secure_auth_platform.Service.PermissionService.{invalidate_user_cache}
use secure_auth_platform.Models.{User}
use secure_auth_platform.Cache.RateLimit
use secure_auth_platform.Password
use secure_auth_platform.Password.{hash_password, verify, phc_string}
use secure_auth_platform.Password.Parts.{has_dollar}
use secure_auth_platform.Password.RoundTrip.{HashLaws, key, verify-hash_password, hash_round_trip}
use secure_auth_platform.Cache.RateLimit.{Verdict, check, full_key, block_key, block_duration}
use secure_auth_platform.Service.Login
use secure_auth_platform.Service.Login.Soundness.{login_sound, Authentic}
use secure_auth_platform.Exec.{err, password_mismatch}
use secure_auth_platform.Prelude.{zero, select, suc, some, false, any, length, ◌=t=◌, if◌then◌else◌}
use secure_auth_platform.Example.{shift_up, shift_down, pad, user, tables, env, world, Memory}

-- The user with the password 9, hashed with the salt 0.
abbrev pub stored : Text
stored = phc_string env 8 1 1 (0 ∷ []) (9 ∷ 0 ∷ 0 ∷ [])

abbrev hashed_world : World Memory
hashed_world = record world { tick = 1 }

no_dollar_in_code : (n : ℕ) → has_dollar (env.libs.decimal n) ≡ false
unfolding any
no_dollar_in_code n = ground arith

no_dollar_up : (t : Text) → has_dollar (env.libs.base64_std t) ≡ false
unfolding any
no_dollar_up [] = refl
no_dollar_up (b ∷ t) = ground (arith, no_dollar_up t)

down_up : (t : Text) → shift_down (shift_up t) ≡ t
down_up [] = refl
down_up (b ∷ t) = ground (arith, down_up t)

length-pad : (k : ℕ) (t : Text) → length (pad k t) ≡ k
length-pad zero t = refl
length-pad (suc k) [] = omega (arith, length-pad k [])
length-pad (suc k) (b ∷ t) = omega (arith, length-pad k t)

laws : HashLaws env
laws = record {
  decimal_plain = no_dollar_in_code;
  base64_plain = no_dollar_up;
  base64_round = λ t. ap some (down_up t);
  version_read = refl;
  costs_read = refl;
  key_size = λ plain salt t m p k. length-pad k (plain ++ salt);
}

hashed_ok : hash_password env (9 ∷ []) world ≡ (ok stored, hashed_world)
unfolding hash_password read_random or_fault ◌>>=◌
hashed_ok = refl

verify-hash_password_example :
    (salt : Text) × ((other : Text)
      → verify env stored other ≡ (
          if key env laws (9 ∷ []) salt =t= key env laws other salt
          then ok false
          else err password_mismatch))
verify-hash_password_example =
    verify-hash_password env laws (9 ∷ []) world hashed_world stored hashed_ok

hash_round_trip_example : verify env stored (9 ∷ []) ≡ ok false
hash_round_trip_example = hash_round_trip env laws (9 ∷ []) world hashed_world stored hashed_ok

abbrev pub member : User
member = record user { password_hash = stored }

abbrev pub member_world : World Memory
member_world = record world { db = record tables { users = member ∷ [] } }

abbrev pub entered : World Memory
entered = (Login.login env (7 ∷ []) (9 ∷ []) (3 ∷ []) [] member_world).1

abbrev pub login_pair : TokenPair
login_pair = record {
  access_token = 1 ∷ 2 ∷ [];
  refresh_token = 3 ∷ [];
  refresh_expires_at = 1004;
  session_id = 2;
}

pub login_ok : Login.login env (7 ∷ []) (9 ∷ []) (3 ∷ []) [] member_world ≡ (ok login_pair, entered)
unfolding Login.login ◌>>◌ Login.check_login_rate_limit attempt on_redis check ignore block_duration
    Text-discrete full_key RateLimit.login_ip_key bytes block_key RateLimit.login_email_key select
    Login.authenticate Users.find_by_email sql PermissionCache.cache_key PermissionCache.invalidate
    RateLimit.block_from RateLimit.reset ◌>>=◌ Password.decode_argon2id phc_string Password.split
    verify Password.verify_argon2id has_prefix any find Audit.insert Audit.insert_log
    Audit.user_known Sessions.create Sessions.insert_session log Login.after_login
    Login.check_impossible_travel invalidate_user_cache create_session generate_access_token
    generate_refresh_token hash_token hex_encode new_session non_empty or_fault read_random time_now
login_ok = refl

login_sound_example : (u : User) × Authentic env member_world.db (7 ∷ []) (9 ∷ []) u
login_sound_example =
    login_sound env (7 ∷ []) (9 ∷ []) (3 ∷ []) [] member_world entered login_pair login_ok
