-- ===== src/Tests/Histories.antt =====
-- Histories of a small platform.
use mathlib.Core.List.{Memᴰ}
use secure_auth_platform.Prelude.{
  ℕ, ◌≡◌, refl, ap, sym, ◌∙◌, true, List, [], ◌∷◌, ◌++◌, Text, arith, change, count, find,
  Text-discrete,
}
use secure_auth_platform.Exec.{ok, ◌>>=◌, ◌>>◌, attempt, ignore}
use secure_auth_platform.Models.{Session, AuditLog}
use secure_auth_platform.World.{World, sql, time_now, on_redis, or_fault, read_random}
use secure_auth_platform.Repository.Sessions
use secure_auth_platform.Repository.Users
use secure_auth_platform.Repository.Audit
use secure_auth_platform.Service.Audit.{log}
use secure_auth_platform.Service.Tokens.{
  TokenPair, hash_token, create_session, generate_refresh_token, generate_access_token, new_session,
  hex_encode,
}
use secure_auth_platform.Service.Refresh
use secure_auth_platform.Cache.PermissionCache
use secure_auth_platform.Service.PermissionService.{invalidate_user_cache}
use secure_auth_platform.Server.{Operation, serve, perform}
use secure_auth_platform.Invariants.AuditTrail.{serve-Grows}
use secure_auth_platform.Invariants.Revocation.{serve-Descends, revoked_stays, Descends}
use secure_auth_platform.Invariants.DeadToken.{refresh_once, logout_ends, HasOneHolder, IsOld}
use secure_auth_platform.Prelude.{any}
use secure_auth_platform.Example.{env, world, later_world, session, dead_session, Memory}
use secure_auth_platform.Models.{User}
use secure_auth_platform.Service.Refresh.Rotation.{Found}
use secure_auth_platform.Service.Refresh.Totality.{IsUp}
use secure_auth_platform.Service.Refresh.Race.{interleaved, interleaved_succeed, refresh_succeeds}
use secure_auth_platform.Prelude.{some, ◌==◌}
use secure_auth_platform.Example.{user}
use secure_auth_platform.Service.Refresh.Soundness.{refresh_sound}

abbrev pub history : List Operation
history = Operation.refresh (99 ∷ []) [] [] ∷ Operation.touch 1 ∷ Operation.cleanup ∷ []

serve-Grows_example :
    (more : List AuditLog) × ((serve env history world).db.audit_logs ≡ more ++ world.db.audit_logs)
serve-Grows_example = serve-Grows env history world

serve-Descends_example : Descends world.db (serve env history world).db
serve-Descends_example = serve-Descends env history world

abbrev touched : List Operation
touched = Operation.touch 1 ∷ []

revoked_stays_example : dead_session.revoked ≡ true
unfolding serve perform Refresh.touch_session Sessions.touch_activity Sessions.touch_rows ◌>>=◌ sql
    time_now change
revoked_stays_example =
    revoked_stays env touched later_world dead_session dead_session (omega arith, tt)
      (Memᴰ.head refl) refl (Memᴰ.head refl) refl

abbrev pub token : Text
token = 99 ∷ []

abbrev pub refreshed : World Memory
refreshed = (Refresh.refresh env token [] [] world).1

abbrev pub pair : TokenPair
pair = record {
  access_token = 1 ∷ 2 ∷ [];
  refresh_token = 5 ∷ [];
  refresh_expires_at = 1006;
  session_id = 2;
}

one_holder : HasOneHolder world.db (hash_token env token)
unfolding hash_token hex_encode
one_holder x y (Memᴰ.head e) (Memᴰ.head f) hx hy = ap (λ (s : Session). s.id) (e ∙ sym f)
one_holder x y (Memᴰ.head e) (Memᴰ.tail f) hx hy = elim f [ ]
one_holder x y (Memᴰ.tail f) m hx hy = elim f [ ]

pub refreshed_ok : Refresh.refresh env token [] [] world ≡ (ok pair, refreshed)
unfolding Refresh.refresh Refresh.rotate Refresh.reissue attempt ignore ◌>>=◌ ◌>>◌ sql time_now
    on_redis or_fault read_random Sessions.find_active_by_token_hash Sessions.is_active
    Sessions.revoke_with_timestamp Sessions.revoke_where Sessions.create Sessions.insert_session
    Users.find_by_id find any hash_token hex_encode Text-discrete create_session
    generate_refresh_token generate_access_token new_session log Audit.insert invalidate_user_cache
    PermissionCache.invalidate Sessions.revoke_rows Sessions.revoke_row change count
refreshed_ok = refl

head_of : (t : Text) (b c : ℕ) (r q : Text) → t ≡ b ∷ r → t ≡ c ∷ q → b ≡ c
head_of t b c r q e f = cc

refreshed-IsOld : IsOld (serve env touched refreshed).db 2 (hash_token env token)
unfolding serve perform Refresh.touch_session Sessions.touch_activity Sessions.touch_rows
    Refresh.refresh Refresh.rotate Refresh.reissue attempt ignore ◌>>=◌ ◌>>◌ sql time_now on_redis
    or_fault read_random Sessions.find_active_by_token_hash Sessions.is_active
    Sessions.revoke_with_timestamp Sessions.revoke_where Sessions.create Sessions.insert_session
    Users.find_by_id find any hash_token hex_encode Text-discrete create_session
    generate_refresh_token generate_access_token new_session log Audit.insert invalidate_user_cache
    PermissionCache.invalidate Sessions.revoke_rows Sessions.revoke_row change count
    Audit.insert_log Audit.user_known
refreshed-IsOld x (Memᴰ.head e) h = absurd (
    omega (
      arith,
      head_of x.refresh_token_hash 48 54 _ _ (ap (λ (s : Session). s.refresh_token_hash) e) h,
    ))
refreshed-IsOld x (Memᴰ.tail (Memᴰ.head e)) h = omega (arith, ap (λ (s : Session). s.id) e)
refreshed-IsOld x (Memᴰ.tail (Memᴰ.tail m)) h = elim m [ ]

refresh_once_example :
    ¬ (Refresh.refresh env token [] [] (serve env touched refreshed) ≡ (ok pair, refreshed))
refresh_once_example =
    refresh_once env touched token [] [] [] [] world refreshed refreshed pair pair one_holder
      refreshed_ok refreshed-IsOld

refresh_sound_example :
    (s : Session) × Found world.db (hash_token env token) s
    × (u : User) × Memᴰ u world.db.users
    × (u.id ≡ s.user_id)
    × (u.active ≡ true)
refresh_sound_example = refresh_sound env token [] [] world refreshed pair refreshed_ok

abbrev logged_out : World Memory
logged_out = (Refresh.logout env token world).1

abbrev looked_up : World Memory
looked_up = (Sessions.find_active_by_token_hash env (hash_token env token) world).1

found_ok :
    Sessions.find_active_by_token_hash env (hash_token env token) world ≡ (ok session, looked_up)
unfolding Sessions.find_active_by_token_hash Sessions.is_active hash_token hex_encode find ◌>>=◌ sql
    time_now Text-discrete
found_ok = refl

logged_out_ok : Refresh.logout env token world ≡ (ok tt, logged_out)
unfolding Refresh.logout attempt ignore ◌>>=◌ ◌>>◌ sql time_now Sessions.find_active_by_token_hash
    Sessions.is_active Sessions.revoke_with_timestamp Sessions.revoke_where Sessions.revoke_rows
    change find hash_token hex_encode Text-discrete log Audit.insert Audit.insert_log
    Audit.user_known
logged_out_ok = refl

logged_out-IsOld : IsOld (serve env touched logged_out).db 2 (hash_token env token)
unfolding serve perform Refresh.touch_session Sessions.touch_activity Sessions.touch_rows count
    Refresh.logout attempt ignore ◌>>=◌ ◌>>◌ sql time_now Sessions.find_active_by_token_hash
    Sessions.is_active Sessions.revoke_with_timestamp Sessions.revoke_where Sessions.revoke_rows
    Sessions.revoke_row change find hash_token hex_encode Text-discrete log Audit.insert
    Audit.insert_log Audit.user_known any
logged_out-IsOld x (Memᴰ.head e) h = omega (arith, ap (λ (s : Session). s.id) e)
logged_out-IsOld x (Memᴰ.tail m) h = elim m [ ]

logout_ends_example :
    ¬ (Refresh.refresh env token [] [] (serve env touched logged_out) ≡ (ok pair, refreshed))
logout_ends_example =
    logout_ends env touched token [] [] world logged_out refreshed looked_up session pair one_holder
      found_ok logged_out_ok logged_out-IsOld

env-IsUp : IsUp env
env-IsUp = record {
  sql_up = λ n. refl;
  random_up = λ n k. (n ∷ [], refl);
  sign_up = λ sub sid email iat exp. (sub ∷ sid ∷ [], refl);
}

abbrev looked_again : World Memory
looked_again = (Sessions.find_active_by_token_hash env (hash_token env token) looked_up).1

found_again :
    Sessions.find_active_by_token_hash env (hash_token env token) looked_up
    ≡ (ok session, looked_again)
unfolding Sessions.find_active_by_token_hash Sessions.is_active hash_token hex_encode find ◌>>=◌ sql
    time_now Text-discrete
found_again = refl

owner_found : find (λ u. u.id == session.user_id) world.db.users ≡ some user
unfolding find
owner_found = refl

interleaved_succeed_example :
    (p : TokenPair) × (q : TokenPair) × (v : World Memory) × (interleaved env token [] [] world
      ≡ (ok (p, q), v))
interleaved_succeed_example =
    interleaved_succeed env env-IsUp token [] [] session user world looked_up looked_again found_ok
      found_again owner_found refl

refresh_succeeds_example :
    (p : TokenPair) × (v : World Memory) × (Refresh.refresh env token [] [] world ≡ (ok p, v))
refresh_succeeds_example =
    refresh_succeeds env env-IsUp token [] [] session user world looked_up found_ok owner_found refl
