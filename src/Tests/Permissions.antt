-- ===== src/Tests/Permissions.antt =====
-- Codes, grants and the permissions of two administrators.
use mathlib.Core.List.{Memᴰ}
use secure_auth_platform.Prelude.{
  ◌≡◌, ◌<◌, refl, true, List, [], ◌∷◌, Text, bytes, change, count, find, Text-discrete, has_suffix,
  has_prefix, trim_suffix, ◌⊎◌, ◌↔◌,
}
use secure_auth_platform.Exec.{ok, ◌>>=◌, ◌>>◌, attempt, ignore}
use secure_auth_platform.World.{World, sql, time_now, on_redis}
use secure_auth_platform.Repository.Sessions
use secure_auth_platform.Repository.Users
use secure_auth_platform.Repository.Audit
use secure_auth_platform.Service.Audit.{log}
use secure_auth_platform.Cache.PermissionCache
use secure_auth_platform.Service.PermissionService.{invalidate_user_cache}
use secure_auth_platform.PermissionMatch.{match_permission, covers}
use secure_auth_platform.PermissionMatch.Laws.{match_permission_iff, match_permission-cons, Covers}
use secure_auth_platform.Models.{Permission, User}
use secure_auth_platform.Service.PermissionService.{validate_permission_code, matches_code_pattern}
use secure_auth_platform.Service.PermissionService.Authority.{created_code_covers, grant_sound}
use secure_auth_platform.Service.PermissionService.Decision.{has_permission_decides}
use secure_auth_platform.Prelude.{none, ◌==◌, ◌&&◌}
use secure_auth_platform.Service.PermissionService.Freshness.{Forgets, revoke_takes_effect}
use secure_auth_platform.Exec.{outcome-eq}
use secure_auth_platform.Prelude.{sym}
use secure_auth_platform.Service.UserService.Deactivation.{AreClosed, update_closes_sessions}
use secure_auth_platform.Service.UserService
use secure_auth_platform.Service.UserService.{UpdateUserInput}
use secure_auth_platform.Service.UserService.Gates.{update_keeps_admin, holds_star, star_holders}
use secure_auth_platform.Service.PermissionService
use secure_auth_platform.Repository.Permissions
use secure_auth_platform.Repository.Permissions.{codes_of}
use secure_auth_platform.Prelude.{select, some, false, any}
use secure_auth_platform.Example.{user, tables, env, world, Memory}

match_permission_iff_example :
    (match_permission (bytes "users.*" ∷ []) (bytes "users.read") ≡ true)
    ↔ ((g : Text) × Memᴰ g (bytes "users.*" ∷ []) × Covers g (bytes "users.read"))
match_permission_iff_example = match_permission_iff (bytes "users.*" ∷ []) (bytes "users.read")

by_star : match_permission (bytes "*" ∷ []) (bytes "users.*") ≡ true
unfolding match_permission covers Text-discrete bytes
by_star = refl

by_users : match_permission (bytes "users.*" ∷ []) (bytes "users.read") ≡ true
unfolding match_permission covers Text-discrete bytes has_suffix has_prefix trim_suffix
by_users = refl

match_permission-cons_example :
    (match_permission [] (bytes "users.read") ≡ true)
    ⊎ (match_permission (bytes "*" ∷ []) (bytes "users.read") ≡ true)
match_permission-cons_example =
    match_permission-cons (bytes "*" ∷ []) [] (bytes "users.*") (bytes "users.read") by_star
      by_users

code_ok : validate_permission_code (bytes "a.b") ≡ ok tt
unfolding validate_permission_code matches_code_pattern bytes Text-discrete has_suffix
code_ok = refl

code_covers : match_permission (bytes "a.b" ∷ []) (bytes "a.b") ≡ true
unfolding match_permission covers Text-discrete bytes
code_covers = refl

created_code_covers_example : bytes "a.b" ≡ bytes "a.b"
created_code_covers_example = created_code_covers (bytes "a.b") (bytes "a.b") code_ok code_covers

abbrev star : Permission
star = record { id = 1; code = bytes "*"; description = []; created_at = 0 }

abbrev admin_world : World Memory
admin_world = record world {
  db = record tables {
    permissions = star ∷ [];
    user_permissions = record { user_id = 1; permission_id = 1 } ∷ [];
  };
}

abbrev given : World Memory
given = (PermissionService.grant env 1 1 1 admin_world).1

given_ok : PermissionService.grant env 1 1 1 admin_world ≡ (ok tt, given)
unfolding PermissionService.grant ◌>>=◌ Users.find_by_id sql find Permissions.find_by_id
    PermissionService.actor_can_grant Permissions.list_codes_by_user_id ◌>>◌ match_permission
    codes_of select Permissions.holds any covers Text-discrete bytes Permissions.grant
    PermissionCache.cache_key PermissionCache.invalidate ignore Audit.insert Audit.insert_log
    Audit.user_known Permissions.insert_grant log invalidate_user_cache on_redis
given_ok = refl

grant_sound_example :
    (p : Permission) × Memᴰ p admin_world.db.permissions
    × (p.id ≡ 1)
    × (match_permission (codes_of admin_world.db 1) p.code ≡ true)
grant_sound_example = grant_sound env 1 1 1 admin_world given given_ok

abbrev looked : World Memory
looked = (PermissionService.has_permission env 1 (bytes "users.read") admin_world).1

looked_ok :
    PermissionService.has_permission env 1 (bytes "users.read") admin_world ≡ (ok true, looked)
unfolding PermissionService.has_permission ◌>>=◌ attempt PermissionService.decide on_redis
    PermissionCache.get PermissionService.check_and_fill Permissions.list_codes_by_user_id sql ◌>>◌
    ignore match_permission codes_of select Permissions.holds any covers Text-discrete
    PermissionCache.cache_key PermissionCache.set bytes has_prefix has_suffix trim_suffix
    PermissionService.check_in_database
looked_ok = refl

has_permission_decides_example :
    (match_permission (codes_of admin_world.db 1) (bytes "users.read") ≡ true)
    ⊎ ((codes : List Text) × (s : Memory) × (env.redis.smembers
            (PermissionCache.cache_key env 1)
            admin_world.redis
          ≡ (ok codes, s))
        × (PermissionCache.is_empty codes ≡ false)
        × (match_permission codes (bytes "users.read") ≡ true))
has_permission_decides_example =
    has_permission_decides env 1 (bytes "users.read") admin_world looked true looked_ok

-- Two administrators, of whom the first turns the second off.
abbrev second_user : User
second_user = record user { id = 2; email = 8 ∷ [] }

abbrev two_admins : World Memory
two_admins = record admin_world {
  db = record admin_world.db {
    users = second_user ∷ user ∷ [];
    user_permissions =
        record { user_id = 2; permission_id = 1 } ∷ record { user_id = 1; permission_id = 1 } ∷ [];
  };
}

abbrev off : UpdateUserInput
off = record { name = none; email = none; password = none; role_id = none; active = some false }

abbrev turned_off : World Memory
turned_off = (UserService.update env 1 2 off two_admins).1

abbrev off_user : User
off_user = record second_user { active = false; updated_at = 6 }

turned_off_ok : UserService.update env 1 2 off two_admins ≡ (ok off_user, turned_off)
unfolding UserService.update UserService.require_permission UserService.require_for_update
    UserService.protect_last_admin UserService.user_has_permission_code UserService.apply_update
    PermissionService.list_codes_by_user PermissionService.count_active_users_with_star
    Permissions.count_active_users_with_code count change find Users.find_by_id Users.update
    Users.write_user time_now Sessions.revoke_all_by_user Sessions.revoke_where Sessions.revoke_rows
    log Audit.insert Audit.insert_log Audit.user_known invalidate_user_cache
    PermissionCache.invalidate PermissionService.has_permission ◌>>=◌ attempt
    PermissionService.decide on_redis PermissionCache.get PermissionService.check_and_fill
    Permissions.list_codes_by_user_id sql ◌>>◌ ignore match_permission codes_of select
    Permissions.holds any covers Text-discrete PermissionCache.cache_key PermissionCache.set bytes
    has_prefix has_suffix trim_suffix PermissionService.check_in_database
turned_off_ok = refl

update_keeps_admin_example :
    ((1 == 2) ≡ false)
    × (u : User) × Memᴰ u two_admins.db.users
    × (u.id ≡ 2)
    × (((u.active && holds_star two_admins.db 2) ≡ false) ⊎ (1 < star_holders two_admins.db))
update_keeps_admin_example =
    update_keeps_admin env 1 2 off two_admins turned_off off_user turned_off_ok refl

update_closes_sessions_example :
    AreClosed turned_off.db 2
    ⊎ ((u : User) × Memᴰ u two_admins.db.users × (u.id ≡ 2) × (u.active ≡ false))
update_closes_sessions_example =
    update_closes_sessions env (λ n. refl) 1 2 off two_admins turned_off off_user turned_off_ok refl

abbrev taken : World Memory
taken = (PermissionService.revoke env 1 1 1 admin_world).1

taken_ok : PermissionService.revoke env 1 1 1 admin_world ≡ (ok tt, taken)
unfolding PermissionService.revoke ◌>>=◌ Users.find_by_id sql find Permissions.find_by_id ◌>>◌
    Permissions.revoke ignore log invalidate_user_cache
taken_ok = refl

abbrev refused_world : World Memory
refused_world = (PermissionService.has_permission env 1 (bytes "users.read") taken).1

refused_ok :
    PermissionService.has_permission env 1 (bytes "users.read") taken ≡ (ok false, refused_world)
unfolding PermissionService.has_permission ◌>>=◌ attempt PermissionService.decide on_redis
    PermissionCache.get PermissionService.check_and_fill Permissions.list_codes_by_user_id sql ◌>>◌
    ignore match_permission codes_of select Permissions.holds any covers Text-discrete
    PermissionCache.cache_key PermissionCache.set bytes has_prefix has_suffix trim_suffix
    PermissionService.check_in_database PermissionService.revoke Users.find_by_id find
    Permissions.find_by_id Permissions.revoke Permissions.remove_grant log invalidate_user_cache
    Audit.insert Audit.insert_log Audit.user_known PermissionCache.invalidate
refused_ok = refl

memory-Forgets : Forgets env
memory-Forgets = record { forgotten = λ k s t codes h. sym (outcome-eq h).0 }

revoke_takes_effect_example :
    (Permissions.holds taken.db.user_permissions 1 1 ≡ false)
    × (match_permission (codes_of taken.db 1) (bytes "users.read") ≡ false)
revoke_takes_effect_example =
    revoke_takes_effect env memory-Forgets 1 1 1 (bytes "users.read") admin_world taken
      refused_world false taken_ok refused_ok
