-- ===== src/Repository/Permissions.antt =====
-- backend/internal/repository/permission.go
use secure_auth_platform.Prelude.{
  ℕ, suc, Bool, not, ◌&&◌, List, [], ◌∷◌, ◌++◌, map, Text, ◌==◌, ◌=t=◌, if◌then◌else◌, any,
  order_by, select, find, count, change,
}
use secure_auth_platform.Exec.{Result, ok, err, fault, not_found}
use secure_auth_platform.Models.{Permission, UserPermission, Tables}
use secure_auth_platform.Env.{Env}
use secure_auth_platform.World.{App, sql}
use secure_auth_platform.Repository.Sessions.{or_not_found}

-- Is there a row of user_permissions for the two?
unfoldable pub holds : List UserPermission → (user permission : ℕ) → Bool
holds rows user permission = any (λ r. r.user_id == user && r.permission_id == permission) rows

-- The codes of the permissions joined to the user.
unfoldable pub codes_of : Tables → ℕ → List Text
codes_of t user = map (λ p. p.code) (select (λ p. holds t.user_permissions user p.id) t.permissions)

-- permissions.code is UNIQUE.
unfoldable pub insert_permission : Permission → ℕ → Tables → Result Permission × Tables
insert_permission p now t =
    if any (λ x. x.code =t= p.code) t.permissions
    then (err fault, t)
    else (let row : Permission = record p { id = t.next_permission; created_at = now } in
        (
          ok row,
          record t { permissions = row ∷ t.permissions; next_permission = suc t.next_permission },
        ))

-- Both columns of user_permissions are foreign keys; ON CONFLICT DO NOTHING.
unfoldable pub insert_grant : (user permission : ℕ) → Tables → Result (Unit {0}) × Tables
insert_grant user permission t =
    if any (λ u. u.id == user) t.users && any (λ p. p.id == permission) t.permissions
    then (
      ok tt,
      (if holds t.user_permissions user permission then t else record t {
        user_permissions =
            record { user_id = user; permission_id = permission } ∷ t.user_permissions;
      }),
    )
    else (err fault, t)

-- The grants of every permission to a user, without those that the user has.
missing_grants : Tables → ℕ → List Permission → List UserPermission
missing_grants t user [] = []
missing_grants t user (p ∷ ps) =
    let rest = missing_grants t user ps in
    if holds t.user_permissions user p.id
    then rest
    else record { user_id = user; permission_id = p.id } ∷ rest

unfoldable pub remove_grant : (user permission : ℕ) → Tables → Tables
remove_grant user permission t = record t {
  user_permissions =
      select (λ r. not (r.user_id == user && r.permission_id == permission)) t.user_permissions;
}

unfoldable pub grant_everything : ℕ → Tables → Result (Unit {0}) × Tables
unfolding missing_grants
grant_everything user t =
    if any (λ u. u.id == user) t.users
    then (
      ok tt,
      record t { user_permissions = missing_grants t user t.permissions ++ t.user_permissions },
    )
    else (err fault, t)

unfoldable pub describe : ℕ → Text → Tables → Result (Unit {0}) × Tables
describe id description t =
    if any (λ p. p.id == id) t.permissions
    then (
      ok tt,
      record t {
        permissions =
            change (λ p. p.id == id) (λ p. record p { description = description }) t.permissions;
      },
    )
    else (err not_found, t)

-- The grants of a deleted permission go with it (ON DELETE CASCADE).
unfoldable pub delete_permission : ℕ → Tables → Result (Unit {0}) × Tables
delete_permission id t =
    if any (λ p. p.id == id) t.permissions
    then (
      ok tt,
      record t {
        permissions = select (λ p. not (p.id == id)) t.permissions;
        user_permissions = select (λ r. not (r.permission_id == id)) t.user_permissions;
      },
    )
    else (err not_found, t)

module _ (env : Env) where
  unfoldable pub list_all : App env (List Permission)
  list_all =
      sql env (λ _ t. (ok (order_by (λ p q. env.libs.collates p.code q.code) t.permissions), t))

  unfoldable pub find_by_code : Text → App env Permission
  find_by_code code = sql env (λ _ t. (or_not_found (find (λ p. p.code =t= code) t.permissions), t))

  unfoldable pub find_by_id : ℕ → App env Permission
  find_by_id id = sql env (λ _ t. (or_not_found (find (λ p. p.id == id) t.permissions), t))

  unfoldable pub list_codes_by_user_id : ℕ → App env (List Text)
  list_codes_by_user_id user = sql env (λ _ t. (ok (codes_of t user), t))

  unfoldable pub grant : (user permission : ℕ) → App env (Unit {0})
  grant user permission = sql env (λ _ t. insert_grant user permission t)

  unfoldable pub revoke : (user permission : ℕ) → App env (Unit {0})
  revoke user permission = sql env (λ _ t. (ok tt, remove_grant user permission t))

  unfoldable pub grant_all : ℕ → App env (Unit {0})
  grant_all user = sql env (λ _ t. grant_everything user t)

  unfoldable pub create : Permission → App env Permission
  create p = sql env (insert_permission p)

  unfoldable pub update_description : ℕ → Text → App env (Unit {0})
  update_description id description = sql env (λ _ t. describe id description t)

  unfoldable pub delete : ℕ → App env (Unit {0})
  delete id = sql env (λ _ t. delete_permission id t)

  unfoldable pub count_assignments : ℕ → App env ℕ
  count_assignments permission =
      sql env (λ _ t. (ok (count (λ r. r.permission_id == permission) t.user_permissions), t))

  unfoldable pub count_active_users_with_code : Text → App env ℕ
  count_active_users_with_code code = sql env (λ _ t. (
    ok (
        count
          (λ u.
            u.active
            && any (λ p. p.code =t= code && holds t.user_permissions u.id p.id) t.permissions)
          t.users),
    t,
  ))
