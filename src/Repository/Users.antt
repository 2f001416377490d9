-- ===== src/Repository/Users.antt =====
-- backend/internal/repository/user.go and role.go
use secure_auth_platform.Prelude.{
  ℕ, suc, Bool, true, not, ◌&&◌, ◌||◌, List, ◌∷◌, Option, none, some, Text, leb, ◌==◌, ◌=t=◌,
  if◌then◌else◌, any, order_by, find, length, change,
}
use secure_auth_platform.Exec.{Result, ok, err, fault, not_found, pure, ◌>>=◌, ◌>>◌}
use secure_auth_platform.Models.{User, Role, Tables}
use secure_auth_platform.Env.{Env}
use secure_auth_platform.World.{App, sql, time_now}
use secure_auth_platform.Repository.Sessions.{or_not_found}

-- users.role_id REFERENCES roles(id)
unfoldable pub role_exists : Option ℕ → Tables → Bool
role_exists none t = true
role_exists (some r) t = any (λ x. x.id == r) t.roles

-- users.email is UNIQUE.
unfoldable pub insert_user : User → ℕ → Tables → Result User × Tables
unfolding role_exists
insert_user u now t =
    if any (λ x. x.email =t= u.email) t.users || not (role_exists u.role_id t)
    then (err fault, t)
    else (let row : User = record u { id = t.next_user; created_at = now; updated_at = now } in
        (ok row, record t { users = row ∷ t.users; next_user = suc t.next_user }))

-- The columns that `Update` writes.
abbrev pub update_row : User → User → User
update_row u x = record x {
  role_id = u.role_id;
  name = u.name;
  email = u.email;
  password_hash = u.password_hash;
  active = u.active;
  updated_at = u.updated_at;
}

-- No row is no conflict: the constraints are those of the row that is written.
unfoldable pub write_user : User → Tables → Result (Unit {0}) × Tables
unfolding role_exists
write_user u t =
    if any (λ x. x.id == u.id) t.users
    then (if any (λ x. x.email =t= u.email && not (x.id == u.id)) t.users
          || not (role_exists u.role_id t)
        then (err fault, t)
        else (ok tt, record t { users = change (λ x. x.id == u.id) (update_row u) t.users }))
    else (err not_found, t)

unfoldable pub rehash_user : ℕ → Text → ℕ → Tables → Result (Unit {0}) × Tables
rehash_user id hash now t =
    if any (λ u. u.id == id) t.users
    then (
      ok tt,
      record t {
        users =
            change (λ u. u.id == id) (λ u. record u { password_hash = hash; updated_at = now })
              t.users;
      },
    )
    else (err not_found, t)

module _ (env : Env) where
  unfoldable pub find_by_email : Text → App env User
  find_by_email email = sql env (λ _ t. (or_not_found (find (λ u. u.email =t= email) t.users), t))

  unfoldable pub find_by_id : ℕ → App env User
  find_by_id id = sql env (λ _ t. (or_not_found (find (λ u. u.id == id) t.users), t))

  unfoldable pub list : App env (List User)
  list = sql env (λ _ t. (ok (order_by (λ u x. leb u.id x.id) t.users), t))

  unfoldable pub count_users : App env ℕ
  count_users = sql env (λ _ t. (ok (length t.users), t))

  unfoldable pub create : User → App env User
  create u = sql env (insert_user u)

  unfoldable pub update_password_hash : ℕ → Text → App env (Unit {0})
  update_password_hash id hash = do now ← time_now env; sql env (λ _ t. rehash_user id hash now t)

  -- The row as it was written, with the new `updated_at`.
  unfoldable pub update : User → App env User
  update u = do
    now ← time_now env
    let row : User = record u { updated_at = now }
    sql env (λ _ t. write_user row t)
    pure row

  unfoldable pub roles : App env (List Role)
  roles = sql env (λ _ t. (ok (order_by (λ r x. env.libs.collates r.name x.name) t.roles), t))
