-- ===== src/Service/UserService.antt =====
-- backend/internal/service/user.go, user_authz.go
pub mod Runs
pub mod Gates
pub mod Deactivation
use secure_auth_platform.Prelude.{
  ℕ, Bool, true, false, not, ◌&&◌, ◌||◌, List, [], ◌∷◌, ◌++◌, Option, none, some, Text, bytes, leb,
  ◌==◌, ◌=t=◌, any, if◌then◌else◌,
}
use secure_auth_platform.Exec.{
  Result, ok, err, not_found, email_taken, cannot_deactivate_self, forbidden, last_admin, pure,
  fail, attempt, ignore, from_result, ◌>>=◌, ◌>>◌,
}
use secure_auth_platform.Models.{User, Data, Datum, text, number, truth, null}
use secure_auth_platform.Env.{Env}
use secure_auth_platform.World.{App}
use secure_auth_platform.Repository.Users
use secure_auth_platform.Repository.Sessions
use secure_auth_platform.Password.{hash_password}
use secure_auth_platform.PasswordPolicy.{validate_email, validate_password_secure}
use secure_auth_platform.Service.Audit.{log}
use secure_auth_platform.Service.PermissionService.{
  has_permission, list_codes_by_user, count_active_users_with_star, invalidate_user_cache,
}

pub record CreateUserInput : Type 0 where
  pub name : Text
  pub email : Text
  pub password : Text
  pub role_id : Option ℕ

pub record UpdateUserInput : Type 0 where
  pub name : Option Text
  pub email : Option Text
  pub password : Option Text
  pub role_id : Option ℕ
  pub active : Option Bool

abbrev pub is_some : {A : Type 0} → Option A → Bool
is_some none = false
is_some (some a) = true

abbrev pub or_else : {A : Type 0} → Option A → A → A
or_else none a = a
or_else (some b) a = b

-- `p != nil && !*p`
abbrev pub turns_off : Option Bool → Bool
turns_off none = false
turns_off (some b) = not b

role_datum : Option ℕ → Datum
role_datum none = null
role_datum (some r) = number r

user_data : User → Data
unfolding role_datum
user_data u =
    (bytes "name", text u.name)
    ∷ (bytes "email", text u.email)
    ∷ (bytes "roleId", role_datum u.role_id)
    ∷ (bytes "active", truth u.active)
    ∷ []

module _ (env : Env) where
  unfoldable pub list : App env (List User)
  list = Users.list env

  unfoldable pub find_by_id : ℕ → App env User
  find_by_id id = Users.find_by_id env id

  unfoldable pub require_permission : ℕ → Text → App env (Unit {0})
  require_permission actor code = do
    allowed ← has_permission env actor code
    if allowed then pure tt else fail forbidden

  unfoldable pub user_has_permission_code : ℕ → Text → App env Bool
  user_has_permission_code user code = do
    codes ← list_codes_by_user env user
    pure (any (λ c. c =t= code) codes)

  -- The address must be free: a hit is an error, an error other than a miss is passed on.
  email_is_free : Result User → App env (Unit {0})
  email_is_free (ok u) = fail email_taken
  email_is_free (err not_found) = pure tt
  email_is_free (err e) = fail e

  unfoldable pub create : ℕ → CreateUserInput → App env User
  unfolding email_is_free role_datum
  create actor input = do
    from_result (validate_email env input.email)
    validate_password_secure env input.password input.name input.email
    existing ← attempt (Users.find_by_email env input.email)
    email_is_free existing
    hash ← hash_password env input.password
    user ← Users.create env (record {
      id = 0;
      role_id = input.role_id;
      name = input.name;
      email = input.email;
      password_hash = hash;
      active = true;
      created_at = 0;
      updated_at = 0;
    })
    log env (some actor) (bytes "user.created") (bytes "user") (some user.id) none (
        some (
          (bytes "name", text user.name)
          ∷ (bytes "email", text user.email)
          ∷ (bytes "roleId", role_datum user.role_id)
          ∷ []))
    pure user

  require_if : Bool → ℕ → Text → App env (Unit {0})
  require_if b actor code = if b then require_permission actor code else pure tt

  -- Each group of fields has its own permission.
  unfoldable pub require_for_update : ℕ → UpdateUserInput → App env (Unit {0})
  unfolding require_if
  require_for_update actor input = do
    require_if (is_some input.name || is_some input.email || is_some input.role_id) actor
        (bytes "users.update")
    require_if (is_some input.password) actor (bytes "users.password.reset")
    require_if (is_some input.active) actor (bytes "users.deactivate")

  refuse_if_last : Bool → App env (Unit {0})
  refuse_if_last false = pure tt
  refuse_if_last true = do
    count ← count_active_users_with_star env
    if leb count 1 then fail last_admin else pure tt

  -- The last active holder of `*` is not deactivated.
  unfoldable pub protect_last_admin : ℕ → UpdateUserInput → User → App env (Unit {0})
  unfolding refuse_if_last
  protect_last_admin user_id input user =
      if turns_off input.active && user.active
      then (do has_star ← user_has_permission_code user_id (bytes "*"); refuse_if_last has_star)
      else pure tt

  -- Another account may not have the address.
  email_is_free_for : ℕ → Result User → App env (Unit {0})
  email_is_free_for user_id (ok u) = if u.id == user_id then pure tt else fail email_taken
  email_is_free_for user_id (err not_found) = pure tt
  email_is_free_for user_id (err e) = fail e

  check_new_email : ℕ → User → Option Text → App env (Unit {0})
  unfolding email_is_free_for
  check_new_email user_id user none = pure tt
  check_new_email user_id user (some email) = do
    from_result (validate_email env email)
    if email =t= user.email then pure tt else (do
      existing ← attempt (Users.find_by_email env email)
      email_is_free_for user_id existing)

  -- The hash to store: a new one for a new password.
  new_hash : (name email : Text) → User → Option Text → App env Text
  new_hash name email user none = pure user.password_hash
  new_hash name email user (some password) = do
    validate_password_secure env password name email
    hash_password env password

  after_deactivation : ℕ → Bool → App env (Unit {0})
  after_deactivation user_id false = pure tt
  after_deactivation user_id true = do
    ignore (Sessions.revoke_all_by_user env user_id)
    invalidate_user_cache env user_id

  log_update : (actor user_id : ℕ) (old now : User) (password_changed : Bool) → App env (Unit {0})
  unfolding user_data
  log_update actor user_id old now password_changed = do
    log env (some actor) (bytes "user.updated") (bytes "user") (some user_id) (some (user_data old))
        (some (
          user_data now
          ++ (if password_changed then (bytes "passwordChanged", truth true) ∷ [] else [])))
    if old.active && not now.active
        then log env (some actor) (bytes "user.deactivated") (bytes "user") (some user_id)
            (some (user_data old)) (some ((bytes "active", truth false) ∷ []))
        else pure tt
    if not old.active && now.active
        then log env (some actor) (bytes "user.activated") (bytes "user") (some user_id)
            (some (user_data old)) (some ((bytes "active", truth true) ∷ []))
        else pure tt

  -- The row with the new fields, and what follows from the change.
  unfoldable pub apply_update : (actor user_id : ℕ) → UpdateUserInput → User → App env User
  unfolding check_new_email new_hash after_deactivation log_update
  apply_update actor user_id input user = do
    check_new_email user_id user input.email
    hash ←
        new_hash (or_else input.name user.name) (or_else input.email user.email) user input.password
    updated ← Users.update env (record user {
      role_id = elim input.role_id [ none ↦ user.role_id | some r ↦ some r ];
      name = or_else input.name user.name;
      email = or_else input.email user.email;
      password_hash = hash;
      active = or_else input.active user.active;
    })
    after_deactivation user_id (user.active && turns_off input.active)
    log_update actor user_id user updated (is_some input.password)
    pure updated

  unfoldable pub update : (actor user_id : ℕ) → UpdateUserInput → App env User
  update actor user_id input = do
    if turns_off input.active && actor == user_id then fail cannot_deactivate_self else pure tt
    require_for_update actor input
    user ← Users.find_by_id env user_id
    protect_last_admin user_id input user
    apply_update actor user_id input user
