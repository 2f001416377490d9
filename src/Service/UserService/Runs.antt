-- ===== src/Service/UserService/Runs.antt =====
-- Creating and updating users are runs of steps.
use secure_auth_platform.Prelude.{ℕ, Bool, true, false, Option, none, some, Text}
use secure_auth_platform.Exec.{Error, Result, ok, err}
use secure_auth_platform.Models.{User}
use secure_auth_platform.Env.{Env}
use secure_auth_platform.World.Moves.{Moves}
use secure_auth_platform.Password.Runs.{hash_password-Runs}
use secure_auth_platform.PasswordPolicy.Runs.{validate_password_secure-Runs}
use secure_auth_platform.Repository.Steps.{runs}
use secure_auth_platform.Service.Audit.Runs.{audit_rules}
use secure_auth_platform.Service.Refresh.Runs.{revoke_all_by_user-Runs}
use secure_auth_platform.Service.PermissionService.Runs.{
  invalidate_user_cache-Runs, has_permission-Runs, list_codes_by_user-Runs,
  count_active_users_with_star-Runs,
}
use secure_auth_platform.Service.UserService.{
  CreateUserInput, UpdateUserInput, require_permission, user_has_permission_code, email_is_free,
  create, require_if, require_for_update, refuse_if_last, protect_last_admin, email_is_free_for,
  check_new_email, new_hash, after_deactivation, log_update, apply_update, update,
}

ruleset user_rules = (
  audit_rules, hash_password-Runs, validate_password_secure-Runs, revoke_all_by_user-Runs,
  invalidate_user_cache-Runs, has_permission-Runs, list_codes_by_user-Runs,
  count_active_users_with_star-Runs,
)

module _ (env : Env) where
  require_permission-Runs :
      (actor : ℕ) (code : Text) → Moves env runs (require_permission env actor code)
  unfolding require_permission
  require_permission-Runs actor code = search user_rules

  user_has_permission_code-Runs :
      (user : ℕ) (code : Text) → Moves env runs (user_has_permission_code env user code)
  unfolding user_has_permission_code
  user_has_permission_code-Runs user code = search user_rules

  email_is_free-Runs : (r : Result User) → Moves env runs (email_is_free env r)
  unfolding email_is_free
  email_is_free-Runs (ok u) = search user_rules
  email_is_free-Runs (err Error.not_found) = search user_rules
  email_is_free-Runs (err _) = search user_rules

  pub create-Runs : (actor : ℕ) (input : CreateUserInput) → Moves env runs (create env actor input)
  unfolding create
  create-Runs actor input = search (user_rules, email_is_free-Runs) depth 16

  require_if-Runs :
      (b : Bool) (actor : ℕ) (code : Text) → Moves env runs (require_if env b actor code)
  unfolding require_if
  require_if-Runs b actor code = search (user_rules, require_permission-Runs)

  require_for_update-Runs :
      (actor : ℕ) (input : UpdateUserInput) → Moves env runs (require_for_update env actor input)
  unfolding require_for_update
  require_for_update-Runs actor input = search (user_rules, require_if-Runs)

  refuse_if_last-Runs : (b : Bool) → Moves env runs (refuse_if_last env b)
  unfolding refuse_if_last
  refuse_if_last-Runs true = search user_rules
  refuse_if_last-Runs false = search user_rules

  protect_last_admin-Runs :
      (user_id : ℕ) (input : UpdateUserInput) (user : User)
      → Moves env runs (protect_last_admin env user_id input user)
  unfolding protect_last_admin
  protect_last_admin-Runs user_id input user =
      search (user_rules, user_has_permission_code-Runs, refuse_if_last-Runs)

  email_is_free_for-Runs :
      (user_id : ℕ) (r : Result User) → Moves env runs (email_is_free_for env user_id r)
  unfolding email_is_free_for
  email_is_free_for-Runs user_id (ok u) = search user_rules
  email_is_free_for-Runs user_id (err Error.not_found) = search user_rules
  email_is_free_for-Runs user_id (err _) = search user_rules

  check_new_email-Runs :
      (user_id : ℕ) (user : User) (email : Option Text)
      → Moves env runs (check_new_email env user_id user email)
  unfolding check_new_email
  check_new_email-Runs user_id user none = search user_rules
  check_new_email-Runs user_id user (some email) =
      search (user_rules, email_is_free_for-Runs) depth 8

  new_hash-Runs :
      (name email : Text) (user : User) (password : Option Text)
      → Moves env runs (new_hash env name email user password)
  unfolding new_hash
  new_hash-Runs name email user none = search user_rules
  new_hash-Runs name email user (some password) = search user_rules

  after_deactivation-Runs :
      (user_id : ℕ) (b : Bool) → Moves env runs (after_deactivation env user_id b)
  unfolding after_deactivation
  after_deactivation-Runs user_id true = search user_rules
  after_deactivation-Runs user_id false = search user_rules

  log_update-Runs :
      (actor user_id : ℕ) (old now : User) (b : Bool)
      → Moves env runs (log_update env actor user_id old now b)
  unfolding log_update
  log_update-Runs actor user_id old now b = search user_rules

  apply_update-Runs :
      (actor user_id : ℕ) (input : UpdateUserInput) (user : User)
      → Moves env runs (apply_update env actor user_id input user)
  unfolding apply_update
  apply_update-Runs actor user_id input user =
      search
        (user_rules, check_new_email-Runs, new_hash-Runs, after_deactivation-Runs, log_update-Runs)
        depth 12

  pub update-Runs :
      (actor user_id : ℕ) (input : UpdateUserInput)
      → Moves env runs (update env actor user_id input)
  unfolding update
  update-Runs actor user_id input =
      search (user_rules, require_for_update-Runs, protect_last_admin-Runs, apply_update-Runs) depth
        12
