-- ===== src/Service/PermissionService/Runs.antt =====
-- Every operation on permissions is a run of steps.
use secure_auth_platform.Prelude.{ℕ, Text}
use secure_auth_platform.Exec.{Error, Result, ok, err}
use secure_auth_platform.Models.{Permission}
use secure_auth_platform.Env.{Env}
use secure_auth_platform.World.Moves.{Moves}
use secure_auth_platform.Cache.PermissionCache.{Cached}
use secure_auth_platform.Repository.Steps.{runs}
use secure_auth_platform.Service.Audit.Runs.{audit_rules}
use secure_auth_platform.Service.PermissionService.{
  check_in_database, check_and_fill, decide, has_permission, list_codes_by_user,
  count_active_users_with_star, invalidate_user_cache, actor_can_grant, grant, revoke, code_is_free,
  create, update_description, delete,
}

module _ (env : Env) where
  check_in_database-Runs :
      (user : ℕ) (code : Text) → Moves env runs (check_in_database env user code)
  unfolding check_in_database
  check_in_database-Runs user code = search audit_rules

  check_and_fill-Runs : (user : ℕ) (code : Text) → Moves env runs (check_and_fill env user code)
  unfolding check_and_fill
  check_and_fill-Runs user code = search audit_rules

  decide-Runs :
      (user : ℕ) (code : Text) (c : Result Cached) → Moves env runs (decide env user code c)
  unfolding decide
  decide-Runs user code (ok c) = search (audit_rules, check_and_fill-Runs)
  decide-Runs user code (err e) = check_in_database-Runs user code

  pub has_permission-Runs : (user : ℕ) (code : Text) → Moves env runs (has_permission env user code)
  unfolding has_permission
  has_permission-Runs user code = search (audit_rules, decide-Runs)

  pub list_codes_by_user-Runs : (user : ℕ) → Moves env runs (list_codes_by_user env user)
  unfolding list_codes_by_user
  list_codes_by_user-Runs user = search audit_rules

  pub count_active_users_with_star-Runs : Moves env runs (count_active_users_with_star env)
  unfolding count_active_users_with_star
  count_active_users_with_star-Runs = search audit_rules

  pub invalidate_user_cache-Runs : (user : ℕ) → Moves env runs (invalidate_user_cache env user)
  unfolding invalidate_user_cache
  invalidate_user_cache-Runs user = search audit_rules

  actor_can_grant-Runs : (actor : ℕ) (code : Text) → Moves env runs (actor_can_grant env actor code)
  unfolding actor_can_grant
  actor_can_grant-Runs actor code = search audit_rules

  ruleset permission_rules = (audit_rules, invalidate_user_cache-Runs, actor_can_grant-Runs)

  pub grant-Runs : (actor user permission : ℕ) → Moves env runs (grant env actor user permission)
  unfolding grant
  grant-Runs actor user permission = search permission_rules depth 12

  pub revoke-Runs : (actor user permission : ℕ) → Moves env runs (revoke env actor user permission)
  unfolding revoke
  revoke-Runs actor user permission = search permission_rules depth 12

  code_is_free-Runs : (r : Result Permission) → Moves env runs (code_is_free env r)
  unfolding code_is_free
  code_is_free-Runs (ok p) = search audit_rules
  code_is_free-Runs (err Error.not_found) = search audit_rules
  code_is_free-Runs (err _) = search audit_rules

  pub create-Runs :
      (actor : ℕ) (code description : Text) → Moves env runs (create env actor code description)
  unfolding create
  create-Runs actor code description = search (audit_rules, code_is_free-Runs) depth 12

  pub update_description-Runs :
      (actor id : ℕ) (d : Text) → Moves env runs (update_description env actor id d)
  unfolding update_description
  update_description-Runs actor id d = search audit_rules depth 12

  pub delete-Runs : (actor id : ℕ) → Moves env runs (delete env actor id)
  unfolding delete
  delete-Runs actor id = search audit_rules depth 16
