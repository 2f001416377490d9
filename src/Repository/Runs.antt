-- ===== src/Repository/Runs.antt =====
-- Each statement of the repositories is a run of steps.
use secure_auth_platform.Prelude.{ℕ, Bool, Text}
use secure_auth_platform.Models.{Session, User, Permission, AuditLog}
use secure_auth_platform.Env.{Env}
use secure_auth_platform.World.Moves.{Moves, moves_rules}
use secure_auth_platform.Repository.Steps.{runs, here, step_rules}
use secure_auth_platform.Repository.Sessions
use secure_auth_platform.Repository.Users
use secure_auth_platform.Repository.Permissions
use secure_auth_platform.Repository.Audit

ruleset run_rules = (moves_rules, step_rules, here)

module _ (env : Env) where
  pub find_active_by_token_hash-Runs :
      (hash : Text) → Moves env runs (Sessions.find_active_by_token_hash env hash)
  unfolding Sessions.find_active_by_token_hash
  find_active_by_token_hash-Runs hash = search run_rules

  pub find_by_token_hash-Runs :
      (hash : Text) → Moves env runs (Sessions.find_by_token_hash env hash)
  unfolding Sessions.find_by_token_hash
  find_by_token_hash-Runs hash = search run_rules

  pub find_session-Runs : (id : ℕ) → Moves env runs (Sessions.find_by_id env id)
  unfolding Sessions.find_by_id
  find_session-Runs id = search run_rules

  pub create_session_row-Runs : (s : Session) → Moves env runs (Sessions.create env s)
  unfolding Sessions.create
  create_session_row-Runs s = search run_rules

  pub revoke_where-Runs : (p : Session → Bool) → Moves env runs (Sessions.revoke_where env p)
  unfolding Sessions.revoke_where
  revoke_where-Runs p = search run_rules

  pub touch_activity-Runs : (id : ℕ) → Moves env runs (Sessions.touch_activity env id)
  unfolding Sessions.touch_activity
  touch_activity-Runs id = search run_rules

  pub find_active_by_user_id-Runs :
      (user : ℕ) → Moves env runs (Sessions.find_active_by_user_id env user)
  unfolding Sessions.find_active_by_user_id
  find_active_by_user_id-Runs user = search run_rules

  pub delete_expired-Runs : (retention : ℕ) → Moves env runs (Sessions.delete_expired env retention)
  unfolding Sessions.delete_expired
  delete_expired-Runs retention = search run_rules depth 8

  pub find_by_email-Runs : (email : Text) → Moves env runs (Users.find_by_email env email)
  unfolding Users.find_by_email
  find_by_email-Runs email = search run_rules

  pub find_user-Runs : (id : ℕ) → Moves env runs (Users.find_by_id env id)
  unfolding Users.find_by_id
  find_user-Runs id = search run_rules

  pub list_users-Runs : Moves env runs (Users.list env)
  unfolding Users.list
  list_users-Runs = search run_rules

  pub count_users-Runs : Moves env runs (Users.count_users env)
  unfolding Users.count_users
  count_users-Runs = search run_rules

  pub create_user_row-Runs : (u : User) → Moves env runs (Users.create env u)
  unfolding Users.create
  create_user_row-Runs u = search run_rules

  pub update_password_hash-Runs :
      (id : ℕ) (hash : Text) → Moves env runs (Users.update_password_hash env id hash)
  unfolding Users.update_password_hash
  update_password_hash-Runs id hash = search run_rules

  pub update_user_row-Runs : (u : User) → Moves env runs (Users.update env u)
  unfolding Users.update
  update_user_row-Runs u = search run_rules

  pub roles-Runs : Moves env runs (Users.roles env)
  unfolding Users.roles
  roles-Runs = search run_rules

  pub list_permissions-Runs : Moves env runs (Permissions.list_all env)
  unfolding Permissions.list_all
  list_permissions-Runs = search run_rules

  pub find_by_code-Runs : (code : Text) → Moves env runs (Permissions.find_by_code env code)
  unfolding Permissions.find_by_code
  find_by_code-Runs code = search run_rules

  pub find_permission-Runs : (id : ℕ) → Moves env runs (Permissions.find_by_id env id)
  unfolding Permissions.find_by_id
  find_permission-Runs id = search run_rules

  pub list_codes-Runs : (user : ℕ) → Moves env runs (Permissions.list_codes_by_user_id env user)
  unfolding Permissions.list_codes_by_user_id
  list_codes-Runs user = search run_rules

  pub grant_row-Runs :
      (user permission : ℕ) → Moves env runs (Permissions.grant env user permission)
  unfolding Permissions.grant
  grant_row-Runs user permission = search run_rules

  pub revoke_grant-Runs :
      (user permission : ℕ) → Moves env runs (Permissions.revoke env user permission)
  unfolding Permissions.revoke
  revoke_grant-Runs user permission = search run_rules

  pub grant_all-Runs : (user : ℕ) → Moves env runs (Permissions.grant_all env user)
  unfolding Permissions.grant_all
  grant_all-Runs user = search run_rules

  pub create_permission_row-Runs : (p : Permission) → Moves env runs (Permissions.create env p)
  unfolding Permissions.create
  create_permission_row-Runs p = search run_rules

  pub describe-Runs : (id : ℕ) (d : Text) → Moves env runs (Permissions.update_description env id d)
  unfolding Permissions.update_description
  describe-Runs id d = search run_rules

  pub delete_permission-Runs : (id : ℕ) → Moves env runs (Permissions.delete env id)
  unfolding Permissions.delete
  delete_permission-Runs id = search run_rules

  pub count_assignments-Runs :
      (permission : ℕ) → Moves env runs (Permissions.count_assignments env permission)
  unfolding Permissions.count_assignments
  count_assignments-Runs permission = search run_rules

  pub count_active-Runs :
      (code : Text) → Moves env runs (Permissions.count_active_users_with_code env code)
  unfolding Permissions.count_active_users_with_code
  count_active-Runs code = search run_rules

  pub insert_log-Runs : (l : AuditLog) → Moves env runs (Audit.insert env l)
  unfolding Audit.insert
  insert_log-Runs l = search run_rules

  pub list_logs-Runs : (limit offset : ℕ) → Moves env runs (Audit.list env limit offset)
  unfolding Audit.list
  list_logs-Runs limit offset = search run_rules

pub ruleset statement_rules = (
  moves_rules, find_active_by_token_hash-Runs, find_by_token_hash-Runs, find_session-Runs,
  create_session_row-Runs, revoke_where-Runs, touch_activity-Runs, find_active_by_user_id-Runs,
  delete_expired-Runs, find_by_email-Runs, find_user-Runs, list_users-Runs, count_users-Runs,
  create_user_row-Runs, update_password_hash-Runs, update_user_row-Runs, roles-Runs,
  list_permissions-Runs, find_by_code-Runs, find_permission-Runs, list_codes-Runs, grant_row-Runs,
  revoke_grant-Runs, grant_all-Runs, create_permission_row-Runs, describe-Runs,
  delete_permission-Runs, count_assignments-Runs, count_active-Runs, insert_log-Runs,
  list_logs-Runs,
)
