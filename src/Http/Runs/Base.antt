-- ===== src/Http/Runs/Base.antt =====
-- The services and the parts of a request, in the handlers.
use secure_auth_platform.Prelude.{ℕ, Option, none, some, Text}
use secure_auth_platform.Env.{Env}
use secure_auth_platform.World.{App}
use secure_auth_platform.World.Moves.{Moves}
use secure_auth_platform.Repository.Steps.{runs}
use secure_auth_platform.Service.Audit
use secure_auth_platform.Service.Audit.Runs.{audit_rules}
use secure_auth_platform.Service.Login.Runs.{login-Runs}
use secure_auth_platform.Service.Refresh.Runs.{
  refresh-Runs, logout-Runs, touch_session-Runs, list_active_sessions-Runs, revoke_session-Runs,
  revoke_other_sessions-Runs,
}
use secure_auth_platform.Service.PermissionService
use secure_auth_platform.Service.PermissionService.Runs
use secure_auth_platform.Service.UserService
use secure_auth_platform.Service.UserService.Runs as UserRuns
use secure_auth_platform.Http.{Answer}
use secure_auth_platform.Http.Params.{for_some, for_id}

module _ (env : Env) where
  pub for_some-Runs :
      {A : Type 0} (o : Option A) (a : Answer) (k : A → App env Answer)
      → ((x : A) → Moves env runs (k x))
      → Moves env runs (for_some env o a k)
  unfolding for_some
  for_some-Runs none a k h = search audit_rules
  for_some-Runs (some x) a k h = h x

  pub for_id-Runs :
      (raw label : Text) (k : ℕ → App env Answer)
      → ((x : ℕ) → Moves env runs (k x))
      → Moves env runs (for_id env raw label k)
  unfolding for_id
  for_id-Runs raw label k h = for_some-Runs _ _ k h

  pub list_users-Runs : Moves env runs (UserService.list env)
  unfolding UserService.list
  list_users-Runs = search audit_rules

  pub find_user-Runs : (id : ℕ) → Moves env runs (UserService.find_by_id env id)
  unfolding UserService.find_by_id
  find_user-Runs id = search audit_rules

  pub list_all-Runs : Moves env runs (PermissionService.list_all env)
  unfolding PermissionService.list_all
  list_all-Runs = search audit_rules

  pub list_roles-Runs : Moves env runs (PermissionService.list_roles env)
  unfolding PermissionService.list_roles
  list_roles-Runs = search audit_rules

  pub list_logs-Runs : (limit offset : ℕ) → Moves env runs (Audit.list env limit offset)
  unfolding Audit.list
  list_logs-Runs limit offset = search audit_rules

  pub ruleset handler_rules = (
    audit_rules, for_some-Runs, for_id-Runs, login-Runs, refresh-Runs, logout-Runs,
    touch_session-Runs, list_active_sessions-Runs, revoke_session-Runs, revoke_other_sessions-Runs,
    list_users-Runs, find_user-Runs, list_all-Runs, list_roles-Runs, list_logs-Runs,
    Runs.has_permission-Runs, Runs.list_codes_by_user-Runs, Runs.grant-Runs, Runs.revoke-Runs,
    Runs.create-Runs, Runs.update_description-Runs, Runs.delete-Runs, UserRuns.create-Runs,
    UserRuns.update-Runs,
  )
