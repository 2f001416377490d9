-- ===== src/Http/Routes.antt =====
-- backend/routes/routes.go. Fiber finds the row of the table that fits a request.
use secure_auth_platform.Prelude.{List, [], ◌∷◌, Text, bytes}
use secure_auth_platform.Env.{Env}
use secure_auth_platform.World.{App}
use secure_auth_platform.Service.Tokens.{TokenClaims}
use secure_auth_platform.Http.{Request, Answer}
use secure_auth_platform.Http.AuthHandler
use secure_auth_platform.Http.UserHandler
use secure_auth_platform.Http.PermissionHandler
use secure_auth_platform.Http.AuditHandler
use secure_auth_platform.Http.Middleware.{auth, require_permission, require_any_permission}

-- The rows of `Setup`, in its order.
pub data Route : Type 0 where
  post_login post_refresh post_logout : Route
  get_me get_sessions delete_sessions delete_session : Route
  get_users post_users get_user patch_user get_roles : Route
  get_permissions post_permissions patch_permission delete_permission : Route
  post_user_permissions delete_user_permission : Route
  get_audit_logs : Route

-- The handlers in front of the last one.
pub data Guard : Type 0 where
  public : Guard
  signed_in : Guard
  one_code : Text → Guard
  any_code : List Text → Guard

unfoldable pub guard_of : Route → Guard
guard_of post_login = public
guard_of post_refresh = public
guard_of post_logout = public
guard_of get_me = signed_in
guard_of get_sessions = signed_in
guard_of delete_sessions = signed_in
guard_of delete_session = signed_in
guard_of get_users = one_code (bytes "users.read")
guard_of post_users = one_code (bytes "users.create")
guard_of get_user = one_code (bytes "users.read")
guard_of patch_user =
    any_code (bytes "users.update" ∷ bytes "users.password.reset" ∷ bytes "users.deactivate" ∷ [])
guard_of get_roles = one_code (bytes "users.read")
guard_of get_permissions = one_code (bytes "permissions.read")
guard_of post_permissions = one_code (bytes "permissions.create")
guard_of patch_permission = one_code (bytes "permissions.update")
guard_of delete_permission = one_code (bytes "permissions.delete")
guard_of post_user_permissions = one_code (bytes "permissions.grant")
guard_of delete_user_permission = one_code (bytes "permissions.revoke")
guard_of get_audit_logs = one_code (bytes "audit_logs.read")

module _ (env : Env) where
  -- The last handler of the row. A public handler does not use who asks.
  unfoldable pub handler_of : Route → Request → TokenClaims → App env Answer
  handler_of post_login req who = AuthHandler.login env req
  handler_of post_refresh req who = AuthHandler.refresh env req
  handler_of post_logout req who = AuthHandler.logout env req
  handler_of get_me req who = UserHandler.me env who
  handler_of get_sessions req who = AuthHandler.list_sessions env who
  handler_of delete_sessions req who = AuthHandler.revoke_all_sessions_except_current env who
  handler_of delete_session req who = AuthHandler.revoke_session env req who
  handler_of get_users req who = UserHandler.list env
  handler_of post_users req who = UserHandler.create env req who
  handler_of get_user req who = UserHandler.get env req
  handler_of patch_user req who = UserHandler.update env req who
  handler_of get_roles req who = PermissionHandler.list_roles env
  handler_of get_permissions req who = PermissionHandler.list env
  handler_of post_permissions req who = PermissionHandler.create env req who
  handler_of patch_permission req who = PermissionHandler.update env req who
  handler_of delete_permission req who = PermissionHandler.delete env req who
  handler_of post_user_permissions req who = PermissionHandler.grant env req who
  handler_of delete_user_permission req who = PermissionHandler.revoke env req who
  handler_of get_audit_logs req who = AuditHandler.list env req

  -- Who asks, where nothing was put into the locals.
  abbrev pub nobody : TokenClaims
  nobody = record { user_id = 0; session_id = 0 }

  unfoldable pub guarded : Guard → (TokenClaims → App env Answer) → Request → App env Answer
  guarded public next req = next nobody
  guarded signed_in next req = auth env next req
  guarded (one_code code) next req = auth env (require_permission env code next) req
  guarded (any_code codes) next req = auth env (require_any_permission env codes next) req

  unfoldable pub serve_route : Route → Request → App env Answer
  serve_route route req = guarded (guard_of route) (handler_of route req) req
