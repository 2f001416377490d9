-- ===== src/Http/Answers/Calls.antt =====
-- The service call that a request leads to: the handlers of backend/internal/auth/handler.go,
-- users/handler.go, permissions/handler.go and audit/handler.go.
use secure_auth_platform.Prelude.{
  ℕ, ◌≡◌, true, false, List, Text, none, some, pos, negsuc, parse_int64,
}
use secure_auth_platform.Exec.{Error, ok, err}
use secure_auth_platform.Models.{User, Role, Permission, Session, AuditLog}
use secure_auth_platform.Env.{Env}
use secure_auth_platform.World.{World, App}
use secure_auth_platform.Service.Tokens.{TokenPair, TokenClaims}
use secure_auth_platform.Service.Login
use secure_auth_platform.Service.Refresh
use secure_auth_platform.Service.UserService
use secure_auth_platform.Service.PermissionService
use secure_auth_platform.Service.Audit
use secure_auth_platform.Http.{
  Request, LoginRequest, CreateRequest, UpdateRequest, CreatePermissionRequest,
}
use secure_auth_platform.Http.Params.{parse_positive_int64}
use secure_auth_platform.Http.AuthHandler.{find_negative}
use secure_auth_platform.Http.AuditHandler.{page_limit, page_offset}
use secure_auth_platform.Http.Routes.{Route}
use secure_auth_platform.Http.Answers.Statuses.{
  early_status, result_status, error_status, codes_status,
}

module _ (env : Env) (req : Request) (who : TokenClaims) where
  pub data Calls : Route → (A : Type 0) → App env A → Type 1 where
    login :
        (b : LoginRequest)
        → req.login_body ≡ some b
        → Calls Route.post_login TokenPair
            (Login.login env b.email b.password req.ip req.user_agent)
    refresh :
        Calls Route.post_refresh TokenPair
          (Refresh.refresh env req.refresh_cookie req.ip req.user_agent)
    logout : Calls Route.post_logout (Unit {0}) (Refresh.logout env req.refresh_cookie)
    list_sessions :
        Calls Route.get_sessions (List Session) (Refresh.list_active_sessions env who.user_id)
    revoke_others :
        Calls Route.delete_sessions
          (Unit {0})
          (Refresh.revoke_other_sessions env who.user_id who.session_id)
    revoke_session :
        (id : ℕ)
        → parse_int64 req.id_param ≡ some (pos id)
        → Calls Route.delete_session (Unit {0}) (Refresh.revoke_session env id who.user_id)
    revoke_negative :
        (n : ℕ)
        → parse_int64 req.id_param ≡ some (negsuc n)
        → Calls Route.delete_session (Unit {0}) (find_negative env)
    list_users : Calls Route.get_users (List User) (UserService.list env)
    create_user :
        (b : CreateRequest)
        → req.create_body ≡ some b
        → Calls Route.post_users User (
            UserService.create env who.user_id (record {
              name = b.name;
              email = b.email;
              password = b.password;
              role_id = b.role_id;
            }))
    show_user :
        (id : ℕ)
        → parse_positive_int64 req.id_param ≡ some id
        → Calls Route.get_user User (UserService.find_by_id env id)
    update_user :
        (id : ℕ) (b : UpdateRequest)
        → parse_positive_int64 req.id_param ≡ some id
        → req.update_body ≡ some b
        → Calls Route.patch_user User (
            UserService.update env who.user_id id (record {
              name = b.name;
              email = b.email;
              password = b.password;
              role_id = b.role_id;
              active = b.active;
            }))
    list_roles : Calls Route.get_roles (List Role) (PermissionService.list_roles env)
    list_permissions :
        Calls Route.get_permissions (List Permission) (PermissionService.list_all env)
    create_permission :
        (b : CreatePermissionRequest)
        → req.permission_body ≡ some b
        → Calls Route.post_permissions Permission
            (PermissionService.create env who.user_id b.code b.description)
    update_permission :
        (id : ℕ) (d : Text)
        → parse_positive_int64 req.id_param ≡ some id
        → req.description_body ≡ some d
        → Calls Route.patch_permission Permission
            (PermissionService.update_description env who.user_id id d)
    delete_permission :
        (id : ℕ)
        → parse_positive_int64 req.id_param ≡ some id
        → Calls Route.delete_permission (Unit {0}) (PermissionService.delete env who.user_id id)
    grant :
        (user permission : ℕ)
        → parse_positive_int64 req.id_param ≡ some user
        → req.grant_body ≡ some permission
        → Calls Route.post_user_permissions
            (Unit {0})
            (PermissionService.grant env who.user_id user permission)
    revoke :
        (user permission : ℕ)
        → parse_positive_int64 req.id_param ≡ some user
        → parse_positive_int64 req.permission_id_param ≡ some permission
        → Calls Route.delete_user_permission
            (Unit {0})
            (PermissionService.revoke env who.user_id user permission)
    list_logs :
        Calls Route.get_audit_logs
          (List AuditLog)
          (Audit.list env (page_limit req.limit_query) (page_offset req.offset_query))

  -- The status of an answer that is made in a state: the table gives it, for a request that is
  -- answered early or for what the service call does there. The row `/me` makes two calls, of
  -- which only the first has an error with a status of its own.
  pub data Explained (w : World env.redis.State) : Route → ℕ → Type 1 where
    early : {route : Route} {s : ℕ} → early_status env route req who ≡ some s → Explained w route s
    called :
        {route : Route} {s : ℕ} (A : Type 0) (m : App env A)
        → Calls route A m
        → early_status env route req who ≡ none
        → s ≡ result_status route (m w).0
        → Explained w route s
    me_missed :
        {s : ℕ} (e : Error)
        → (UserService.find_by_id env who.user_id w).0 ≡ err e
        → s ≡ error_status Route.get_me e
        → Explained w Route.get_me s
    me_inactive :
        (u : User) (v : World env.redis.State)
        → UserService.find_by_id env who.user_id w ≡ (ok u, v)
        → u.active ≡ false
        → Explained w Route.get_me 401
    me_active :
        {s : ℕ} (u : User) (v : World env.redis.State)
        → UserService.find_by_id env who.user_id w ≡ (ok u, v)
        → u.active ≡ true
        → s ≡ codes_status (PermissionService.list_codes_by_user env who.user_id v).0
        → Explained w Route.get_me s
