-- ===== src/Server.antt =====
-- backend/internal/app/app.go: the jobs that run beside the requests; and the operations that the
-- handlers call, as one type, without those that only list rows or parse a token.
pub mod Runs
use secure_auth_platform.Prelude.{
  ℕ, ◌*◌, Bool, List, [], ◌∷◌, Option, none, some, Text, bytes, ltb, ◌=t=◌, find, if◌then◌else◌,
  true,
}
use secure_auth_platform.Exec.{
  Result, ok, err, admin_password_required, pure, fail, attempt, ◌>>=◌, ◌>>◌,
}
use secure_auth_platform.Models.{User, Session, Role, text, number}
use secure_auth_platform.Env.{Env}
use secure_auth_platform.World.{World, App, sql}
use secure_auth_platform.Password.{hash_password}
use secure_auth_platform.Repository.Sessions
use secure_auth_platform.Repository.Sessions.{or_not_found}
use secure_auth_platform.Repository.Users
use secure_auth_platform.Repository.Permissions
use secure_auth_platform.Service.Audit.{log}
use secure_auth_platform.Service.Tokens.{second}
use secure_auth_platform.Service.Login
use secure_auth_platform.Service.Refresh
use secure_auth_platform.Service.PermissionService
use secure_auth_platform.Service.UserService
use secure_auth_platform.Service.UserService.{CreateUserInput, UpdateUserInput}
use secure_auth_platform.Http.{Request}
use secure_auth_platform.Http.Routes.{Route, serve_route}

-- 7 days
abbrev pub session_retention : ℕ
session_retention = 7 * 24 * 3600 * second

-- A request of the API, and what the handlers, the background job and the start ask of the services, where it may change the
-- tables or a cache, and the listing of sessions.
pub data Operation : Type 0 where
  login : (email password ip user_agent : Text) → Operation
  refresh : (token ip user_agent : Text) → Operation
  logout : Text → Operation
  touch : ℕ → Operation
  list_sessions : ℕ → Operation
  revoke_session : (id user : ℕ) → Operation
  revoke_others : (user current : ℕ) → Operation
  check_permission : ℕ → Text → Operation
  grant revoke : (actor user permission : ℕ) → Operation
  create_permission : ℕ → Text → Text → Operation
  describe_permission : (actor id : ℕ) → Text → Operation
  delete_permission : (actor id : ℕ) → Operation
  create_user : ℕ → CreateUserInput → Operation
  update_user : (actor user : ℕ) → UpdateUserInput → Operation
  request : Route → Request → Operation
  cleanup seed : Operation

module _ (env : Env) where
  -- The loop of `cleanupSessions` over the deleted sessions.
  log_expired : List Session → App env (Unit {0})
  log_expired [] = pure tt
  log_expired (s ∷ ss) = do
    log env (some s.user_id) (bytes "session.expired") (bytes "session") (some s.id) none
        (some ((bytes "sessionId", number s.id) ∷ (bytes "reason", text (bytes "cleanup")) ∷ []))
    log_expired ss

  log_cleanup : Result (ℕ × List Session) → App env (Unit {0})
  unfolding log_expired
  log_cleanup (err e) = pure tt
  log_cleanup (ok (deleted, expired)) = log_expired expired

  unfoldable pub cleanup_sessions : App env (Unit {0})
  unfolding log_cleanup
  cleanup_sessions = do
    result ← attempt (Sessions.delete_expired env session_retention)
    log_cleanup result

  -- The role named Admin, if the query finds it.
  admin_role : Result Role → Option ℕ
  admin_role (ok r) = some r.id
  admin_role (err e) = none

  create_admin : App env (Unit {0})
  unfolding admin_role
  create_admin = do
    hash ← hash_password env env.config.admin_password
    role ←
        attempt (sql env (λ _ t. (or_not_found (find (λ r. r.name =t= bytes "Admin") t.roles), t)))
    admin ← Users.create env (record {
      id = 0;
      role_id = admin_role role;
      name = bytes "Administrador";
      email = env.config.admin_email;
      password_hash = hash;
      active = true;
      created_at = 0;
      updated_at = 0;
    })
    Permissions.grant_all env admin.id

  unfoldable pub seed_admin : App env (Unit {0})
  unfolding create_admin
  seed_admin = do
    count ← Users.count_users env
    if ltb 0 count
        then pure tt
        else if env.config.admin_password =t= []
        then fail admin_password_required
        else create_admin

  abbrev done : {A : Type 0} → App env A → App env (Unit {0})
  done m = m >>= λ _. pure tt

  unfoldable pub perform : Operation → App env (Unit {0})
  perform (login email password ip ua) = done (Login.login env email password ip ua)
  perform (refresh token ip ua) = done (Refresh.refresh env token ip ua)
  perform (logout token) = Refresh.logout env token
  perform (touch id) = done (Refresh.touch_session env id)
  perform (list_sessions user) = done (Refresh.list_active_sessions env user)
  perform (revoke_session id user) = Refresh.revoke_session env id user
  perform (revoke_others user current) = Refresh.revoke_other_sessions env user current
  perform (check_permission user code) = done (PermissionService.has_permission env user code)
  perform (grant actor user permission) = PermissionService.grant env actor user permission
  perform (revoke actor user permission) = PermissionService.revoke env actor user permission
  perform (create_permission actor code d) = done (PermissionService.create env actor code d)
  perform (describe_permission actor id d) =
      done (PermissionService.update_description env actor id d)
  perform (delete_permission actor id) = PermissionService.delete env actor id
  perform (create_user actor input) = done (UserService.create env actor input)
  perform (update_user actor user input) = done (UserService.update env actor user input)
  perform (request route req) = done (serve_route env route req)
  perform cleanup = cleanup_sessions
  perform seed = seed_admin

  -- A history: each operation starts where the one before it ended, whatever its outcome.
  unfoldable pub serve : List Operation → World env.redis.State → World env.redis.State
  serve [] w = w
  serve (o ∷ os) w = serve os (perform o w).1
