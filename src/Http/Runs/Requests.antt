-- ===== src/Http/Runs/Requests.antt =====
-- A request, with the handlers in front, is a run of steps: backend/middleware and
-- backend/routes/routes.go.
use secure_auth_platform.Prelude.{ℕ, Bool, List, [], ◌∷◌, Option, none, some, Text}
use secure_auth_platform.Exec.{Result, ok, err}
use secure_auth_platform.Models.{User}
use secure_auth_platform.Env.{Env, Claims}
use secure_auth_platform.World.{App}
use secure_auth_platform.World.Moves.{Moves}
use secure_auth_platform.Repository.Steps.{runs}
use secure_auth_platform.Service.Tokens
use secure_auth_platform.Service.Tokens.{TokenPair, TokenClaims}
use secure_auth_platform.Http.{Request, Answer}
use secure_auth_platform.Http.Middleware
use secure_auth_platform.Http.Routes.{Route, Guard, guarded, handler_of, guard_of, serve_route}
use secure_auth_platform.Http.Runs.Base.{handler_rules}
use secure_auth_platform.Http.Runs.Sessions
use secure_auth_platform.Http.Runs.Users as UserHandlers
use secure_auth_platform.Http.Runs.Permissions as PermissionHandlers
use secure_auth_platform.Http.Runs.Permissions.{audit_list-Runs}

module _ (env : Env) where
  claims_of-Runs : (sub sid : Option ℕ) → Moves env runs (Tokens.claims_of env sub sid)
  unfolding Tokens.claims_of
  claims_of-Runs (some sub) (some sid) = search handler_rules
  claims_of-Runs none sid = search handler_rules
  claims_of-Runs (some sub) none = search handler_rules

  verified_claims-Runs : (c : Option Claims) → Moves env runs (Tokens.verified_claims env c)
  unfolding Tokens.verified_claims
  verified_claims-Runs none = search handler_rules
  verified_claims-Runs (some c) = claims_of-Runs c.sub c.sid

  parsed_claims-Runs :
      (now : ℕ) (token : Text) (alg : Option Text)
      → Moves env runs (Tokens.parsed_claims env now token alg)
  unfolding Tokens.parsed_claims
  parsed_claims-Runs now token none = search handler_rules
  parsed_claims-Runs now token (some alg) = search (handler_rules, verified_claims-Runs)

  validate-Runs : (token : Text) → Moves env runs (Tokens.validate_access_token env token)
  unfolding Tokens.validate_access_token
  validate-Runs token = search (handler_rules, parsed_claims-Runs)

  module _ (next : TokenClaims → App env Answer)
      (h : (who : TokenClaims) → Moves env runs (next who)) where
    on_touched-Runs :
        (who : TokenClaims) (r : Result Bool)
        → Moves env runs (Middleware.on_touched env next who r)
    unfolding Middleware.on_touched
    on_touched-Runs who (ok b) = search (handler_rules, h)
    on_touched-Runs who (err e) = search handler_rules

    on_user-Runs :
        (who : TokenClaims) (r : Result User) → Moves env runs (Middleware.on_user env next who r)
    unfolding Middleware.on_user
    on_user-Runs who (ok u) = search (handler_rules, on_touched-Runs)
    on_user-Runs who (err e) = search handler_rules

    on_claims-Runs : (r : Result TokenClaims) → Moves env runs (Middleware.on_claims env next r)
    unfolding Middleware.on_claims
    on_claims-Runs (ok who) = search (handler_rules, on_user-Runs)
    on_claims-Runs (err e) = search handler_rules

    auth-Runs : (req : Request) → Moves env runs (Middleware.auth env next req)
    unfolding Middleware.auth
    auth-Runs req = search (handler_rules, validate-Runs, on_claims-Runs)

    on_allowed-Runs :
        (code : Text) (who : TokenClaims) (r : Result Bool)
        → Moves env runs (Middleware.on_allowed env code (next who) r)
    unfolding Middleware.on_allowed
    on_allowed-Runs code who (ok b) = search (handler_rules, h)
    on_allowed-Runs code who (err e) = search handler_rules

    require-Runs :
        (code : Text) (who : TokenClaims)
        → Moves env runs (Middleware.require_permission env code next who)
    unfolding Middleware.require_permission
    require-Runs code who = search (handler_rules, on_allowed-Runs)

    on_any-Runs :
        (who : TokenClaims) (rest : App env Answer) (r : Result Bool)
        → Moves env runs rest
        → Moves env runs (Middleware.on_any env (next who) rest r)
    unfolding Middleware.on_any
    on_any-Runs who rest (ok b) k = search (handler_rules, h)
    on_any-Runs who rest (err e) k = search handler_rules

    any_of-Runs :
        (who : TokenClaims) (user : ℕ) (codes : List Text)
        → Moves env runs (Middleware.any_of env user (next who) codes)
    unfolding Middleware.any_of
    any_of-Runs who user [] = search handler_rules
    any_of-Runs who user (code ∷ codes) =
        let rest = any_of-Runs who user codes in
        search (
          handler_rules,
          λ (r : Result Bool). on_any-Runs who (Middleware.any_of env user (next who) codes) r rest,
        )

    require_any-Runs :
        (codes : List Text) (who : TokenClaims)
        → Moves env runs (Middleware.require_any_permission env codes next who)
    unfolding Middleware.require_any_permission
    require_any-Runs codes who = search (handler_rules, any_of-Runs)

  guarded-Runs :
      (g : Guard) (next : TokenClaims → App env Answer) (req : Request)
      → ((who : TokenClaims) → Moves env runs (next who))
      → Moves env runs (guarded env g next req)
  unfolding guarded
  guarded-Runs Guard.public next req h = h _
  guarded-Runs Guard.signed_in next req h = auth-Runs next h req
  guarded-Runs (Guard.one_code code) next req h = auth-Runs _ (require-Runs next h code) req
  guarded-Runs (Guard.any_code codes) next req h = auth-Runs _ (require_any-Runs next h codes) req

  handler_of-Runs :
      (route : Route) (req : Request) (who : TokenClaims)
      → Moves env runs (handler_of env route req who)
  unfolding handler_of
  handler_of-Runs Route.post_login req who = Sessions.auth_login-Runs env req
  handler_of-Runs Route.post_refresh req who = Sessions.auth_refresh-Runs env req
  handler_of-Runs Route.post_logout req who = Sessions.auth_logout-Runs env req
  handler_of-Runs Route.get_me req who = UserHandlers.user_me-Runs env who
  handler_of-Runs Route.get_sessions req who = Sessions.auth_list_sessions-Runs env who
  handler_of-Runs Route.delete_sessions req who =
      Sessions.auth_revoke_all_sessions_except_current-Runs env who
  handler_of-Runs Route.delete_session req who = Sessions.auth_revoke_session-Runs env req who
  handler_of-Runs Route.get_users req who = UserHandlers.user_list-Runs env
  handler_of-Runs Route.post_users req who = UserHandlers.user_create-Runs env req who
  handler_of-Runs Route.get_user req who = UserHandlers.user_get-Runs env req
  handler_of-Runs Route.patch_user req who = UserHandlers.user_update-Runs env req who
  handler_of-Runs Route.get_roles req who = PermissionHandlers.permission_list_roles-Runs env
  handler_of-Runs Route.get_permissions req who = PermissionHandlers.permission_list-Runs env
  handler_of-Runs Route.post_permissions req who =
      PermissionHandlers.permission_create-Runs env req who
  handler_of-Runs Route.patch_permission req who =
      PermissionHandlers.permission_update-Runs env req who
  handler_of-Runs Route.delete_permission req who =
      PermissionHandlers.permission_delete-Runs env req who
  handler_of-Runs Route.post_user_permissions req who =
      PermissionHandlers.permission_grant-Runs env req who
  handler_of-Runs Route.delete_user_permission req who =
      PermissionHandlers.permission_revoke-Runs env req who
  handler_of-Runs Route.get_audit_logs req who = audit_list-Runs env req

  pub serve_route-Runs :
      (route : Route) (req : Request) → Moves env runs (serve_route env route req)
  unfolding serve_route
  serve_route-Runs route req = guarded-Runs (guard_of route) _ req (handler_of-Runs route req)
