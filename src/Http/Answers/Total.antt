-- ===== src/Http/Answers/Total.antt =====
-- Every handler, and every handler in front of it, answers: backend/middleware and
-- backend/routes/routes.go.
use secure_auth_platform.Prelude.{ℕ, Bool, List, [], ◌∷◌, Text}
use secure_auth_platform.Exec.{Result, ok, err}
use secure_auth_platform.Models.{User}
use secure_auth_platform.Env.{Env}
use secure_auth_platform.World.{App}
use secure_auth_platform.Service.Tokens.{TokenClaims}
use secure_auth_platform.Http.{Request, Answer}
use secure_auth_platform.Http.Middleware
use secure_auth_platform.Http.Routes.{Route, Guard, guarded, handler_of}
use secure_auth_platform.Http.Answers.Base.{Answers, answer_rules}
use secure_auth_platform.Http.Answers.Sessions
use secure_auth_platform.Http.Answers.Users as UserAnswers
use secure_auth_platform.Http.Answers.Permissions as PermissionAnswers

module _ (env : Env) where
  pub handler_of-Answers :
      (route : Route) (req : Request) (who : TokenClaims)
      → Answers env (handler_of env route req who)
  unfolding handler_of
  handler_of-Answers Route.post_login req who = Sessions.login-Answers env req
  handler_of-Answers Route.post_refresh req who = Sessions.refresh-Answers env req
  handler_of-Answers Route.post_logout req who = Sessions.logout-Answers env req
  handler_of-Answers Route.get_me req who = UserAnswers.me-Answers env who
  handler_of-Answers Route.get_sessions req who = Sessions.list_sessions-Answers env who
  handler_of-Answers Route.delete_sessions req who =
      Sessions.revoke_all_sessions_except_current-Answers env who
  handler_of-Answers Route.delete_session req who = Sessions.revoke_session-Answers env req who
  handler_of-Answers Route.get_users req who = UserAnswers.list-Answers env
  handler_of-Answers Route.post_users req who = UserAnswers.create-Answers env req who
  handler_of-Answers Route.get_user req who = UserAnswers.get-Answers env req
  handler_of-Answers Route.patch_user req who = UserAnswers.update-Answers env req who
  handler_of-Answers Route.get_roles req who = PermissionAnswers.list_roles-Answers env
  handler_of-Answers Route.get_permissions req who = PermissionAnswers.list-Answers env
  handler_of-Answers Route.post_permissions req who = PermissionAnswers.create-Answers env req who
  handler_of-Answers Route.patch_permission req who = PermissionAnswers.update-Answers env req who
  handler_of-Answers Route.delete_permission req who = PermissionAnswers.delete-Answers env req who
  handler_of-Answers Route.post_user_permissions req who =
      PermissionAnswers.grant-Answers env req who
  handler_of-Answers Route.delete_user_permission req who =
      PermissionAnswers.revoke-Answers env req who
  handler_of-Answers Route.get_audit_logs req who = PermissionAnswers.logs-Answers env req

  module _ (next : TokenClaims → App env Answer)
      (h : (who : TokenClaims) → Answers env (next who)) where
    on_touched-Answers :
        (who : TokenClaims) (r : Result Bool) → Answers env (Middleware.on_touched env next who r)
    unfolding Middleware.on_touched
    on_touched-Answers who (ok b) = search (answer_rules, h)
    on_touched-Answers who (err e) = search answer_rules

    on_user-Answers :
        (who : TokenClaims) (r : Result User) → Answers env (Middleware.on_user env next who r)
    unfolding Middleware.on_user
    on_user-Answers who (ok u) = search (answer_rules, on_touched-Answers)
    on_user-Answers who (err e) = search answer_rules

    on_claims-Answers : (r : Result TokenClaims) → Answers env (Middleware.on_claims env next r)
    unfolding Middleware.on_claims
    on_claims-Answers (ok who) = search (answer_rules, on_user-Answers)
    on_claims-Answers (err e) = search answer_rules

    auth-Answers : (req : Request) → Answers env (Middleware.auth env next req)
    unfolding Middleware.auth
    auth-Answers req = search (answer_rules, on_claims-Answers)

    on_allowed-Answers :
        (code : Text) (who : TokenClaims) (r : Result Bool)
        → Answers env (Middleware.on_allowed env code (next who) r)
    unfolding Middleware.on_allowed
    on_allowed-Answers code who (ok b) = search (answer_rules, h)
    on_allowed-Answers code who (err e) = search answer_rules

    require-Answers :
        (code : Text) (who : TokenClaims)
        → Answers env (Middleware.require_permission env code next who)
    unfolding Middleware.require_permission
    require-Answers code who = search (answer_rules, on_allowed-Answers)

    on_any-Answers :
        (who : TokenClaims) (rest : App env Answer) (r : Result Bool)
        → Answers env rest
        → Answers env (Middleware.on_any env (next who) rest r)
    unfolding Middleware.on_any
    on_any-Answers who rest (ok b) k = search (answer_rules, h)
    on_any-Answers who rest (err e) k = search answer_rules

    any_of-Answers :
        (who : TokenClaims) (user : ℕ) (codes : List Text)
        → Answers env (Middleware.any_of env user (next who) codes)
    unfolding Middleware.any_of
    any_of-Answers who user [] = search answer_rules
    any_of-Answers who user (code ∷ codes) =
        let rest = any_of-Answers who user codes in
        search (
          answer_rules,
          λ (r : Result Bool).
              on_any-Answers who (Middleware.any_of env user (next who) codes) r rest,
        )

    require_any-Answers :
        (codes : List Text) (who : TokenClaims)
        → Answers env (Middleware.require_any_permission env codes next who)
    unfolding Middleware.require_any_permission
    require_any-Answers codes who = search (answer_rules, any_of-Answers)

  pub guarded-Answers :
      (g : Guard) (next : TokenClaims → App env Answer) (req : Request)
      → ((who : TokenClaims) → Answers env (next who))
      → Answers env (guarded env g next req)
  unfolding guarded
  guarded-Answers Guard.public next req h = h _
  guarded-Answers Guard.signed_in next req h = auth-Answers next h req
  guarded-Answers (Guard.one_code code) next req h =
      auth-Answers _ (require-Answers next h code) req
  guarded-Answers (Guard.any_code codes) next req h =
      auth-Answers _ (require_any-Answers next h codes) req
