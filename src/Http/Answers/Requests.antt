-- ===== src/Http/Answers/Requests.antt =====
-- Answers to whole requests: backend/middleware and backend/routes/routes.go.
use secure_auth_platform.Prelude.{◌≡◌, refl, sym, ap, subst, ◌∙◌, true, false, inl, inr, Bool-cases}
use secure_auth_platform.Exec.{Result, ok}
use secure_auth_platform.Env.{Env}
use secure_auth_platform.World.{World, App}
use secure_auth_platform.Service.Tokens.{TokenClaims}
use secure_auth_platform.Http.{Request, Answer, respond}
use secure_auth_platform.Http.Routes.{
  Route, Guard, guarded, handler_of, guard_of, serve_route, nobody,
}
use secure_auth_platform.Http.Answers.Total.{handler_of-Answers, guarded-Answers}
use secure_auth_platform.Http.Answers.Calls.{Explained}
use secure_auth_platform.Http.Answers.Reasons.{Reason, status_at}
use secure_auth_platform.Http.Answers.Reasons.Sessions as SessionReasons
use secure_auth_platform.Http.Answers.Reasons.Users as UserReasons
use secure_auth_platform.Http.Answers.Reasons.Permissions as PermissionReasons
use secure_auth_platform.Http.Gate.{TurnedAway, is_public}
use secure_auth_platform.Http.Gate.Entry.{LetIn, serve_route_gated}

module _ (env : Env) where
  handler_of-Reason :
      (route : Route) (req : Request) (who : TokenClaims) (w : World env.redis.State)
      → Reason env req who w route (handler_of env route req who)
  unfolding handler_of
  handler_of-Reason Route.post_login req who w = SessionReasons.login-Reason env req who w
  handler_of-Reason Route.post_refresh req who w = SessionReasons.refresh-Reason env req who w
  handler_of-Reason Route.post_logout req who w = SessionReasons.logout-Reason env req who w
  handler_of-Reason Route.get_me req who w = UserReasons.me-Reason env req who w
  handler_of-Reason Route.get_sessions req who w = SessionReasons.list_sessions-Reason env req who w
  handler_of-Reason Route.delete_sessions req who w =
      SessionReasons.revoke_others-Reason env req who w
  handler_of-Reason Route.delete_session req who w =
      SessionReasons.revoke_session-Reason env req who w
  handler_of-Reason Route.get_users req who w = UserReasons.list-Reason env req who w
  handler_of-Reason Route.post_users req who w = UserReasons.create-Reason env req who w
  handler_of-Reason Route.get_user req who w = UserReasons.get-Reason env req who w
  handler_of-Reason Route.patch_user req who w = UserReasons.update-Reason env req who w
  handler_of-Reason Route.get_roles req who w = PermissionReasons.list_roles-Reason env req who w
  handler_of-Reason Route.get_permissions req who w = PermissionReasons.list-Reason env req who w
  handler_of-Reason Route.post_permissions req who w = PermissionReasons.create-Reason env req who w
  handler_of-Reason Route.patch_permission req who w = PermissionReasons.update-Reason env req who w
  handler_of-Reason Route.delete_permission req who w =
      PermissionReasons.delete-Reason env req who w
  handler_of-Reason Route.post_user_permissions req who w =
      PermissionReasons.grant-Reason env req who w
  handler_of-Reason Route.delete_user_permission req who w =
      PermissionReasons.revoke-Reason env req who w
  handler_of-Reason Route.get_audit_logs req who w = PermissionReasons.logs-Reason env req who w

  -- Who a handler runs for, and in which state: anybody for a row that is public, and otherwise
  -- one whom the guard of the row let in.
  pub data Reached (route : Route) (req : Request) (w : World env.redis.State)
      : TokenClaims → World env.redis.State → Type 0 where
    freely : is_public (guard_of route) ≡ true → Reached route req w (nobody env) w
    let_in :
        {who : TokenClaims} {u : World env.redis.State}
        → is_public (guard_of route) ≡ false
        → LetIn env (guard_of route) req w who u
        → Reached route req w who u

  -- How a request was answered: it was turned away, or its handler ran and the status has its
  -- reason.
  pub data Accounted (route : Route) (req : Request) (w : World env.redis.State) (a : Answer)
      (v : World env.redis.State) : Type 1 where
    turned_away :
        is_public (guard_of route) ≡ false → TurnedAway env w a v → Accounted route req w a v
    handled :
        (who : TokenClaims) (u : World env.redis.State)
        → Reached route req w who u
        → Explained env req who u route (respond a).status
        → Accounted route req w a v

  explained :
      (route : Route) (req : Request) (who : TokenClaims) (u v : World env.redis.State) (a : Answer)
      → handler_of env route req who u ≡ (ok a, v)
      → Explained env req who u route (respond a).status
  unfolding respond
  explained route req who u v a h =
      subst
        (λ (x : Result Answer × World env.redis.State). Explained env req who u route (status_at x))
        h (handler_of-Reason route req who u)

  serve_public :
      (g : Guard) (next : TokenClaims → App env Answer) (req : Request)
      → is_public g ≡ true
      → guarded env g next req ≡ next (nobody env)
  unfolding guarded
  serve_public Guard.public next req p = refl
  serve_public Guard.signed_in next req p = cc
  serve_public (Guard.one_code code) next req p = cc
  serve_public (Guard.any_code codes) next req p = cc

  accounted :
      (route : Route) (req : Request) (w v : World env.redis.State) (a : Answer)
      → serve_route env route req w ≡ (ok a, v)
      → Accounted route req w a v
  unfolding serve_route
  accounted route req w v a h = elim (Bool-cases (is_public (guard_of route))) [
    | inl free ↦
        let here = ap (λ (m : App env Answer). m w) (serve_public (guard_of route) _ req free) in
        handled (nobody env) w (freely free) (explained route req (nobody env) w v a (sym here ∙ h))
    | inr closed ↦ elim (serve_route_gated env route req w v a closed h) [
      | inl t ↦ turned_away closed t
      | inr (who, u, l, k) ↦ handled who u (let_in closed l) (explained route req who u v a k)
    ]
  ]

  -- Every request of a row of the table gets a response, whatever fails on the way. Either the
  -- guard of the row turned it away, with 401, 403 or 500, or its handler ran, for anybody if the
  -- row is public and otherwise for one whom the guard let in, and the status is the one that the
  -- table of statuses has: for a request that is answered before a service is called, or else
  -- for the value or the error of the service call of the row with the parts of the request.
  pub serve_route_answers :
      (route : Route) (req : Request) (w : World env.redis.State)
      → (a : Answer) × (v : World env.redis.State) × (serve_route env route req w ≡ (ok a, v))
        × Accounted route req w a v
  unfolding serve_route
  serve_route_answers route req w =
      let (a, v, h, _) =
        (guarded-Answers env (guard_of route) (handler_of env route req) req
            (handler_of-Answers env route req)).at
          w in
      (a, v, h, accounted route req w v a h)
