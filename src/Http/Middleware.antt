-- ===== src/Http/Middleware.antt =====
-- backend/middleware/auth.go, permission.go. What `c.Locals` hands on is an argument of the next handler.
use secure_auth_platform.Prelude.{
  ℕ, Bool, List, [], ◌∷◌, ◌++◌, Text, bytes, has_prefix, trim_prefix, ◌==◌, if◌then◌else◌,
}
use secure_auth_platform.Exec.{Result, ok, err, pure, attempt, ◌>>=◌}
use secure_auth_platform.Models.{User}
use secure_auth_platform.Env.{Env}
use secure_auth_platform.World.{App}
use secure_auth_platform.Repository.Users
use secure_auth_platform.Service.Tokens.{TokenClaims, validate_access_token}
use secure_auth_platform.Service.Refresh.{touch_session}
use secure_auth_platform.Service.PermissionService.{has_permission}
use secure_auth_platform.Http.{Request, refused, Answer, answer}

abbrev pub unauthorized : Text → Answer
unauthorized m = answer (refused 401 m)

module _ (env : Env) where
  unfoldable pub on_touched :
      (TokenClaims → App env Answer) → TokenClaims → Result Bool → App env Answer
  on_touched next who (err e) = pure (unauthorized (bytes "session is revoked or expired"))
  on_touched next who (ok active) =
      if active then next who else pure (unauthorized (bytes "session is revoked or expired"))

  unfoldable pub on_user :
      (TokenClaims → App env Answer) → TokenClaims → Result User → App env Answer
  on_user next who (err e) = pure (unauthorized (bytes "user not found or inactive"))
  on_user next who (ok user) =
      if user.active
      then (do active ← attempt (touch_session env who.session_id); on_touched next who active)
      else pure (unauthorized (bytes "user not found or inactive"))

  unfoldable pub on_claims : (TokenClaims → App env Answer) → Result TokenClaims → App env Answer
  on_claims next (err e) = pure (unauthorized (bytes "invalid or expired token"))
  on_claims next (ok who) = do
    user ← attempt (Users.find_by_id env who.user_id)
    on_user next who user

  -- `Auth`
  unfoldable pub auth : (TokenClaims → App env Answer) → Request → App env Answer
  auth next req =
      if has_prefix req.authorization (bytes "Bearer ")
      then (do
        claims ←
            attempt (validate_access_token env (trim_prefix req.authorization (bytes "Bearer ")))
        on_claims next claims)
      else pure (unauthorized (bytes "missing bearer token"))

  unfoldable pub on_allowed : Text → App env Answer → Result Bool → App env Answer
  on_allowed code next (err e) = pure (answer (refused 500 (bytes "permission check failed")))
  on_allowed code next (ok allowed) =
      if allowed then next else pure (answer (refused 403 (bytes "missing permission: " ++ code)))

  unfoldable pub require_permission :
      Text → (TokenClaims → App env Answer) → TokenClaims → App env Answer
  require_permission code next who =
      if who.user_id == 0 then pure (unauthorized (bytes "not authenticated")) else (do
        allowed ← attempt (has_permission env who.user_id code)
        on_allowed code (next who) allowed)

  -- What the loop does with one answer: `rest` is the loop over the codes that are left.
  unfoldable pub on_any : (next rest : App env Answer) → Result Bool → App env Answer
  on_any next rest (err e) = pure (answer (refused 500 (bytes "permission check failed")))
  on_any next rest (ok allowed) = if allowed then next else rest

  -- The loop over the codes.
  unfoldable pub any_of : ℕ → App env Answer → List Text → App env Answer
  any_of user next [] = pure (answer (refused 403 (bytes "missing permission")))
  any_of user next (code ∷ codes) =
      attempt (has_permission env user code) >>= on_any next (any_of user next codes)

  unfoldable pub require_any_permission :
      List Text → (TokenClaims → App env Answer) → TokenClaims → App env Answer
  require_any_permission codes next who =
      if who.user_id == 0
      then pure (unauthorized (bytes "not authenticated"))
      else any_of who.user_id (next who) codes
