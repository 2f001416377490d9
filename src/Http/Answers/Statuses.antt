-- ===== src/Http/Answers/Statuses.antt =====
-- Which status goes with which error: the switch of each handler of backend/internal/auth/handler.go,
-- users/handler.go, permissions/handler.go and audit/handler.go, as one table.
use secure_auth_platform.Prelude.{
  ℕ, ◌==◌, ◌=t=◌, ◌||◌, not, List, [], Text, Option, none, some, ℤ, pos, negsuc, parse_int64,
  if◌then◌else◌,
}
use secure_auth_platform.Exec.{Error, Result, ok, err}
use secure_auth_platform.Env.{Env}
use secure_auth_platform.Service.Tokens.{TokenClaims}
use secure_auth_platform.Http.{Request}
use secure_auth_platform.Http.Params.{parse_positive_int64}
use secure_auth_platform.Http.UserHandler.{is_blank, is_bad_email, valid_email}
use secure_auth_platform.Http.Routes.{Route}

-- The status of a request that is served.
unfoldable pub success_status : Route → ℕ
success_status Route.post_users = 201
success_status Route.post_permissions = 201
success_status Route.post_logout = 204
success_status Route.delete_sessions = 204
success_status Route.delete_session = 204
success_status Route.delete_permission = 204
success_status Route.post_user_permissions = 204
success_status Route.delete_user_permission = 204
success_status route = 200

-- The errors of the fields of an account.
unfoldable pub account_status : Error → ℕ
account_status Error.email_taken = 409
account_status Error.invalid_email = 400
account_status Error.password_too_short = 400
account_status Error.password_too_long = 400
account_status Error.password_complexity = 400
account_status Error.password_weak = 400
account_status Error.password_pwned = 400
account_status e = 500

-- The status of a request whose service call fails.
unfoldable pub error_status : Route → Error → ℕ
error_status Route.post_login Error.rate_limited = 429
error_status Route.post_login Error.rate_limit_down = 503
error_status Route.post_login Error.invalid_credentials = 401
error_status Route.post_refresh Error.invalid_session = 401
error_status Route.post_refresh Error.token_reuse = 401
error_status Route.get_me Error.not_found = 401
error_status Route.get_user Error.not_found = 404
error_status Route.patch_user Error.not_found = 404
error_status Route.patch_user Error.cannot_deactivate_self = 409
error_status Route.patch_user Error.last_admin = 409
error_status Route.patch_user Error.forbidden = 403
error_status Route.patch_user e = account_status e
error_status Route.post_users e = account_status e
error_status Route.post_permissions Error.invalid_permission_code = 400
error_status Route.post_permissions Error.permission_code_taken = 409
error_status Route.patch_permission Error.not_found = 404
error_status Route.delete_permission Error.not_found = 404
error_status Route.delete_permission Error.protected_permission = 409
error_status Route.delete_permission Error.permission_in_use = 409
error_status Route.post_user_permissions Error.not_found = 404
error_status Route.post_user_permissions Error.forbidden = 403
error_status Route.delete_user_permission Error.not_found = 404
error_status route e = 500

unfoldable pub result_status : {A : Type 0} → Route → Result A → ℕ
result_status route (ok a) = success_status route
result_status route (err e) = error_status route e

-- The status of `/me`, once the user is known.
abbrev pub codes_status : Result (List Text) → ℕ
codes_status (ok codes) = 200
codes_status (err e) = 500

-- A part of a request that has to be there.
unfoldable pub needs : {A : Type 0} → Option A → (A → Option ℕ) → Option ℕ
needs none next = some 400
needs (some a) next = next a

unfoldable pub own_session : ℕ → ℤ → Option ℕ
own_session current (pos id) = if id == current then some 409 else none
own_session current (negsuc n) = none

-- The status of a request that is answered before a service is called.
unfoldable pub early_status : Env → Route → Request → TokenClaims → Option ℕ
early_status env Route.post_login req who =
    needs req.login_body λ b. if b.email =t= [] || b.password =t= [] then some 400 else none
early_status env Route.post_refresh req who = if req.refresh_cookie =t= [] then some 401 else none
early_status env Route.post_logout req who = if req.refresh_cookie =t= [] then some 204 else none
early_status env Route.delete_session req who =
    needs (parse_int64 req.id_param) (own_session who.session_id)
early_status env Route.post_users req who = needs req.create_body λ b.
    if (b.name =t= [] || b.email =t= [] || b.password =t= []) || not (valid_email env b.email)
    then some 400
    else none
early_status env Route.get_user req who = needs (parse_positive_int64 req.id_param) λ id. none
early_status env Route.patch_user req who = needs (parse_positive_int64 req.id_param) λ id.
    needs req.update_body
      λ b. if is_blank b.password || is_bad_email env b.email then some 400 else none
early_status env Route.post_permissions req who =
    needs req.permission_body λ b. if env.libs.trim_space b.code =t= [] then some 400 else none
early_status env Route.patch_permission req who =
    needs (parse_positive_int64 req.id_param) λ id. needs req.description_body λ d. none
early_status env Route.delete_permission req who =
    needs (parse_positive_int64 req.id_param) λ id. none
early_status env Route.post_user_permissions req who =
    needs (parse_positive_int64 req.id_param)
      λ id. needs req.grant_body λ permission. if permission == 0 then some 400 else none
early_status env Route.delete_user_permission req who =
    needs (parse_positive_int64 req.id_param)
      λ user. needs (parse_positive_int64 req.permission_id_param) λ permission. none
early_status env route req who = none
