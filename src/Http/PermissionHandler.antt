-- ===== src/Http/PermissionHandler.antt =====
-- backend/internal/permissions/handler.go
use secure_auth_platform.Prelude.{ℕ, List, [], Text, bytes, ◌=t=◌, ◌==◌, if◌then◌else◌}
use secure_auth_platform.Exec.{
  Result, ok, err, not_found, forbidden, invalid_permission_code, permission_code_taken,
  protected_permission, permission_in_use, pure, attempt, ◌>>=◌,
}
use secure_auth_platform.Models.{Permission, Role}
use secure_auth_platform.Env.{Env}
use secure_auth_platform.World.{App}
use secure_auth_platform.Service.Tokens.{TokenClaims}
use secure_auth_platform.Service.PermissionService
use secure_auth_platform.Http.{
  CreatePermissionRequest, Request, nothing, one_permission, many_permissions, many_roles, replied,
  refused, failed, Answer, answer,
}
use secure_auth_platform.Http.Params.{for_some, for_id}

abbrev pub listed : Result (List Permission) → Answer
listed (ok ps) = answer (replied 200 (many_permissions ps))
listed (err e) = answer (failed e)

abbrev pub listed_roles : Result (List Role) → Answer
listed_roles (ok rs) = answer (replied 200 (many_roles rs))
listed_roles (err e) = answer (failed e)

unfoldable pub create_answer : Result Permission → Answer
create_answer (ok p) = answer (replied 201 (one_permission p))
create_answer (err invalid_permission_code) = answer (refused 400 (bytes "invalid permission code"))
create_answer (err permission_code_taken) =
    answer (refused 409 (bytes "permission code already exists"))
create_answer (err e) = answer (failed e)

unfoldable pub update_answer : Result Permission → Answer
update_answer (ok p) = answer (replied 200 (one_permission p))
update_answer (err not_found) = answer (refused 404 (bytes "permission not found"))
update_answer (err e) = answer (failed e)

unfoldable pub delete_answer : Result (Unit {0}) → Answer
delete_answer (ok u) = answer (replied 204 nothing)
delete_answer (err not_found) = answer (refused 404 (bytes "permission not found"))
delete_answer (err protected_permission) = answer (refused 409 (bytes "protected permission"))
delete_answer (err permission_in_use) = answer (refused 409 (bytes "permission in use"))
delete_answer (err e) = answer (failed e)

unfoldable pub grant_answer : Result (Unit {0}) → Answer
grant_answer (ok u) = answer (replied 204 nothing)
grant_answer (err not_found) = answer (refused 404 (bytes "user or permission not found"))
grant_answer (err forbidden) =
    answer (refused 403 (bytes "cannot grant permission you do not have"))
grant_answer (err e) = answer (failed e)

unfoldable pub revoke_answer : Result (Unit {0}) → Answer
revoke_answer (ok u) = answer (replied 204 nothing)
revoke_answer (err not_found) = answer (refused 404 (bytes "user or permission not found"))
revoke_answer (err e) = answer (failed e)

abbrev pub no_permission_id : Answer
no_permission_id = answer (refused 400 (bytes "permissionId is required"))

module _ (env : Env) where
  unfoldable pub list : App env Answer
  list = do r ← attempt (PermissionService.list_all env); pure (listed r)

  unfoldable pub create_with : TokenClaims → CreatePermissionRequest → App env Answer
  create_with who body =
      if env.libs.trim_space body.code =t= []
      then pure (answer (refused 400 (bytes "code is required")))
      else (do
        r ← attempt (PermissionService.create env who.user_id body.code body.description)
        pure (create_answer r))

  unfoldable pub create : Request → TokenClaims → App env Answer
  create req who =
      for_some env req.permission_body (answer (refused 400 (bytes "invalid body")))
        (create_with who)

  unfoldable pub update_with : TokenClaims → ℕ → Text → App env Answer
  update_with who id description = do
    r ← attempt (PermissionService.update_description env who.user_id id description)
    pure (update_answer r)

  unfoldable pub update : Request → TokenClaims → App env Answer
  update req who = for_id env req.id_param (bytes "id") λ id.
      for_some env req.description_body (answer (refused 400 (bytes "invalid body")))
        (update_with who id)

  unfoldable pub delete : Request → TokenClaims → App env Answer
  delete req who =
      for_id env req.id_param (bytes "id")
        λ id. do r ← attempt (PermissionService.delete env who.user_id id); pure (delete_answer r)

  unfoldable pub grant_with : TokenClaims → (user permission : ℕ) → App env Answer
  grant_with who user permission = if permission == 0 then pure no_permission_id else (do
    r ← attempt (PermissionService.grant env who.user_id user permission)
    pure (grant_answer r))

  unfoldable pub grant : Request → TokenClaims → App env Answer
  grant req who =
      for_id env req.id_param (bytes "user id")
        λ user. for_some env req.grant_body no_permission_id (grant_with who user)

  unfoldable pub revoke : Request → TokenClaims → App env Answer
  revoke req who = for_id env req.id_param (bytes "user id") λ user.
      for_id env req.permission_id_param (bytes "permissionId") λ permission. do
        r ← attempt (PermissionService.revoke env who.user_id user permission)
        pure (revoke_answer r)

  unfoldable pub list_roles : App env Answer
  list_roles = do r ← attempt (PermissionService.list_roles env); pure (listed_roles r)
