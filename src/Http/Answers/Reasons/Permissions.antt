-- ===== src/Http/Answers/Reasons/Permissions.antt =====
-- Why the handlers of backend/internal/permissions/handler.go and backend/internal/audit/handler.go
-- answer as they do.
use secure_auth_platform.Prelude.{ℕ, ◌≡◌, refl, List, [], some, ◌==◌, ◌=t=◌}
use secure_auth_platform.Exec.{Error, Result, ok, err, attempt, ◌>>=◌}
use secure_auth_platform.Models.{Permission, Role, AuditLog}
use secure_auth_platform.Env.{Env}
use secure_auth_platform.World.{World}
use secure_auth_platform.Service.Tokens.{TokenClaims}
use secure_auth_platform.Http.{CreatePermissionRequest, Request, status_of}
use secure_auth_platform.Http.PermissionHandler
use secure_auth_platform.Http.AuditHandler
use secure_auth_platform.Http.Params.{parse_positive_int64}
use secure_auth_platform.Http.Routes.{Route}
use secure_auth_platform.Http.Answers.Statuses.{
  early_status, needs, result_status, success_status, error_status,
}
use secure_auth_platform.Http.Answers.Calls.{
  early, called, list_roles, list_permissions, create_permission, update_permission,
  delete_permission, grant, revoke, list_logs,
}
use secure_auth_platform.Http.Answers.Reasons.{
  Reason, for_some-Reason, for_id-Reason, refuse-Reason,
}

create_answer-status :
    (r : Result Permission)
    → status_of (PermissionHandler.create_answer r).outcome ≡ result_status Route.post_permissions r
unfolding PermissionHandler.create_answer result_status success_status error_status
create_answer-status (ok x) = refl
create_answer-status (err Error.invalid_permission_code) = refl
create_answer-status (err Error.permission_code_taken) = refl
create_answer-status (err _) = refl

update_answer-status :
    (r : Result Permission)
    → status_of (PermissionHandler.update_answer r).outcome ≡ result_status Route.patch_permission r
unfolding PermissionHandler.update_answer result_status success_status error_status
update_answer-status (ok x) = refl
update_answer-status (err Error.not_found) = refl
update_answer-status (err _) = refl

delete_answer-status :
    (r : Result (Unit {0}))
    → status_of (PermissionHandler.delete_answer r).outcome
      ≡ result_status Route.delete_permission r
unfolding PermissionHandler.delete_answer result_status success_status error_status
delete_answer-status (ok x) = refl
delete_answer-status (err Error.not_found) = refl
delete_answer-status (err Error.protected_permission) = refl
delete_answer-status (err Error.permission_in_use) = refl
delete_answer-status (err _) = refl

grant_answer-status :
    (r : Result (Unit {0}))
    → status_of (PermissionHandler.grant_answer r).outcome
      ≡ result_status Route.post_user_permissions r
unfolding PermissionHandler.grant_answer result_status success_status error_status
grant_answer-status (ok x) = refl
grant_answer-status (err Error.not_found) = refl
grant_answer-status (err Error.forbidden) = refl
grant_answer-status (err _) = refl

revoke_answer-status :
    (r : Result (Unit {0}))
    → status_of (PermissionHandler.revoke_answer r).outcome
      ≡ result_status Route.delete_user_permission r
unfolding PermissionHandler.revoke_answer result_status success_status error_status
revoke_answer-status (ok x) = refl
revoke_answer-status (err Error.not_found) = refl
revoke_answer-status (err _) = refl

listed-status :
    (r : Result (List Permission))
    → status_of (PermissionHandler.listed r).outcome ≡ result_status Route.get_permissions r
unfolding result_status success_status error_status
listed-status (ok x) = refl
listed-status (err _) = refl

listed_roles-status :
    (r : Result (List Role))
    → status_of (PermissionHandler.listed_roles r).outcome ≡ result_status Route.get_roles r
unfolding result_status success_status error_status
listed_roles-status (ok x) = refl
listed_roles-status (err _) = refl

logs-status :
    (r : Result (List AuditLog))
    → status_of (AuditHandler.listed r).outcome ≡ result_status Route.get_audit_logs r
unfolding result_status success_status error_status
logs-status (ok x) = refl
logs-status (err _) = refl

module _ (env : Env) (req : Request) (who : TokenClaims) (w : World env.redis.State) where
  pub list-Reason : Reason env req who w Route.get_permissions (PermissionHandler.list env)
  unfolding PermissionHandler.list early_status attempt ◌>>=◌
  list-Reason = called _ _ list_permissions refl (listed-status _)

  pub list_roles-Reason : Reason env req who w Route.get_roles (PermissionHandler.list_roles env)
  unfolding PermissionHandler.list_roles early_status attempt ◌>>=◌
  list_roles-Reason = called _ _ list_roles refl (listed_roles-status _)

  pub logs-Reason : Reason env req who w Route.get_audit_logs (AuditHandler.list env req)
  unfolding AuditHandler.list early_status attempt ◌>>=◌
  logs-Reason = called _ _ list_logs refl (logs-status _)

  create_with-Reason :
      (b : CreatePermissionRequest)
      → req.permission_body ≡ some b
      → Reason env req who w Route.post_permissions (PermissionHandler.create_with env who b)
  unfolding PermissionHandler.create_with early_status needs attempt ◌>>=◌
  create_with-Reason b e =
      refuse-Reason env req who w Route.post_permissions (env.libs.trim_space b.code =t= []) 400 _ _
        (λ bad. rw (e, bad) refl)
        λ good. called _ _ (create_permission b e) (rw (e, good) refl) (create_answer-status _)

  pub create-Reason :
      Reason env req who w Route.post_permissions (PermissionHandler.create env req who)
  unfolding PermissionHandler.create early_status needs
  create-Reason =
      for_some-Reason env req who w Route.post_permissions req.permission_body _ _
        (λ e. early (rw e refl)) create_with-Reason

  pub update-Reason :
      Reason env req who w Route.patch_permission (PermissionHandler.update env req who)
  unfolding PermissionHandler.update PermissionHandler.update_with early_status needs attempt ◌>>=◌
  update-Reason =
      for_id-Reason env req who w Route.patch_permission req.id_param _ _ (λ e. early (rw e refl))
        λ id e.
          for_some-Reason env req who w Route.patch_permission req.description_body _ _
            (λ f. early (rw (e, f) refl))
            λ d f. called _ _ (update_permission id d e f) (rw (e, f) refl) (update_answer-status _)

  pub delete-Reason :
      Reason env req who w Route.delete_permission (PermissionHandler.delete env req who)
  unfolding PermissionHandler.delete early_status needs attempt ◌>>=◌
  delete-Reason =
      for_id-Reason env req who w Route.delete_permission req.id_param _ _ (λ e. early (rw e refl))
        λ id e. called _ _ (delete_permission id e) (rw e refl) (delete_answer-status _)

  grant_with-Reason :
      (user permission : ℕ)
      → parse_positive_int64 req.id_param ≡ some user
      → req.grant_body ≡ some permission
      → Reason env req who w Route.post_user_permissions
          (PermissionHandler.grant_with env who user permission)
  unfolding PermissionHandler.grant_with early_status needs attempt ◌>>=◌
  grant_with-Reason user permission e f =
      refuse-Reason env req who w Route.post_user_permissions (permission == 0) 400 _ _
        (λ bad. rw (e, f, bad) refl)
        λ good.
          called _ _ (grant user permission e f) (rw (e, f, good) refl) (grant_answer-status _)

  pub grant-Reason :
      Reason env req who w Route.post_user_permissions (PermissionHandler.grant env req who)
  unfolding PermissionHandler.grant early_status needs
  grant-Reason =
      for_id-Reason env req who w Route.post_user_permissions req.id_param _ _
        (λ e. early (rw e refl))
        λ user e.
          for_some-Reason env req who w Route.post_user_permissions req.grant_body _ _
            (λ f. early (rw (e, f) refl)) λ permission f. grant_with-Reason user permission e f

  pub revoke-Reason :
      Reason env req who w Route.delete_user_permission (PermissionHandler.revoke env req who)
  unfolding PermissionHandler.revoke early_status needs attempt ◌>>=◌
  revoke-Reason =
      for_id-Reason env req who w Route.delete_user_permission req.id_param _ _
        (λ e. early (rw e refl))
        λ user e.
          for_id-Reason env req who w Route.delete_user_permission req.permission_id_param _ _
            (λ f. early (rw (e, f) refl))
            λ permission f.
              called _ _ (revoke user permission e f) (rw (e, f) refl) (revoke_answer-status _)
