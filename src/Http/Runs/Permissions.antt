-- ===== src/Http/Runs/Permissions.antt =====
-- The handlers of backend/internal/permissions/handler.go and backend/internal/audit/handler.go are runs
-- of steps.
use secure_auth_platform.Prelude.{ℕ, Text}
use secure_auth_platform.Env.{Env}
use secure_auth_platform.World.Moves.{Moves}
use secure_auth_platform.Repository.Steps.{runs}
use secure_auth_platform.Service.Tokens.{TokenClaims}
use secure_auth_platform.Http.{CreatePermissionRequest, Request}
use secure_auth_platform.Http.PermissionHandler
use secure_auth_platform.Http.AuditHandler
use secure_auth_platform.Http.Runs.Base.{handler_rules}

module _ (env : Env) where
  pub permission_list-Runs : Moves env runs (PermissionHandler.list env)
  unfolding PermissionHandler.list
  permission_list-Runs = search handler_rules

  pub permission_create_with-Runs :
      (who : TokenClaims) (body : CreatePermissionRequest)
      → Moves env runs (PermissionHandler.create_with env who body)
  unfolding PermissionHandler.create_with
  permission_create_with-Runs who body = search handler_rules

  pub permission_create-Runs :
      (req : Request) (who : TokenClaims) → Moves env runs (PermissionHandler.create env req who)
  unfolding PermissionHandler.create
  permission_create-Runs req who = search (handler_rules, permission_create_with-Runs)

  pub permission_update_with-Runs :
      (who : TokenClaims) (id : ℕ) (d : Text)
      → Moves env runs (PermissionHandler.update_with env who id d)
  unfolding PermissionHandler.update_with
  permission_update_with-Runs who id d = search handler_rules

  pub permission_update-Runs :
      (req : Request) (who : TokenClaims) → Moves env runs (PermissionHandler.update env req who)
  unfolding PermissionHandler.update
  permission_update-Runs req who = search (handler_rules, permission_update_with-Runs)

  pub permission_delete-Runs :
      (req : Request) (who : TokenClaims) → Moves env runs (PermissionHandler.delete env req who)
  unfolding PermissionHandler.delete
  permission_delete-Runs req who = search handler_rules

  pub permission_grant_with-Runs :
      (who : TokenClaims) (user : ℕ) (permission : ℕ)
      → Moves env runs (PermissionHandler.grant_with env who user permission)
  unfolding PermissionHandler.grant_with
  permission_grant_with-Runs who user permission = search handler_rules

  pub permission_grant-Runs :
      (req : Request) (who : TokenClaims) → Moves env runs (PermissionHandler.grant env req who)
  unfolding PermissionHandler.grant
  permission_grant-Runs req who = search (handler_rules, permission_grant_with-Runs)

  pub permission_revoke-Runs :
      (req : Request) (who : TokenClaims) → Moves env runs (PermissionHandler.revoke env req who)
  unfolding PermissionHandler.revoke
  permission_revoke-Runs req who = search handler_rules

  pub permission_list_roles-Runs : Moves env runs (PermissionHandler.list_roles env)
  unfolding PermissionHandler.list_roles
  permission_list_roles-Runs = search handler_rules

  pub audit_list-Runs : (req : Request) → Moves env runs (AuditHandler.list env req)
  unfolding AuditHandler.list
  audit_list-Runs req = search handler_rules
