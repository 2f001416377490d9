-- ===== src/Http/Answers/Permissions.antt =====
-- The handlers of backend/internal/permissions/handler.go and backend/internal/audit/handler.go answer.
use secure_auth_platform.Prelude.{ℕ, ◌≡◌, refl, true, List, Text}
use secure_auth_platform.Exec.{Error, Result, ok, err}
use secure_auth_platform.Models.{Permission, Role, AuditLog}
use secure_auth_platform.Env.{Env}
use secure_auth_platform.Service.Tokens.{TokenClaims}
use secure_auth_platform.Http.{CreatePermissionRequest, Request, status_of}
use secure_auth_platform.Http.PermissionHandler
use secure_auth_platform.Http.AuditHandler
use secure_auth_platform.Http.Answers.Base.{is_listed, Answers, answer_rules}

create_answer-listed :
    (r : Result Permission)
    → is_listed (status_of (PermissionHandler.create_answer r).outcome) ≡ true
unfolding PermissionHandler.create_answer
create_answer-listed (ok x) = refl
create_answer-listed (err Error.invalid_permission_code) = refl
create_answer-listed (err Error.permission_code_taken) = refl
create_answer-listed (err _) = refl

update_answer-listed :
    (r : Result Permission)
    → is_listed (status_of (PermissionHandler.update_answer r).outcome) ≡ true
unfolding PermissionHandler.update_answer
update_answer-listed (ok x) = refl
update_answer-listed (err Error.not_found) = refl
update_answer-listed (err _) = refl

delete_answer-listed :
    (r : Result (Unit {0}))
    → is_listed (status_of (PermissionHandler.delete_answer r).outcome) ≡ true
unfolding PermissionHandler.delete_answer
delete_answer-listed (ok x) = refl
delete_answer-listed (err Error.not_found) = refl
delete_answer-listed (err Error.protected_permission) = refl
delete_answer-listed (err Error.permission_in_use) = refl
delete_answer-listed (err _) = refl

grant_answer-listed :
    (r : Result (Unit {0}))
    → is_listed (status_of (PermissionHandler.grant_answer r).outcome) ≡ true
unfolding PermissionHandler.grant_answer
grant_answer-listed (ok x) = refl
grant_answer-listed (err Error.not_found) = refl
grant_answer-listed (err Error.forbidden) = refl
grant_answer-listed (err _) = refl

revoke_answer-listed :
    (r : Result (Unit {0}))
    → is_listed (status_of (PermissionHandler.revoke_answer r).outcome) ≡ true
unfolding PermissionHandler.revoke_answer
revoke_answer-listed (ok x) = refl
revoke_answer-listed (err Error.not_found) = refl
revoke_answer-listed (err _) = refl

listed-listed :
    (r : Result (List Permission))
    → is_listed (status_of (PermissionHandler.listed r).outcome) ≡ true
listed-listed (ok x) = refl
listed-listed (err e) = refl

listed_roles-listed :
    (r : Result (List Role))
    → is_listed (status_of (PermissionHandler.listed_roles r).outcome) ≡ true
listed_roles-listed (ok x) = refl
listed_roles-listed (err e) = refl

logs-listed :
    (r : Result (List AuditLog)) → is_listed (status_of (AuditHandler.listed r).outcome) ≡ true
logs-listed (ok x) = refl
logs-listed (err e) = refl

module _ (env : Env) where
  pub list-Answers : Answers env (PermissionHandler.list env)
  unfolding PermissionHandler.list
  list-Answers = search (answer_rules, listed-listed) depth 8

  pub create_with-Answers :
      (who : TokenClaims) (body : CreatePermissionRequest)
      → Answers env (PermissionHandler.create_with env who body)
  unfolding PermissionHandler.create_with
  create_with-Answers who body = search (answer_rules, create_answer-listed) depth 8

  pub create-Answers :
      (req : Request) (who : TokenClaims) → Answers env (PermissionHandler.create env req who)
  unfolding PermissionHandler.create
  create-Answers req who = search (answer_rules, create_with-Answers) depth 8

  pub update_with-Answers :
      (who : TokenClaims) (id : ℕ) (d : Text)
      → Answers env (PermissionHandler.update_with env who id d)
  unfolding PermissionHandler.update_with
  update_with-Answers who id d = search (answer_rules, update_answer-listed) depth 8

  pub update-Answers :
      (req : Request) (who : TokenClaims) → Answers env (PermissionHandler.update env req who)
  unfolding PermissionHandler.update
  update-Answers req who = search (answer_rules, update_with-Answers) depth 8

  pub delete-Answers :
      (req : Request) (who : TokenClaims) → Answers env (PermissionHandler.delete env req who)
  unfolding PermissionHandler.delete
  delete-Answers req who = search (answer_rules, delete_answer-listed) depth 8

  pub grant_with-Answers :
      (who : TokenClaims) (user : ℕ) (permission : ℕ)
      → Answers env (PermissionHandler.grant_with env who user permission)
  unfolding PermissionHandler.grant_with
  grant_with-Answers who user permission = search (answer_rules, grant_answer-listed) depth 8

  pub grant-Answers :
      (req : Request) (who : TokenClaims) → Answers env (PermissionHandler.grant env req who)
  unfolding PermissionHandler.grant
  grant-Answers req who = search (answer_rules, grant_with-Answers) depth 8

  pub revoke-Answers :
      (req : Request) (who : TokenClaims) → Answers env (PermissionHandler.revoke env req who)
  unfolding PermissionHandler.revoke
  revoke-Answers req who = search (answer_rules, revoke_answer-listed) depth 8

  pub list_roles-Answers : Answers env (PermissionHandler.list_roles env)
  unfolding PermissionHandler.list_roles
  list_roles-Answers = search (answer_rules, listed_roles-listed) depth 8

  pub logs-Answers : (req : Request) → Answers env (AuditHandler.list env req)
  unfolding AuditHandler.list
  logs-Answers req = search (answer_rules, logs-listed)
