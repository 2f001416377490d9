-- ===== src/Http/Runs/Users.antt =====
-- The handlers of backend/internal/users/handler.go are runs of steps.
use secure_auth_platform.Prelude.{ℕ, List, Text}
use secure_auth_platform.Exec.{Error, Result, ok, err}
use secure_auth_platform.Models.{User}
use secure_auth_platform.Env.{Env}
use secure_auth_platform.World.Moves.{Moves}
use secure_auth_platform.Repository.Steps.{runs}
use secure_auth_platform.Service.Tokens.{TokenClaims}
use secure_auth_platform.Http.{CreateRequest, UpdateRequest, Request}
use secure_auth_platform.Http.UserHandler
use secure_auth_platform.Http.Runs.Base.{handler_rules}

module _ (env : Env) where
  pub user_list-Runs : Moves env runs (UserHandler.list env)
  unfolding UserHandler.list
  user_list-Runs = search handler_rules

  pub user_get-Runs : (req : Request) → Moves env runs (UserHandler.get env req)
  unfolding UserHandler.get
  user_get-Runs req = search handler_rules

  pub user_account_answer-Runs :
      (u : User) (r : Result (List Text)) → Moves env runs (UserHandler.account_answer env u r)
  unfolding UserHandler.account_answer
  user_account_answer-Runs u (ok c) = search handler_rules
  user_account_answer-Runs u (err e) = search handler_rules

  pub user_found_me-Runs :
      (id : ℕ) (r : Result User) → Moves env runs (UserHandler.found_me env id r)
  unfolding UserHandler.found_me
  user_found_me-Runs id (ok u) = search (handler_rules, user_account_answer-Runs)
  user_found_me-Runs id (err Error.not_found) = search handler_rules
  user_found_me-Runs id (err _) = search handler_rules

  pub user_me-Runs : (who : TokenClaims) → Moves env runs (UserHandler.me env who)
  unfolding UserHandler.me
  user_me-Runs who = search (handler_rules, user_found_me-Runs)

  pub user_create_with-Runs :
      (who : TokenClaims) (body : CreateRequest)
      → Moves env runs (UserHandler.create_with env who body)
  unfolding UserHandler.create_with
  user_create_with-Runs who body = search handler_rules

  pub user_create-Runs :
      (req : Request) (who : TokenClaims) → Moves env runs (UserHandler.create env req who)
  unfolding UserHandler.create
  user_create-Runs req who = search (handler_rules, user_create_with-Runs)

  pub user_update_with-Runs :
      (who : TokenClaims) (id : ℕ) (body : UpdateRequest)
      → Moves env runs (UserHandler.update_with env who id body)
  unfolding UserHandler.update_with
  user_update_with-Runs who id body = search handler_rules

  pub user_update-Runs :
      (req : Request) (who : TokenClaims) → Moves env runs (UserHandler.update env req who)
  unfolding UserHandler.update
  user_update-Runs req who = search (handler_rules, user_update_with-Runs)
