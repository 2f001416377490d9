-- ===== src/Http/Runs/Sessions.antt =====
-- The handlers of backend/internal/auth/handler.go are runs of steps.
use secure_auth_platform.Prelude.{ℤ, pos, negsuc}
use secure_auth_platform.Exec.{Result, ok, err}
use secure_auth_platform.Env.{Env}
use secure_auth_platform.World.Moves.{Moves}
use secure_auth_platform.Repository.Steps.{runs, Runs-sql, here}
use secure_auth_platform.Service.Tokens.{TokenPair, TokenClaims}
use secure_auth_platform.Http.{LoginRequest, Request}
use secure_auth_platform.Http.AuthHandler
use secure_auth_platform.Http.Runs.Base.{handler_rules}

module _ (env : Env) where
  pub auth_login_with-Runs :
      (req : Request) (body : LoginRequest) → Moves env runs (AuthHandler.login_with env req body)
  unfolding AuthHandler.login_with
  auth_login_with-Runs req body = search handler_rules

  pub auth_login-Runs : (req : Request) → Moves env runs (AuthHandler.login env req)
  unfolding AuthHandler.login
  auth_login-Runs req = search (handler_rules, auth_login_with-Runs)

  pub auth_refresh_answer-Runs :
      (r : Result TokenPair) → Moves env runs (AuthHandler.refresh_answer env r)
  unfolding AuthHandler.refresh_answer
  auth_refresh_answer-Runs (ok p) = search handler_rules
  auth_refresh_answer-Runs (err e) = search handler_rules

  pub auth_refresh-Runs : (req : Request) → Moves env runs (AuthHandler.refresh env req)
  unfolding AuthHandler.refresh
  auth_refresh-Runs req = search (handler_rules, auth_refresh_answer-Runs)

  pub auth_cleared-Runs : Moves env runs (AuthHandler.cleared env)
  unfolding AuthHandler.cleared
  auth_cleared-Runs = search handler_rules

  pub auth_logout_answer-Runs :
      (r : Result (Unit {0})) → Moves env runs (AuthHandler.logout_answer env r)
  unfolding AuthHandler.logout_answer
  auth_logout_answer-Runs (ok u) = search (handler_rules, auth_cleared-Runs)
  auth_logout_answer-Runs (err e) = search handler_rules

  pub auth_logout-Runs : (req : Request) → Moves env runs (AuthHandler.logout env req)
  unfolding AuthHandler.logout
  auth_logout-Runs req = search (handler_rules, auth_cleared-Runs, auth_logout_answer-Runs)

  pub auth_list_sessions-Runs :
      (who : TokenClaims) → Moves env runs (AuthHandler.list_sessions env who)
  unfolding AuthHandler.list_sessions
  auth_list_sessions-Runs who = search handler_rules

  pub find_negative-Runs : Moves env runs (AuthHandler.find_negative env)
  unfolding AuthHandler.find_negative
  find_negative-Runs = Runs-sql env _ (λ now t. here)

  pub auth_revoke_parsed-Runs :
      (who : TokenClaims) (id : ℤ) → Moves env runs (AuthHandler.revoke_parsed env who id)
  unfolding AuthHandler.revoke_parsed
  auth_revoke_parsed-Runs who (pos n) = search handler_rules
  auth_revoke_parsed-Runs who (negsuc n) = search (handler_rules, find_negative-Runs)

  pub auth_revoke_session-Runs :
      (req : Request) (who : TokenClaims) → Moves env runs (AuthHandler.revoke_session env req who)
  unfolding AuthHandler.revoke_session
  auth_revoke_session-Runs req who = search (handler_rules, auth_revoke_parsed-Runs)

  pub auth_revoke_all_sessions_except_current-Runs :
      (who : TokenClaims) → Moves env runs (AuthHandler.revoke_all_sessions_except_current env who)
  unfolding AuthHandler.revoke_all_sessions_except_current
  auth_revoke_all_sessions_except_current-Runs who = search handler_rules
