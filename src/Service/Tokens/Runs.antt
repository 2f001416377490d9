-- ===== src/Service/Tokens/Runs.antt =====
-- Creating a session and checking an access token are runs of steps.
use secure_auth_platform.Prelude.{ℕ, Text}
use secure_auth_platform.Models.{User}
use secure_auth_platform.Env.{Env}
use secure_auth_platform.World.Moves.{Moves}
use secure_auth_platform.Repository.Steps.{runs}
use secure_auth_platform.Service.Audit.Runs.{audit_rules}
use secure_auth_platform.Service.Tokens.{
  generate_refresh_token, generate_access_token, create_session,
}

module _ (env : Env) where
  generate_refresh_token-Runs : Moves env runs (generate_refresh_token env)
  unfolding generate_refresh_token
  generate_refresh_token-Runs = search audit_rules

  generate_access_token-Runs :
      (user : User) (id : ℕ) → Moves env runs (generate_access_token env user id)
  unfolding generate_access_token
  generate_access_token-Runs user id = search audit_rules

  pub create_session-Runs :
      (user : User) (ip user_agent : Text) → Moves env runs (create_session env user ip user_agent)
  unfolding create_session
  create_session-Runs user ip user_agent =
      search (audit_rules, generate_refresh_token-Runs, generate_access_token-Runs) depth 16
