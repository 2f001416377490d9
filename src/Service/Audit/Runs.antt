-- ===== src/Service/Audit/Runs.antt =====
-- Writing to the audit trail is a run of steps.
use secure_auth_platform.Prelude.{ℕ, Option, Text}
use secure_auth_platform.Models.{Data}
use secure_auth_platform.Env.{Env}
use secure_auth_platform.World.Moves.{Moves}
use secure_auth_platform.Repository.Steps.{runs}
use secure_auth_platform.Repository.Runs.{statement_rules}
use secure_auth_platform.Service.Audit.{log, log_security_alert}

module _ (env : Env) where
  pub log-Runs :
      (user : Option ℕ) (action entity : Text) (id : Option ℕ) (old now : Option Data)
      → Moves env runs (log env user action entity id old now)
  unfolding log
  log-Runs user action entity id old now = search statement_rules

  pub log_security_alert-Runs :
      (user : Option ℕ) (reason : Text) (metadata : Data)
      → Moves env runs (log_security_alert env user reason metadata)
  unfolding log_security_alert
  log_security_alert-Runs user reason metadata = search log-Runs

pub ruleset audit_rules = (statement_rules, log-Runs, log_security_alert-Runs)
