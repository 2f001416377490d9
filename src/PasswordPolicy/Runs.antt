-- ===== src/PasswordPolicy/Runs.antt =====
-- Checking a password changes no table.
use secure_auth_platform.Prelude.{Option, none, some, Text}
use secure_auth_platform.Env.{Env}
use secure_auth_platform.World.Moves.{Moves, moves_rules}
use secure_auth_platform.Repository.Steps.{runs, runs-refl}
use secure_auth_platform.PasswordPolicy.{check_hibp, on_leak, validate_password_secure}

module _ (env : Env) where
  check_hibp-Runs : (password : Text) → Moves env runs (check_hibp env password)
  unfolding check_hibp
  check_hibp-Runs password = record { at = λ w. runs-refl w.db }

  on_leak-Runs : (leak : Option _) → Moves env runs (on_leak env leak)
  unfolding on_leak
  on_leak-Runs none = search moves_rules
  on_leak-Runs (some pwned) = search moves_rules

  pub validate_password_secure-Runs :
      (password name email : Text)
      → Moves env runs (validate_password_secure env password name email)
  unfolding validate_password_secure
  validate_password_secure-Runs password name email =
      search (moves_rules, check_hibp-Runs, on_leak-Runs)
