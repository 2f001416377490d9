-- ===== src/Service/Login/Runs.antt =====
-- A login, whatever its outcome, is a run of steps.
use secure_auth_platform.Prelude.{ℕ, Bool, Option, some, Text, Option-cases, inl, inr}
use secure_auth_platform.Exec.{Error, Result, ok, err}
use secure_auth_platform.Models.{User}
use secure_auth_platform.Env.{Env, LastLogin}
use secure_auth_platform.World.Moves.{Moves}
use secure_auth_platform.Cache.RateLimit.{Verdict}
use secure_auth_platform.Password.Runs.{hash_password-Runs}
use secure_auth_platform.Repository.Steps.{runs}
use secure_auth_platform.Service.Audit.Runs.{audit_rules}
use secure_auth_platform.Service.Tokens.{TokenPair}
use secure_auth_platform.Service.Tokens.Runs.{create_session-Runs}
use secure_auth_platform.Service.PermissionService.Runs.{invalidate_user_cache-Runs}
use secure_auth_platform.Service.Login.{
  audit_login_failed, audit_rate_limit_block, on_verdict, check_login_rate_limit, refuse,
  found_user, checked_password, authenticate, renew_hash, alert_travel, compare_login, from_country,
  check_impossible_travel, after_login, login,
}

module _ (env : Env) where
  audit_login_failed-Runs :
      (email ip reason : Text) → Moves env runs (audit_login_failed env email ip reason)
  unfolding audit_login_failed
  audit_login_failed-Runs email ip reason = search audit_rules

  audit_rate_limit_block-Runs :
      (email ip : Text) (v : Verdict) → Moves env runs (audit_rate_limit_block env email ip v)
  unfolding audit_rate_limit_block
  audit_rate_limit_block-Runs email ip v = search audit_rules

  on_verdict-Runs :
      (email ip : Text) (r : Result Verdict) → Moves env runs (on_verdict env email ip r)
  unfolding on_verdict
  on_verdict-Runs email ip (ok v) = search (audit_rules, audit_rate_limit_block-Runs)
  on_verdict-Runs email ip (err e) = search audit_rules

  check_login_rate_limit-Runs :
      (key email ip : Text) → Moves env runs (check_login_rate_limit env key email ip)
  unfolding check_login_rate_limit
  check_login_rate_limit-Runs key email ip = search (audit_rules, on_verdict-Runs)

  refuse-Runs :
      (email ip reason : Text) {A : Type 0} → Moves env runs (refuse env email ip reason {A = A})
  unfolding refuse
  refuse-Runs email ip reason = search (audit_rules, audit_login_failed-Runs)

  found_user-Runs : (email ip : Text) (r : Result User) → Moves env runs (found_user env email ip r)
  unfolding found_user
  found_user-Runs email ip (ok u) = search (audit_rules, refuse-Runs)
  found_user-Runs email ip (err Error.not_found) = refuse-Runs email ip _
  found_user-Runs email ip (err _) = search audit_rules

  checked_password-Runs :
      (email ip : Text) (r : Result Bool) → Moves env runs (checked_password env email ip r)
  unfolding checked_password
  checked_password-Runs email ip (ok b) = search audit_rules
  checked_password-Runs email ip (err e) = refuse-Runs email ip _

  pub authenticate-Runs :
      (email password ip : Text) → Moves env runs (authenticate env email password ip)
  unfolding authenticate
  authenticate-Runs email password ip =
      search (audit_rules, found_user-Runs, checked_password-Runs) depth 8

  renew_hash-Runs : (user : User) (password : Text) → Moves env runs (renew_hash env user password)
  unfolding renew_hash
  renew_hash-Runs user password = search (audit_rules, hash_password-Runs)

  alert_travel-Runs :
      (user : ℕ) (ip country : Text) (prev : LastLogin)
      → Moves env runs (alert_travel env user ip country prev)
  unfolding alert_travel
  alert_travel-Runs user ip country prev = search audit_rules

  compare_login-Runs :
      (user : ℕ) (ip country : Text) (r : Result (Option LastLogin))
      → Moves env runs (compare_login env user ip country r)
  unfolding compare_login
  compare_login-Runs user ip country (ok (some prev)) = search (audit_rules, alert_travel-Runs)
  compare_login-Runs user ip country _ = search audit_rules

  from_country-Runs :
      (user : ℕ) (ip country : Text) → Moves env runs (from_country env user ip country)
  unfolding from_country
  from_country-Runs user ip country = search (audit_rules, compare_login-Runs) depth 8

  check_impossible_travel-Runs :
      (user : ℕ) (ip : Text) → Moves env runs (check_impossible_travel env user ip)
  unfolding check_impossible_travel
  check_impossible_travel-Runs user ip = elim (Option-cases (env.libs.country_code ip)) [
    | inl e ↦ rw (e, check_impossible_travel) (search audit_rules)
    | inr (country, e) ↦ rw (e, check_impossible_travel) (search (audit_rules, from_country-Runs))
  ]

  after_login-Runs :
      (user : User) (email ip : Text) (pair : TokenPair)
      → Moves env runs (after_login env user email ip pair)
  unfolding after_login
  after_login-Runs user email ip pair =
      search (audit_rules, check_impossible_travel-Runs, invalidate_user_cache-Runs) depth 12

  pub login-Runs :
      (email password ip user_agent : Text)
      → Moves env runs (login env email password ip user_agent)
  unfolding login
  login-Runs email password ip user_agent =
      search
        (
          audit_rules, check_login_rate_limit-Runs, authenticate-Runs, renew_hash-Runs,
          create_session-Runs, after_login-Runs,
        )
        depth 12
