-- ===== src/Service/Login.antt =====
-- backend/internal/service/auth.go: Login
pub mod Runs
pub mod Soundness
use secure_auth_platform.Prelude.{
  ℕ, ◌+◌, ◌-◌, ◌*◌, ◌/◌, Bool, not, ◌&&◌, [], ◌∷◌, Option, none, some, Text, bytes, leb, ◌=t=◌,
  if◌then◌else◌,
}
use secure_auth_platform.Exec.{
  Result, ok, err, not_found, invalid_credentials, rate_limited, rate_limit_down, pure, fail,
  attempt, ignore, ◌>>=◌, ◌>>◌,
}
use secure_auth_platform.Models.{User, text, number}
use secure_auth_platform.Env.{Env, LastLogin}
use secure_auth_platform.World.{App, on_redis, time_now}
use secure_auth_platform.Cache.RateLimit
use secure_auth_platform.Cache.RateLimit.{
  Verdict, login_ip_key, login_email_key, max_tier_threshold,
}
use secure_auth_platform.Cache.LastLoginStore
use secure_auth_platform.Repository.Users
use secure_auth_platform.Password.{hash_password, verify}
use secure_auth_platform.Service.Audit.{log, log_security_alert}
use secure_auth_platform.Service.Tokens.{TokenPair, create_session, second}
use secure_auth_platform.Service.PermissionService.{invalidate_user_cache}

module _ (env : Env) where
  unfoldable pub audit_login_failed : (email ip reason : Text) → App env (Unit {0})
  audit_login_failed email ip reason =
      log env none (bytes "login.failed") (bytes "auth") none none (
        some (
          (bytes "email", text email) ∷ (bytes "ip", text ip) ∷ (bytes "reason", text reason) ∷ []))

  -- Seconds are whole here.
  unfoldable pub audit_rate_limit_block : (email ip : Text) → Verdict → App env (Unit {0})
  audit_rate_limit_block email ip v = do
    log env none (bytes "login.failed") (bytes "auth") none none (
        some (
          (bytes "email", text email)
          ∷ (bytes "ip", text ip)
          ∷ (bytes "reason", text (bytes "rate_limited"))
          ∷ (bytes "retryAfterSec", number (v.retry_after / second))
          ∷ []))
    if leb (max_tier_threshold env.config.tiers) v.count
        then log_security_alert env none (bytes "login_rate_limit") (
            (bytes "email", text email)
            ∷ (bytes "ip", text ip)
            ∷ (bytes "attemptCount", number v.count)
            ∷ (bytes "retryAfterSec", number (v.retry_after / second))
            ∷ [])
        else pure tt

  on_verdict : (email ip : Text) → Result Verdict → App env (Unit {0})
  on_verdict email ip (err e) = fail rate_limit_down
  on_verdict email ip (ok v) =
      if v.blocked then (do audit_rate_limit_block email ip v; fail rate_limited) else pure tt

  unfoldable pub check_login_rate_limit : (key email ip : Text) → App env (Unit {0})
  unfolding on_verdict
  check_login_rate_limit key email ip = do
    verdict ← attempt (on_redis env (RateLimit.check env key))
    on_verdict email ip verdict

  -- A login that fails: one audit entry and one error, whatever the reason. The dummy hash that
  -- equalises the time taken changes nothing.
  unfoldable pub refuse : (email ip reason : Text) → {A : Type 0} → App env A
  refuse email ip reason = do audit_login_failed email ip reason; fail invalid_credentials

  found_user : (email ip : Text) → Result User → App env User
  found_user email ip (ok u) = if u.active then pure u else refuse email ip (bytes "user_inactive")
  found_user email ip (err not_found) = refuse email ip (bytes "user_not_found")
  found_user email ip (err e) = fail e

  checked_password : (email ip : Text) → Result Bool → App env Bool
  checked_password email ip (ok needs_rehash) = pure needs_rehash
  checked_password email ip (err e) = refuse email ip (bytes "wrong_password")

  -- The user that the credentials name, and whether the hash is to be renewed.
  unfoldable pub authenticate : (email password ip : Text) → App env (User × Bool)
  unfolding found_user checked_password
  authenticate email password ip = do
    found ← attempt (Users.find_by_email env email)
    user ← found_user email ip found
    needs_rehash ← checked_password email ip (verify env user.password_hash password)
    pure (user, needs_rehash)

  unfoldable pub renew_hash : User → Text → App env (Unit {0})
  renew_hash user password = do
    new_hash ← hash_password env password
    ignore (Users.update_password_hash env user.id new_hash)

  -- The alert, if the last login was elsewhere and not long ago.
  alert_travel : ℕ → (ip country : Text) → LastLogin → App env (Unit {0})
  alert_travel user ip country prev = do
    now ← time_now env
    if leb now (prev.at + env.config.travel_window)
        then log_security_alert env (some user) (bytes "impossible_travel") (
            (bytes "ip", text ip)
            ∷ (bytes "country", text country)
            ∷ (bytes "prevIp", text prev.ip)
            ∷ (bytes "prevCountry", text prev.country_code)
            ∷ (bytes "elapsedSec", number ((now - prev.at) / second))
            ∷ (bytes "windowMinutes", number (env.config.travel_window / (60 * second)))
            ∷ [])
        else pure tt

  compare_login : ℕ → (ip country : Text) → Result (Option LastLogin) → App env (Unit {0})
  unfolding alert_travel
  compare_login user ip country (ok (some prev)) =
      if not (prev.country_code =t= []) && not (prev.country_code =t= country)
      then alert_travel user ip country prev
      else pure tt
  compare_login user ip country _ = pure tt

  from_country : ℕ → (ip country : Text) → App env (Unit {0})
  unfolding compare_login
  from_country user ip country = do
    prev ← attempt (on_redis env (LastLoginStore.get env user))
    compare_login user ip country prev
    now ← time_now env
    ignore (
        on_redis env
          (LastLoginStore.set env user (record { country_code = country; ip = ip; at = now })))

  -- `none` is a failed lookup.
  unfoldable pub check_impossible_travel : ℕ → Text → App env (Unit {0})
  unfolding from_country
  check_impossible_travel user ip = elim (env.libs.country_code ip) [
    | none ↦ pure tt
    | some country ↦ if country =t= [] then pure tt else from_country user ip country
  ]

  unfoldable pub after_login : User → (email ip : Text) → TokenPair → App env (Unit {0})
  after_login user email ip pair = do
    ignore (on_redis env (RateLimit.reset env (login_email_key email)))
    ignore (on_redis env (RateLimit.reset env (login_ip_key ip)))
    log env (some user.id) (bytes "login.success") (bytes "auth") (some user.id) none (
        some (
          (bytes "email", text email)
          ∷ (bytes "ip", text ip)
          ∷ (bytes "sessionId", number pair.session_id)
          ∷ []))
    check_impossible_travel user.id ip
    invalidate_user_cache env user.id

  unfoldable pub login : (email password ip user_agent : Text) → App env TokenPair
  login email password ip user_agent = do
    check_login_rate_limit (login_ip_key ip) email ip
    check_login_rate_limit (login_email_key email) email ip
    (user, needs_rehash) ← authenticate email password ip
    if needs_rehash then renew_hash user password else pure tt
    pair ← create_session env user ip user_agent
    after_login user email ip pair
    pure pair
