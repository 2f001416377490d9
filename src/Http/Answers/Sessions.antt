-- ===== src/Http/Answers/Sessions.antt =====
-- The handlers of backend/internal/auth/handler.go answer.
use secure_auth_platform.Prelude.{ℕ, ℤ, pos, negsuc, ◌≡◌, refl, true, List}
use secure_auth_platform.Exec.{Error, Result, ok, err}
use secure_auth_platform.Models.{Session}
use secure_auth_platform.Env.{Env}
use secure_auth_platform.Service.Tokens.{TokenPair, TokenClaims}
use secure_auth_platform.Http.{LoginRequest, Request, status_of}
use secure_auth_platform.Http.AuthHandler
use secure_auth_platform.Http.Answers.Base.{is_listed, Answers, answer_rules}

login_answer-listed :
    (r : Result TokenPair) → is_listed (status_of (AuthHandler.login_answer r).outcome) ≡ true
unfolding AuthHandler.login_answer
login_answer-listed (ok p) = refl
login_answer-listed (err Error.rate_limited) = refl
login_answer-listed (err Error.rate_limit_down) = refl
login_answer-listed (err Error.invalid_credentials) = refl
login_answer-listed (err _) = refl

done_or_failed-listed :
    (r : Result (Unit {0})) → is_listed (status_of (AuthHandler.done_or_failed r).outcome) ≡ true
done_or_failed-listed (ok u) = refl
done_or_failed-listed (err e) = refl

listed-listed :
    (n : ℕ) (r : Result (List Session))
    → is_listed (status_of (AuthHandler.listed n r).outcome) ≡ true
listed-listed n (ok ss) = refl
listed-listed n (err e) = refl

module _ (env : Env) where
  pub login_with-Answers :
      (req : Request) (body : LoginRequest) → Answers env (AuthHandler.login_with env req body)
  unfolding AuthHandler.login_with
  login_with-Answers req body = search (answer_rules, login_answer-listed) depth 8

  pub login-Answers : (req : Request) → Answers env (AuthHandler.login env req)
  unfolding AuthHandler.login
  login-Answers req = search (answer_rules, login_with-Answers) depth 8

  pub refresh_answer-Answers :
      (r : Result TokenPair) → Answers env (AuthHandler.refresh_answer env r)
  unfolding AuthHandler.refresh_answer
  refresh_answer-Answers (ok p) = search answer_rules
  refresh_answer-Answers (err e) = search answer_rules

  pub refresh-Answers : (req : Request) → Answers env (AuthHandler.refresh env req)
  unfolding AuthHandler.refresh
  refresh-Answers req = search (answer_rules, refresh_answer-Answers) depth 8

  pub cleared-Answers : Answers env (AuthHandler.cleared env)
  unfolding AuthHandler.cleared
  cleared-Answers = search answer_rules

  pub logout_answer-Answers :
      (r : Result (Unit {0})) → Answers env (AuthHandler.logout_answer env r)
  unfolding AuthHandler.logout_answer
  logout_answer-Answers (ok u) = search (answer_rules, cleared-Answers) depth 8
  logout_answer-Answers (err e) = search answer_rules

  pub logout-Answers : (req : Request) → Answers env (AuthHandler.logout env req)
  unfolding AuthHandler.logout
  logout-Answers req = search (answer_rules, cleared-Answers, logout_answer-Answers) depth 8

  pub list_sessions-Answers : (who : TokenClaims) → Answers env (AuthHandler.list_sessions env who)
  unfolding AuthHandler.list_sessions
  list_sessions-Answers who = search (answer_rules, listed-listed) depth 8

  pub revoke_parsed-Answers :
      (who : TokenClaims) (id : ℤ) → Answers env (AuthHandler.revoke_parsed env who id)
  unfolding AuthHandler.revoke_parsed
  revoke_parsed-Answers who (pos n) = search (answer_rules, done_or_failed-listed) depth 8
  revoke_parsed-Answers who (negsuc n) = search (answer_rules, done_or_failed-listed) depth 8

  pub revoke_session-Answers :
      (req : Request) (who : TokenClaims) → Answers env (AuthHandler.revoke_session env req who)
  unfolding AuthHandler.revoke_session
  revoke_session-Answers req who = search (answer_rules, revoke_parsed-Answers) depth 8

  pub revoke_all_sessions_except_current-Answers :
      (who : TokenClaims) → Answers env (AuthHandler.revoke_all_sessions_except_current env who)
  unfolding AuthHandler.revoke_all_sessions_except_current
  revoke_all_sessions_except_current-Answers who =
      search (answer_rules, done_or_failed-listed) depth 8
